-- ===== src/Vmm/Map.antt =====
-- `vmm_map_page`.
use operatingsystem.Common.{ℕ, suc, ◌+◌, ◌%◌, ◌<◌, ◌≡◌, ◌≢◌, refl, sym, ap, ◌∙◌, arith}
use operatingsystem.Common.{◌⊎◌, inl, inr, some, List, [], bit_or, bit_and, write}
use operatingsystem.Common.{true, ◌==◌, ==-eq-false, if◌then◌else◌}
use operatingsystem.Pmm.{test_bit}
use operatingsystem.Vmm.{Vmm, address_of, get_or_create_table, map_page, translate}
use operatingsystem.Vmm.Entry.{page_entry_lem}
use operatingsystem.Vmm.Walk.{
  large, page, index, slot, walk, split_vaddr_lem, target, translate_lem,
}
use operatingsystem.Vmm.Tree.{Owner, IsTree, index-lt}
use operatingsystem.Vmm.Keeps.{Keeps, not_entry}
use operatingsystem.Vmm.Enter.{write-there}
use operatingsystem.Vmm.Step.{step_lem}
use operatingsystem.Vmm.Leaf.{
  page_number, path_to, path_to-short, leaf-IsTree, leaf-Leads, leaf-here, leaf-others,
}
use operatingsystem.Vmm.Down.{Down, Down-start, Down-Entered, Down-Blocked, Failed}

-- The page is mapped, by the entry `e`.
pub record Mapped (s : Vmm) (owner : Owner) (root v e : ℕ) (s' : Vmm) : Type 0 where
  pub owner' : Owner
  pub tree : IsTree s' owner'
  pub grows : (x : ℕ) (q : List ℕ) → owner x ≡ some q → owner' x ≡ some q
  pub here : walk 3 root v s'.memory ≡ page e
  pub others :
      (x w : ℕ)
      → owner x ≡ some []
      → page_number w ≢ page_number v
      → walk 3 x w s'.memory ≡ walk 3 x w s.memory
  pub keeps : Keeps s owner s' owner'

abbrev pub page_entry : ℕ → ℕ → ℕ
page_entry phys_addr flags = bit_or (bit_or (address_of phys_addr) flags) 1

-- One level down, with what is done after it.
abbrev pub next_level : ℕ × Vmm → (ℕ → Vmm → Vmm) → Vmm
next_level r then_do = if r.0 == 0 then r.1 else then_do r.0 r.1

pub map_page-eq :
    (root v phys_addr flags : ℕ) (s : Vmm)
    → map_page root v phys_addr flags s
      ≡ next_level (get_or_create_table root (index 4 v) (bit_and flags 4) s) (λ pdpt s1.
        next_level (get_or_create_table pdpt (index 3 v) (bit_and flags 4) s1) (λ pd s2.
          next_level (get_or_create_table pd (index 2 v) (bit_and flags 4) s2) (λ pt s3. record s3 {
            memory = write s3.memory (slot 1 pt v) (page_entry phys_addr flags);
          })))
unfolding map_page
map_page-eq root v phys_addr flags s = rw (split_vaddr_lem v) refl

abbrev Outcome : Vmm → Owner → ℕ → ℕ → ℕ → Vmm → Type 0
Outcome s owner root v e s' = Mapped s owner root v e s' ⊎ Failed s owner root v s'

-- If each step from a table on ends well, so does the rest of the code from there.
level_lem :
    {s : Vmm} {owner : Owner} {root v left t : ℕ} {s1 : Vmm} (e flags : ℕ) (then_do : ℕ → Vmm → Vmm)
    → owner root ≡ some []
    → left < 3
    → Down s owner root v (suc left) t s1
    → ((t' : ℕ) (s2 : Vmm)
        → Down s owner root v left t' s2
        → Outcome s owner root v e (then_do t' s2))
    → Outcome s owner root v e
        (next_level (get_or_create_table t (index (suc (suc left)) v) flags s1) then_do)
level_lem {s} {owner} {root} {v} {left} {t} {s1} e flags then_do o h d rest =
    elim (step_lem s1 d.owner1 t (index (suc (suc left)) v) (path_to (suc left) v) flags d.tree d.at
      (path_to-short left v) (index-lt (suc (suc left)) v)) [
        | inl entered ↦
            let down = Down-Entered h d entered in rw (==-eq-false (nonzero down)) (rest _ _ down)
        | inr (failed, blocked) ↦ rw failed (inr (Down-Blocked o d blocked))
      ]
  where
    nonzero : {t' : ℕ} {s2 : Vmm} → Down s owner root v left t' s2 → t' ≢ 0
    nonzero down = λ k. omega (arith, down.tree.aligned _ _ down.at)

leaf_lem :
    {s : Vmm} {owner : Owner} {root v t : ℕ} {s1 : Vmm} (phys_addr flags : ℕ)
    → address_of flags ≡ 0
    → Down s owner root v 0 t s1
    → Mapped s owner root v
        (page_entry phys_addr flags)
        (record s1 { memory = write s1.memory (slot 1 t v) (page_entry phys_addr flags) })
leaf_lem {s} {owner} {root} {v} {t} {s1} phys_addr flags h d =
    let e = page_entry phys_addr flags in
    record {
      owner' = d.owner1;
      tree = leaf-IsTree s1 d.owner1 t v e d.tree d.at;
      grows = d.grows;
      here =
          d.route _ (λ x q j y ox lx hx l. leaf-Leads s1 d.owner1 t v e d.tree d.at q ox lx hx l)
          ∙ leaf-here s1 d.owner1 t v e d.tree d.at
          ∙ rw (page_entry_lem phys_addr flags h).0 refl;
      others = λ x w ox ne.
          leaf-others s1 d.owner1 t v e d.tree d.at x w (d.grows x [] ox) ne
          ∙ d.walks 3 x [] w ox refl;
      keeps = record {
        page_kept = λ a k z.
            let (same, taken, no1) = d.keeps.page_kept a k z in
            (
              write-there s1.memory (slot 1 t v) e a
                    (not_entry t (index 1 v) a (path_to 0 v) d.tree d.at (index-lt 1 v) no1)
                  ∙ same,
              taken,
              no1,
            );
      };
    }

pub map_page-Outcome :
    (s : Vmm) (owner : Owner) (root v phys_addr flags : ℕ)
    → IsTree s owner
    → owner root ≡ some []
    → address_of flags ≡ 0
    → Outcome s owner root v (page_entry phys_addr flags) (map_page root v phys_addr flags s)
map_page-Outcome s owner root v phys_addr flags i o h =
    let e = page_entry phys_addr flags in
    rw (map_page-eq root v phys_addr flags s) (
      level_lem e (bit_and flags 4) _ o (omega arith) (Down-start s owner root v i o) (λ pdpt s1 d1.
        level_lem e (bit_and flags 4) _ o (omega arith) d1 (λ pd s2 d2.
          level_lem e (bit_and flags 4) _ o (omega arith) d2
            (λ pt s3 d3. inl (leaf_lem phys_addr flags h d3)))))

-- In address spaces whose tables form a tree, and for flags outside the address bits,
-- `vmm_map_page` either maps the page: the address then translates to its place in the page at the
-- physical address, and every address on another page translates as before, in this space and in
-- all others; or it maps nothing, every address in every space translates as before, and a huge
-- page covers the address or every page of the machine is taken. The tables form a tree again, and
-- the memory of every page that was taken and is none of them stays as it was.
pub map_page_lem :
    (s : Vmm) (owner : Owner) (root v phys_addr flags : ℕ)
    → IsTree s owner
    → owner root ≡ some []
    → address_of flags ≡ 0
    → let s' = map_page root v phys_addr flags s in
      ((owner' : Owner) × IsTree s' owner'
        × Keeps s owner s' owner'
        × (translate root v s' ≡ address_of phys_addr + v % 4096)
        × ((x w : ℕ)
            → owner x ≡ some []
            → page_number w ≢ page_number v
            → translate x w s' ≡ translate x w s))
      ⊎ ((owner' : Owner) × IsTree s' owner'
          × Keeps s owner s' owner'
          × ((x w : ℕ) → owner x ≡ some [] → translate x w s' ≡ translate x w s)
          × (((level e : ℕ) × (walk 3 root v s.memory ≡ large level e))
              ⊎ ((q : ℕ) → q < s'.pmm.total_pages → test_bit s'.pmm.bitmap q ≡ true)))
map_page_lem s owner root v phys_addr flags i o h =
    elim (map_page-Outcome s owner root v phys_addr flags i o h) [
      | inl m ↦ inl (
        m.owner',
        m.tree,
        m.keeps,
        translate_lem root v _
            ∙ ap (target v) m.here
            ∙ ap (λ a. a + v % 4096) (page_entry_lem phys_addr flags h).1,
        λ x w ox ne. same_target x w (m.others x w ox ne),
      )
      | inr f ↦ inr (
        f.owner',
        f.tree,
        f.keeps,
        λ x w ox. same_target x w (f.walks 3 x [] w ox refl),
        f.reason,
      )
    ]
  where
    s' : Vmm
    s' = map_page root v phys_addr flags s

    same_target :
        (x w : ℕ)
        → walk 3 x w (map_page root v phys_addr flags s).memory ≡ walk 3 x w s.memory
        → translate x w (map_page root v phys_addr flags s) ≡ translate x w s
    same_target x w e = translate_lem x w _ ∙ ap (target w) e ∙ sym (translate_lem x w s)
