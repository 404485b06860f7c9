-- ===== src/Vmm/Unmap.antt =====
-- `vmm_unmap_page`.
use operatingsystem.Common.{ℕ, suc, ◌<◌, ◌≡◌, ◌≢◌, refl, sym, ap, ◌∙◌, arith}
use operatingsystem.Common.{◌⊎◌, inl, inr, some, [], ◌∷◌, write}
use operatingsystem.Common.{not, if◌then◌else◌, Bool-cases}
use operatingsystem.Vmm.{Vmm, is_present, is_huge, address_of, unmap_page, translate}
use operatingsystem.Vmm.Walk.{
  absent, large, slot, walk, walk-suc, split_vaddr_lem, target, translate_lem,
}
use operatingsystem.Vmm.Tree.{Owner, IsTree, IsTree-registers, index-lt}
use operatingsystem.Vmm.Step.{Entered-same}
use operatingsystem.Vmm.Leaf.{
  page_number, path_to, path_to-short, leaf-IsTree, leaf-Leads, leaf-here, leaf-others,
}
use operatingsystem.Vmm.Down.{Down, Down-start, Down-Entered}

-- The entry is cleared, and the address given to `invlpg`.
pub record Unmapped (s : Vmm) (owner : Owner) (root v : ℕ) (s' : Vmm) : Type 0 where
  pub owner' : Owner
  pub tree : IsTree s' owner'
  pub here : walk 3 root v s'.memory ≡ absent
  pub others :
      (x w : ℕ)
      → owner x ≡ some []
      → page_number w ≢ page_number v
      → walk 3 x w s'.memory ≡ walk 3 x w s.memory
  pub flushed : s'.flushed ≡ v ∷ s.flushed

-- There is no table that could hold the entry.
abbrev Untouched : Vmm → ℕ → ℕ → Vmm → Type 0
Untouched s root v s' =
    (s' ≡ s)
    × ((walk 3 root v s.memory ≡ absent)
        ⊎ ((level e : ℕ) × (walk 3 root v s.memory ≡ large level e)))

abbrev Outcome : Vmm → Owner → ℕ → ℕ → Vmm → Type 0
Outcome s owner root v s' = Unmapped s owner root v s' ⊎ Untouched s root v s'

-- One level down without a change, with what is done after it.
abbrev next_level : ℕ → Vmm → Vmm → Vmm
next_level e s then_do = if not (is_present e) then s else if is_huge e then s else then_do

level_lem :
    {s : Vmm} {owner : Owner} {root v left t : ℕ} (then_do : Vmm)
    → left < 3
    → Down s owner root v (suc left) t s
    → (Down s owner root v left (address_of (s.memory (slot (suc (suc left)) t v))) s
        → Outcome s owner root v then_do)
    → Outcome s owner root v (next_level (s.memory (slot (suc (suc left)) t v)) s then_do)
level_lem {s} {owner} {root} {v} {left} {t} then_do h d rest =
    let e = s.memory (slot (suc (suc left)) t v) in
    let step = d.route s.memory (λ x q j y ox lx hx l. l) ∙ walk-suc left t v s.memory in
    elim (Bool-cases (is_present e)) [
      | inr p ↦ rw p (inr (refl, inl (step ∙ rw p refl)))
      | inl p ↦ rw p (elim (Bool-cases (is_huge e)) [
        | inl big ↦ rw big (inr (refl, inr (suc (suc left), e, step ∙ rw (p, big) refl)))
        | inr table ↦ rw table (
            rest (
              Down-Entered h d (
                Entered-same s d.owner1 t _ (path_to (suc left) v) d.tree d.at
                  (path_to-short left v) (index-lt (suc (suc left)) v) p table)))
      ])
    ]

leaf_lem :
    {s : Vmm} {owner : Owner} {root v t : ℕ}
    → Down s owner root v 0 t s
    → Unmapped s owner root v
        (record s { memory = write s.memory (slot 1 t v) 0; flushed = v ∷ s.flushed })
leaf_lem {s} {owner} {root} {v} {t} d = record {
  owner' = d.owner1;
  tree = IsTree-registers s.cr3 (v ∷ s.flushed) (leaf-IsTree s d.owner1 t v 0 d.tree d.at);
  here =
      d.route _ (λ x q j y ox lx hx l. leaf-Leads s d.owner1 t v 0 d.tree d.at q ox lx hx l)
      ∙ leaf-here s d.owner1 t v 0 d.tree d.at;
  others = λ x w ox ne. leaf-others s d.owner1 t v 0 d.tree d.at x w (d.grows x [] ox) ne;
  flushed = refl;
}

unmap_page-eq :
    (root v : ℕ) (s : Vmm)
    → let e1 = s.memory (slot 4 root v) in
      let e2 = s.memory (slot 3 (address_of e1) v) in
      let e3 = s.memory (slot 2 (address_of e2) v) in
      unmap_page root v s
      ≡ next_level e1 s (
          next_level e2 s (
            next_level e3 s (record s {
              memory = write s.memory (slot 1 (address_of e3) v) 0;
              flushed = v ∷ s.flushed;
            })))
unfolding unmap_page
unmap_page-eq root v s = rw (split_vaddr_lem v) refl

unmap_page-Outcome :
    (s : Vmm) (owner : Owner) (root v : ℕ)
    → IsTree s owner
    → owner root ≡ some []
    → Outcome s owner root v (unmap_page root v s)
unmap_page-Outcome s owner root v i o = rw (unmap_page-eq root v s) (
    level_lem _ (omega arith) (Down-start s owner root v i o) (λ d1.
      level_lem _ (omega arith) d1 (λ d2. level_lem _ (omega arith) d2 (λ d3. inl (leaf_lem d3)))))

-- In address spaces whose tables form a tree, `vmm_unmap_page` either clears the entry of the
-- address: the address then translates to 0 and is given to `invlpg`, every address on another
-- page translates as before, in this space and in all others, and the tables form a tree again; or
-- it changes nothing, because a table on the way is missing and the address translates to 0, or
-- because a huge page covers the address.
pub unmap_page_lem :
    (s : Vmm) (owner : Owner) (root v : ℕ)
    → IsTree s owner
    → owner root ≡ some []
    → let s' = unmap_page root v s in
      ((owner' : Owner) × IsTree s' owner'
        × (translate root v s' ≡ 0)
        × (s'.flushed ≡ v ∷ s.flushed)
        × ((x w : ℕ)
            → owner x ≡ some []
            → page_number w ≢ page_number v
            → translate x w s' ≡ translate x w s))
      ⊎ ((s' ≡ s)
          × ((translate root v s ≡ 0) ⊎ ((level e : ℕ) × (walk 3 root v s.memory ≡ large level e))))
unmap_page_lem s owner root v i o = elim (unmap_page-Outcome s owner root v i o) [
  | inl u ↦ inl (
    u.owner',
    u.tree,
    translate_lem root v _ ∙ ap (target v) u.here,
    u.flushed,
    λ x w ox ne.
        translate_lem x w _ ∙ ap (target w) (u.others x w ox ne) ∙ sym (translate_lem x w s),
  )
  | inr (e, inl nothing) ↦ inr (e, inl (translate_lem root v s ∙ ap (target v) nothing))
  | inr (e, inr covered) ↦ inr (e, inr covered)
]
