-- ===== src/UserMode/Share.antt =====
-- Sharing an entry of the kernel's root table, and taking a page, keep the tables well-formed.
use operatingsystem.Common.{ℕ, zero, suc, ◌+◌, ◌/◌, ◌<◌, ◌≡◌, ◌≢◌, refl, sym, ap, ◌∙◌, arith}
use operatingsystem.Common.{◌⊎◌, inl, inr, some, List, [], ◌∷◌, length, write, write_lem}
use operatingsystem.Common.{true, false, ◌==◌, ==_refl, ==-eq-false, if◌then◌else◌, ℕ_discrete}
use operatingsystem.Pmm.{Pmm, alloc_page}
use operatingsystem.Pmm.Alloc.{Granted, alloc_page_lem}
use operatingsystem.Vmm.{Vmm, is_present, is_huge, address_of, entry_at}
use operatingsystem.Pmm.Spent.{alloc_page-Spent}
use operatingsystem.Vmm.Enter.{write-there}
use operatingsystem.Vmm.Keeps.{Keeps, not_entry}
use operatingsystem.Vmm.Walk.{index, walk, walk-zero, walk-suc}
use operatingsystem.Vmm.Tree.{Owner, IsTree, entry_at-ne, index-lt, through}

-- Another allocator with at least these pages taken.
IsTree-alloc :
    {v : Vmm} {owner : Owner} (pmm : Pmm)
    → IsTree v owner
    → (pmm ≡ v.pmm)
      ⊎ ((q : ℕ) × Granted v.pmm q 1 (alloc_page v.pmm) × (pmm ≡ (alloc_page v.pmm).1))
    → IsTree (record v { pmm = pmm }) owner
IsTree-alloc pmm i (inl e) = rw e i
IsTree-alloc {v} pmm i (inr (q, g, e)) = rw e (record {
  valid = g.valid;
  small = omega (arith, i.small, g.same_total);
  aligned = i.aligned;
  taken = λ t p o. g.after (t / 4096) ∙ ground (arith, i.taken t p o);
  child = i.child;
})

pub alloc-IsTree :
    {v : Vmm} {owner : Owner}
    → IsTree v owner
    → IsTree (record v { pmm = (alloc_page v.pmm).1 }) owner
alloc-IsTree {v} i = IsTree-alloc (alloc_page v.pmm).1 i (elim (alloc_page_lem v.pmm i.valid) [
  | inl (q, g) ↦ inr (q, g, refl)
  | inr (failed, all) ↦ inl (ap (λ (r : ℕ × Pmm). r.1) failed)
])

-- Taking a page leaves the taken pages as they are.
pub alloc-Keeps :
    {v : Vmm} {owner : Owner}
    → IsTree v owner
    → Keeps v owner (record v { pmm = (alloc_page v.pmm).1 }) owner
alloc-Keeps i = record {
  page_kept = λ a k z. (refl, (alloc_page-Spent i.valid).taken (a / 4096) k, z);
}

module _ (v : Vmm) (owner : Owner) (root : ℕ) (i : IsTree v owner) (o : owner root ≡ some [])
    (k : owner v.cr3 ≡ some []) where
  abbrev pub shared : ℕ → ℕ
  shared = write v.memory (entry_at root 0) (v.memory (entry_at v.cr3 0))

  shared-here : shared (entry_at root 0) ≡ v.memory (entry_at v.cr3 0)
  shared-here =
      write_lem v.memory (entry_at root 0) _ (entry_at root 0) ∙ rw (==_refl (entry_at root 0)) refl

  shared-other :
      (x : ℕ) (q : List ℕ) (j : ℕ)
      → owner x ≡ some q
      → j < 512
      → (x ≢ root) ⊎ (j ≢ 0)
      → shared (entry_at x j) ≡ v.memory (entry_at x j)
  shared-other x q j ox hx ne =
      write_lem v.memory (entry_at root 0) (v.memory (entry_at v.cr3 0)) (entry_at x j)
      ∙ rw
          (==-eq-false (
            entry_at-ne root x 0 j (i.aligned root [] o).0 (i.aligned x q ox).0 (omega arith) hx
              ne))
          refl

  place : (x j : ℕ) → ((x ≡ root) × (j ≡ 0)) ⊎ ((x ≢ root) ⊎ (j ≢ 0))
  place x j = elim (ℕ_discrete x root) [
    | no ne ↦ inr (inl ne)
    | yes e ↦ elim (ℕ_discrete j 0) [ no ne ↦ inr (inr ne) | yes z ↦ inl (e, z) ]
  ]

  pub shared-Keeps : Keeps v owner (record v { memory = shared }) owner
  shared-Keeps = record {
    page_kept = λ a k z. (
      write-there v.memory (entry_at root 0) _ a (not_entry root 0 a [] i o (omega arith) z),
      k,
      z,
    );
  }

  pub shared-IsTree : IsTree (record v { memory = shared }) owner
  shared-IsTree = record {
    valid = i.valid;
    small = i.small;
    aligned = i.aligned;
    taken = i.taken;
    child = λ x q j ox lx hx px nx. elim (place x j) [
      | inl (ex, ej) ↦
          let kept : shared (entry_at x j) ≡ v.memory (entry_at v.cr3 0) =
            rw (ex, ej) shared-here in
          let same_path : [] ≡ q = cc (ap owner ex) in
          rw (kept, ej, ← same_path)
            (i.child v.cr3 [] 0 k (omega arith) (omega arith) (ap is_present (sym kept) ∙ px)
              (ap is_huge (sym kept) ∙ nx))
      | inr ne ↦
          let kept = shared-other x q j ox hx ne in
          rw kept
            (i.child x q j ox lx hx (ap is_present (sym kept) ∙ px) (ap is_huge (sym kept) ∙ nx))
    ];
  }

  -- Walks from the other tables.
  pub shared-walks :
      (left t : ℕ) (path : List ℕ) (w : ℕ)
      → owner t ≡ some path
      → length path + left ≡ 3
      → t ≢ root
      → walk left t w shared ≡ walk left t w v.memory
  shared-walks zero t path w ot l ne =
      rw
        (
          walk-zero t w shared,
          walk-zero t w v.memory,
          shared-other t path (index 1 w) ot (index-lt 1 w) (inl ne),
        )
        refl
  shared-walks (suc left) t path w ot l ne =
      let j = index (suc (suc left)) w in
      let e = v.memory (entry_at t j) in
      let next = λ (p : is_present e ≡ true) (h : is_huge e ≡ false).
        let below = i.child t path j ot (omega arith) (index-lt (suc (suc left)) w) p h in
        shared-walks left (address_of e) (j ∷ path) w below (omega arith)
          (λ same. cc (ap owner same)) in
      rw
        (
          walk-suc left t w shared,
          walk-suc left t w v.memory,
          shared-other t path j ot (index-lt (suc (suc left)) w) (inl ne),
        )
        (through (suc (suc left)) e _ _ next)

  pub shared-root :
      (w : ℕ)
      → walk 3 root w shared
        ≡ (if index 4 w == 0 then walk 3 v.cr3 w v.memory else walk 3 root w v.memory)
  shared-root w = elim (ℕ_discrete (index 4 w) 0) [
    | yes z ↦
        rw (z, walk-suc 2 root w shared, walk-suc 2 v.cr3 w v.memory, z, shared-here)
          (through 4 e _ _ (λ p h. below e (i.child v.cr3 [] 0 k (omega arith) (omega arith) p h)))
    | no ne ↦
        rw
          (
            ==-eq-false ne,
            walk-suc 2 root w shared,
            walk-suc 2 root w v.memory,
            shared-other root [] (index 4 w) o (index-lt 4 w) (inr ne),
          )
          (through 4 (own w) _ _
            (λ p h. below (own w) (i.child root [] (index 4 w) o (omega arith) (index-lt 4 w) p h)))
  ]
    where
      e : ℕ
      e = v.memory (entry_at v.cr3 0)

      own : ℕ → ℕ
      own w = v.memory (entry_at root (index 4 w))

      below :
          (e : ℕ) {j : ℕ}
          → owner (address_of e) ≡ some (j ∷ [])
          → walk 2 (address_of e) w shared ≡ walk 2 (address_of e) w v.memory
      below e {j} oe = shared-walks 2 (address_of e) (j ∷ []) w oe refl (λ same. cc (ap owner same))
