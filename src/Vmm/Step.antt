-- ===== src/Vmm/Step.antt =====
-- `get_or_create_table`: the outcome of a step.
use operatingsystem.Common.{ℕ, ◌*◌, ◌<◌, ◌≡◌, ◌≢◌, refl, ◌∙◌, subst, arith}
use operatingsystem.Common.{◌⊎◌, inl, inr, some, List, length, bit_and, bit_or}
use operatingsystem.Common.{true, false, not, ◌==◌, ==-eq-false, Bool-cases}
use operatingsystem.Pmm.{test_bit, alloc_page}
use operatingsystem.Pmm.Alloc.{Granted, alloc_page_lem}
use operatingsystem.Vmm.{
  Vmm, is_present, is_huge, address_of, entry_at, table_entry, get_or_create_table,
}
use operatingsystem.Vmm.Entry.{table_entry_lem, user_entry_lem}
use operatingsystem.Vmm.Tree.{Owner, IsTree, same}
use operatingsystem.Vmm.Keeps.{Keeps-same}
use operatingsystem.Vmm.Enter.{Entered, Entered-there}
use operatingsystem.Vmm.Fresh.{Entered-fresh}

-- What stands in the way of a step: a huge page, or no entry and no free page.
pub data Blocked (s : Vmm) (t i : ℕ) : Type 0 where
  huge :
      is_present (s.memory (entry_at t i)) ≡ true
      → is_huge (s.memory (entry_at t i)) ≡ true
      → Blocked s t i
  full :
      is_present (s.memory (entry_at t i)) ≡ false
      → ((q : ℕ) → q < s.pmm.total_pages → test_bit s.pmm.bitmap q ≡ true)
      → Blocked s t i

-- The outcome of a step.
abbrev pub Step : Vmm → Owner → ℕ → ℕ → List ℕ → ℕ × Vmm → Type 0
Step s owner t i path r = Entered s owner t i path r.0 r.1 ⊎ ((r ≡ (0, s)) × Blocked s t i)

step-absent :
    (s : Vmm) (owner : Owner) (t i : ℕ) (path : List ℕ) (flags : ℕ)
    → IsTree s owner
    → owner t ≡ some path
    → length path < 3
    → i < 512
    → is_present (s.memory (entry_at t i)) ≡ false
    → Step s owner t i path (get_or_create_table t i flags s)
unfolding get_or_create_table
step-absent s owner t i path flags v o l h none_there =
    rw none_there (elim (alloc_page_lem s.pmm v.valid) [
      | inr (failed, all) ↦ rw failed (inr (refl, full none_there all))
      | inl (page, g) ↦
          let f = table_entry_lem page flags (omega (arith, g.within, v.small)) in
          rw (==-eq-false (nonzero page g), g.address, f.2)
            (inl (
              Entered-fresh s owner t i path (table_entry (page * 4096) flags) page
                (alloc_page s.pmm).1 v o l h none_there
                (subst (λ a. Granted s.pmm page 1 (a, (alloc_page s.pmm).1)) g.address g) f.0 f.1
                f.2))
    ])
  where
    nonzero : (page : ℕ) → Granted s.pmm page 1 (alloc_page s.pmm) → (alloc_page s.pmm).0 ≢ 0
    nonzero page g = λ e. omega (arith, g.nonzero, g.address)

-- A step through an entry that is there and stays as it is.
pub Entered-same :
    (s : Vmm) (owner : Owner) (t i : ℕ) (path : List ℕ)
    → IsTree s owner
    → owner t ≡ some path
    → length path < 3
    → i < 512
    → is_present (s.memory (entry_at t i)) ≡ true
    → is_huge (s.memory (entry_at t i)) ≡ false
    → Entered s owner t i path (address_of (s.memory (entry_at t i))) s
Entered-same s owner t i path v o l h there table = record {
  owner' = owner;
  tree = v;
  grows = λ x q k. k;
  child = v.child t path i o l h there table;
  present = there;
  no_huge = table;
  leads = refl;
  upper = λ x q j ox lx hx. same refl;
  walks = λ left x q w ox lx. refl;
  keeps = Keeps-same s owner;
  same_cr3 = refl;
  same_flushed = refl;
}

step-there :
    (s : Vmm) (owner : Owner) (t i : ℕ) (path : List ℕ) (flags : ℕ)
    → IsTree s owner
    → owner t ≡ some path
    → length path < 3
    → i < 512
    → is_present (s.memory (entry_at t i)) ≡ true
    → is_huge (s.memory (entry_at t i)) ≡ false
    → Step s owner t i path (get_or_create_table t i flags s)
unfolding get_or_create_table
step-there s owner t i path flags v o l h there table =
    let e = s.memory (entry_at t i) in
    rw (there, table)
      (elim (Bool-cases (not (bit_and flags 4 == 0))) [
        | inl user ↦
            let u = user_entry_lem e in
            rw user (
              inl (
                Entered-there s owner t i path (bit_or e 4) v o l h there table (u.0 ∙ there)
                  (u.1 ∙ table) u.2))
        | inr kernel ↦ rw kernel (inl (Entered-same s owner t i path v o l h there table))
      ])

-- `get_or_create_table` from a table above the lowest level and for one of its entries: it goes on
-- to a table of the next level, which it makes if there is none, and leaves the tree of tables and
-- every walk through them as they are; or it returns null and changes nothing, for a huge page in
-- the way or, where there is no entry, for want of a free page.
pub step_lem :
    (s : Vmm) (owner : Owner) (t i : ℕ) (path : List ℕ) (flags : ℕ)
    → IsTree s owner
    → owner t ≡ some path
    → length path < 3
    → i < 512
    → Step s owner t i path (get_or_create_table t i flags s)
step_lem s owner t i path flags v o l h = elim (Bool-cases (is_present (s.memory (entry_at t i)))) [
  | inr none_there ↦ step-absent s owner t i path flags v o l h none_there
  | inl there ↦ elim (Bool-cases (is_huge (s.memory (entry_at t i)))) [
    | inl big ↦ unfold get_or_create_table in rw (there, big) (inr (refl, huge there big))
    | inr table ↦ step-there s owner t i path flags v o l h there table
  ]
]
