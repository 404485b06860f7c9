-- ===== src/Vmm/Example.antt =====
-- A machine of 24 pages with an empty address space at 0x1000, over a memory of zeros.
use operatingsystem.Common.{ℕ, ◌≡◌, refl, sym, ap, subst, ◌∙◌, arith}
use operatingsystem.Common.{inl, inr, none, some, List, [], write, write_lem, ==-eq-false}
use operatingsystem.Common.{true, ℕ_discrete}
use operatingsystem.Pmm.{Pmm, init, alloc_page, test_bit, take_page, set_bit}
use operatingsystem.Pmm.Valid.{IsValid}
use operatingsystem.Pmm.Alloc.{alloc_page_lem}
use operatingsystem.Pmm.Reserve.{init_lem}
use operatingsystem.Vmm.{Vmm}
use operatingsystem.Vmm.Tree.{Owner, IsTree}

abbrev pub machine : Pmm
machine = init (λ i. 0xff) 0x2000 24

abbrev pub one_taken : Pmm
one_taken = (alloc_page machine).1

one_taken-IsValid : IsValid one_taken
one_taken-IsValid =
    let v = (init_lem (λ i. 0xff) 0x2000 24 (omega arith) (omega arith) (omega arith)).0 in
    elim (alloc_page_lem machine v) [
      | inl (page, g) ↦ g.valid
      | inr (failed, all) ↦ subst (λ (r : ℕ × Pmm). IsValid r.1) (sym failed) v
    ]

abbrev pub start : Vmm
start = record { pmm = one_taken; memory = λ a. 0; cr3 = 0x1000; flushed = [] }

abbrev pub one_root : Owner
one_root = write (λ x. none) 0x1000 (some [])

pub one_root-here : one_root 0x1000 ≡ some []
one_root-here = write_lem (λ x. none) 0x1000 (some []) 0x1000

one_root-only : (x : ℕ) (q : List ℕ) → one_root x ≡ some q → x ≡ 0x1000
one_root-only x q o = elim (ℕ_discrete x 0x1000) [
  | yes e ↦ e
  | no ne ↦
      let nothing : one_root x ≡ none =
        write_lem (λ x. none) 0x1000 (some []) x ∙ rw (==-eq-false ne) refl in
      cc
]

taken_counts : (one_taken.total_pages ≡ 24) × (test_bit one_taken.bitmap 1 ≡ true)
unfolding init alloc_page take_page test_bit set_bit write
taken_counts = (refl, refl)

pub start-IsTree : IsTree start one_root
start-IsTree = record {
  valid = one_taken-IsValid;
  small = omega (arith, taken_counts.0);
  aligned = λ x q o. omega (arith, one_root-only x q o);
  taken =
      λ x q o. ap (test_bit one_taken.bitmap) (omega (arith, one_root-only x q o)) ∙ taken_counts.1;
  child = λ x q j o l h p n. cc;
}
