-- ===== src/Kernel/Boot/Space.antt =====
-- The page tables that boot.S leaves to the kernel: a root, one table below it and one below that,
-- whose entries are pages of 2 MiB.
use operatingsystem.Common.{ℕ, ◌/◌, ◌%◌, ◌≤◌, ◌<◌, ◌≡◌, ◌≢◌, refl, sym, ap, ◌∙◌, arith}
use operatingsystem.Common.{◌⊎◌, inl, inr, none, some, List, [], ◌∷◌, ℕ_discrete}
use operatingsystem.Common.{true, false, ◌==◌, ==-eq-false, ==_refl, if◌then◌else◌}
use operatingsystem.Pmm.{Pmm}
use operatingsystem.Vmm.{is_present, is_huge, address_of, entry_at}
use operatingsystem.Vmm.Walk.{absent, index, walk, walk-suc}
use operatingsystem.Vmm.Tree.{Owner, IsTree, Leads, Leads-ext, walk-Leads, index-lt}
use operatingsystem.Kernel.Boot.Pages.{TakenBelow}

-- The address of a table in the kernel's image.
abbrev pub InImage : ℕ → Type 0
InImage t = (0x100000 ≤ t) × (t < 0x300000) × (t % 4096 ≡ 0)

pub record BootTables (memory : ℕ → ℕ) (pml4 pdpt pd : ℕ) : Type 0 where
  pub at_pml4 : InImage pml4
  pub at_pdpt : InImage pdpt
  pub at_pd : InImage pd
  pub distinct : (pml4 ≢ pdpt) × (pml4 ≢ pd) × (pdpt ≢ pd)
  pub pml4_first : Leads memory pml4 0 pdpt
  pub pml4_rest : (i : ℕ) → 0 < i → i < 512 → is_present (memory (entry_at pml4 i)) ≡ false
  pub pdpt_first : Leads memory pdpt 0 pd
  pub pdpt_rest : (i : ℕ) → 0 < i → i < 512 → is_present (memory (entry_at pdpt i)) ≡ false
  pub pd_huge : (i : ℕ) → i < 512 → is_huge (memory (entry_at pd i)) ≡ true

abbrev pub boot_owner : ℕ → ℕ → ℕ → Owner
boot_owner pml4 pdpt pd x =
    if x == pml4
    then some []
    else if x == pdpt
    then some (0 ∷ [])
    else if x == pd
    then some (0 ∷ 0 ∷ [])
    else none

-- Memory that is the same from 1 MiB on.
pub BootTables-ext :
    {memory memory' : ℕ → ℕ} {pml4 pdpt pd : ℕ}
    → BootTables memory pml4 pdpt pd
    → ((a : ℕ) → 0x100000 ≤ a → memory' a ≡ memory a)
    → BootTables memory' pml4 pdpt pd
BootTables-ext {memory} {memory'} {pml4} {pdpt} {pd} b same = record {
  at_pml4 = b.at_pml4;
  at_pdpt = b.at_pdpt;
  at_pd = b.at_pd;
  distinct = b.distinct;
  pml4_first = Leads-ext (same (entry_at pml4 0) (omega (arith, b.at_pml4))) b.pml4_first;
  pml4_rest = λ i p h. rw (same (entry_at pml4 i) (omega (arith, b.at_pml4))) (b.pml4_rest i p h);
  pdpt_first = Leads-ext (same (entry_at pdpt 0) (omega (arith, b.at_pdpt))) b.pdpt_first;
  pdpt_rest = λ i p h. rw (same (entry_at pdpt i) (omega (arith, b.at_pdpt))) (b.pdpt_rest i p h);
  pd_huge = λ i h. rw (same (entry_at pd i) (omega (arith, b.at_pd))) (b.pd_huge i h);
}

module _ {memory : ℕ → ℕ} {pml4 pdpt pd : ℕ} (b : BootTables memory pml4 pdpt pd) where
  pub owner-pml4 : boot_owner pml4 pdpt pd pml4 ≡ some []
  owner-pml4 = rw (==_refl pml4) refl

  owner-pdpt : boot_owner pml4 pdpt pd pdpt ≡ some (0 ∷ [])
  owner-pdpt = rw (==-eq-false (λ e. b.distinct.0 (sym e)), ==_refl pdpt) refl

  owner-pd : boot_owner pml4 pdpt pd pd ≡ some (0 ∷ 0 ∷ [])
  owner-pd =
      rw
        (
          ==-eq-false (λ e. b.distinct.1 (sym e)),
          ==-eq-false (λ e. b.distinct.2 (sym e)),
          ==_refl pd,
        )
        refl

  -- The three tables and no other.
  owner-cases :
      (x : ℕ) (q : List ℕ)
      → boot_owner pml4 pdpt pd x ≡ some q
      → ((x ≡ pml4) × (◌≡◌ {A = List ℕ} [] q))
        ⊎ ((x ≡ pdpt) × (0 ∷ [] ≡ q))
        ⊎ ((x ≡ pd) × (0 ∷ 0 ∷ [] ≡ q))
  owner-cases x q o = elim (ℕ_discrete x pml4) [
    | yes e ↦ inl (e, cc (owner-pml4, ap (boot_owner pml4 pdpt pd) e))
    | no ne ↦ elim (ℕ_discrete x pdpt) [
      | yes e ↦ inr (inl (e, cc (owner-pdpt, ap (boot_owner pml4 pdpt pd) e)))
      | no ne' ↦ elim (ℕ_discrete x pd) [
        | yes e ↦ inr (inr (e, cc (owner-pd, ap (boot_owner pml4 pdpt pd) e)))
        | no ne'' ↦
            let nothing : boot_owner pml4 pdpt pd x ≡ none =
              rw (==-eq-false ne, ==-eq-false ne', ==-eq-false ne'') refl in
            cc
      ]
    ]
  ]

  owner-InImage : (x : ℕ) (q : List ℕ) → boot_owner pml4 pdpt pd x ≡ some q → InImage x
  owner-InImage x q o = elim (owner-cases x q o) [
    | inl (e, p) ↦ rw e b.at_pml4
    | inr (inl (e, p)) ↦ rw e b.at_pdpt
    | inr (inr (e, p)) ↦ rw e b.at_pd
  ]

  pub owner-low : (x : ℕ) → x < 0x100000 → boot_owner pml4 pdpt pd x ≡ none
  owner-low x h =
      rw
        (
          ==-eq-false (apart pml4 b.at_pml4),
          ==-eq-false (apart pdpt b.at_pdpt),
          ==-eq-false (apart pd b.at_pd),
        )
        refl
    where
      apart : (t : ℕ) → InImage t → x ≢ t
      apart t at = λ e. omega arith

  -- The first entry of a table is the only one that leads on.
  first_entry :
      (x t' i : ℕ) (q : List ℕ)
      → Leads memory x 0 t'
      → ((j : ℕ) → 0 < j → j < 512 → is_present (memory (entry_at x j)) ≡ false)
      → boot_owner pml4 pdpt pd t' ≡ some (0 ∷ q)
      → i < 512
      → is_present (memory (entry_at x i)) ≡ true
      → boot_owner pml4 pdpt pd (address_of (memory (entry_at x i))) ≡ some (i ∷ q)
  first_entry x t' i q first rest o h p = elim (ℕ_discrete i 0) [
    | yes z ↦ rw z (ap (boot_owner pml4 pdpt pd) first.address ∙ o)
    | no ne ↦ cc (p, rest i (omega arith) h)
  ]

  pub boot-IsTree :
      (n : ℕ) (pmm : Pmm) (cr3 : ℕ) (flushed : List ℕ)
      → TakenBelow n pmm
      → IsTree
          (record { pmm = pmm; memory = memory; cr3 = cr3; flushed = flushed })
          (boot_owner pml4 pdpt pd)
  boot-IsTree n pmm cr3 flushed t = record {
    valid = t.valid;
    small = omega (arith, t.total);
    aligned = λ x q o. omega (arith, owner-InImage x q o);
    taken = λ x q o.
        t.bits (x / 4096) (omega (arith, owner-InImage x q o))
        ∙ ground (arith, owner-InImage x q o);
    child = λ x q i o l h p nh. elim (owner-cases x q o) [
      | inl (e, eq) ↦
          rw (e, ← eq)
            (first_entry pml4 pdpt i [] b.pml4_first b.pml4_rest owner-pdpt h
              (ap (λ y. is_present (memory (entry_at y i))) (sym e) ∙ p))
      | inr (inl (e, eq)) ↦
          rw (e, ← eq)
            (first_entry pdpt pd i (0 ∷ []) b.pdpt_first b.pdpt_rest owner-pd h
              (ap (λ y. is_present (memory (entry_at y i))) (sym e) ∙ p))
      | inr (inr (e, eq)) ↦ cc (nh, b.pd_huge i h, ap (λ y. is_huge (memory (entry_at y i))) e)
    ];
  }

  -- Behind the first GiB of the first 512 nothing is mapped.
  pub walk-absent : (v : ℕ) → index 4 v ≡ 0 → 0 < index 3 v → walk 3 pml4 v memory ≡ absent
  walk-absent v z pos =
      walk-Leads 2 pml4 pdpt v (rw z b.pml4_first)
      ∙ walk-suc 1 pdpt v memory
      ∙ rw (b.pdpt_rest (index 3 v) pos (index-lt 3 v)) refl
