-- ===== src/Pmm/Steps.antt =====
-- The allocator over time: any sequence of its operations.
use operatingsystem.Common.{ℕ, zero, suc, ◌+◌, ◌*◌, ◌/◌, ◌^◌, ◌≤◌, ◌<◌, ◌≡◌, ◌≢◌, ap, ◌∙◌, arith}
use operatingsystem.Common.{true, false, inl, inr, ◌⊎◌}
use operatingsystem.Pmm.{Pmm, page_size, test_bit, mark_reserved, alloc_page, alloc_pages}
use operatingsystem.Pmm.{free_page, free_pages_at, init}
use operatingsystem.Pmm.Valid.{IsValid}
use operatingsystem.Pmm.Alloc.{Granted, alloc_page_lem}
use operatingsystem.Pmm.Runs.{alloc_pages_lem}
use operatingsystem.Pmm.Free.{
  frees_page, frees_pages, free_page_lem, free_pages_at_lem, alloc_pages-zero,
}
use operatingsystem.Pmm.Reserve.{mark_reserved_lem, init_lem}
use operatingsystem.Pmm.Frame.{
  IsFramed, IsFramed-refl, IsFramed-trans, init-outside, mark_reserved-IsFramed,
  alloc_page-IsFramed, alloc_pages-IsFramed, free_page-IsFramed, free_pages_at-IsFramed,
}

-- One call of the allocator that does not free page `p`.
pub data Step (p : ℕ) : Pmm → Pmm → Type 0 where
  reserve :
      (s : Pmm) (base_addr length_bytes : ℕ)
      → base_addr < 2 ^ 64
      → Step p s (mark_reserved base_addr length_bytes s)
  alloc : (s : Pmm) → Step p s (alloc_page s).1
  alloc_many : (s : Pmm) (count : ℕ) → Step p s (alloc_pages count s).1
  free :
      (s : Pmm) (phys_addr : ℕ)
      → frees_page s phys_addr p ≡ false
      → Step p s (free_page phys_addr s)
  free_many :
      (s : Pmm) (phys_addr count : ℕ)
      → frees_pages s phys_addr count p ≡ false
      → Step p s (free_pages_at phys_addr count s)

pub data Run (p : ℕ) (s : Pmm) : Pmm → Type 0 where
  here : Run p s s
  next : {t u : Pmm} → Run p s t → Step p t u → Run p s u

-- What every step keeps.
record Kept (p : ℕ) (s t : Pmm) : Type 0 where
  valid : IsValid t
  still : test_bit s.bitmap p ≡ true → test_bit t.bitmap p ≡ true
  framed : IsFramed s t

alloc_pages-cases :
    (s : Pmm) (count : ℕ)
    → IsValid s
    → ((first : ℕ) × Granted s first count (alloc_pages count s)) ⊎ (alloc_pages count s ≡ (0, s))
alloc_pages-cases s zero v = inr (alloc_pages-zero s)
alloc_pages-cases s (suc n) v = elim (alloc_pages_lem s (suc n) v (omega arith)) [
  | inl (first, g, _) ↦ inl (first, g)
  | inr (e, _) ↦ inr e
]

Step-Kept : {p : ℕ} {s t : Pmm} → IsValid s → Step p s t → Kept p s t
Step-Kept {p} v (reserve s base_addr length_bytes small) =
    let r = mark_reserved_lem base_addr length_bytes s v.is_counted small in
    record {
      valid = record {
        is_counted = r.counted;
        zero_taken = ground (arith, r.after 0, v.zero_taken);
      };
      still = λ h. ground (arith, r.after p);
      framed = mark_reserved-IsFramed base_addr length_bytes s;
    }
Step-Kept {p} v (alloc s) = record {
  valid = elim (alloc_page_lem s v) [ inl (page, g) ↦ g.valid | inr (e, _) ↦ rw e v ];
  still = elim (alloc_page_lem s v) [
    | inl (page, g) ↦ λ h. ground (arith, g.after p)
    | inr (e, _) ↦ λ h. rw e h
  ];
  framed = alloc_page-IsFramed s v.is_counted.some_pages;
}
Step-Kept {p} v (alloc_many s count) = record {
  valid = elim (alloc_pages-cases s count v) [ inl (first, g) ↦ g.valid | inr e ↦ rw e v ];
  still = elim (alloc_pages-cases s count v) [
    | inl (first, g) ↦ λ h. ground (arith, g.after p)
    | inr e ↦ λ h. rw e h
  ];
  framed = alloc_pages-IsFramed count s;
}
Step-Kept {p} v (free s phys_addr out) =
    let r = free_page_lem phys_addr s v in
    record {
      valid = r.valid;
      still = λ h. ground (arith, r.after p);
      framed = free_page-IsFramed phys_addr s;
    }
Step-Kept {p} v (free_many s phys_addr count out) =
    let r = free_pages_at_lem phys_addr count s v in
    record {
      valid = r.valid;
      still = λ h. ground (arith, r.after p);
      framed = free_pages_at-IsFramed phys_addr count s;
    }

Run-Kept : {p : ℕ} {s t : Pmm} → IsValid s → Run p s t → Kept p s t
Run-Kept v here = record { valid = v; still = λ h. h; framed = IsFramed-refl _ }
Run-Kept v (next r st) =
    let before = Run-Kept v r in
    let now = Step-Kept before.valid st in
    record {
      valid = now.valid;
      still = λ h. now.still (before.still h);
      framed = IsFramed-trans before.framed now.framed;
    }

-- Whatever sequence of its operations follows `pmm_init`, the allocator stays valid: its counter
-- is the number of clear bits and page 0 is never free. And of the memory from the bitmap's
-- address on, nothing past the bitmap's own `(page_count + 7) / 8` bytes is ever changed.
pub init-Run :
    (before : ℕ → ℕ) (bitmap_addr page_count p : ℕ) {t : Pmm}
    → 0 < page_count
    → page_count < 2 ^ 52
    → bitmap_addr < 2 ^ 64
    → Run p (init before bitmap_addr page_count) t
    → IsValid t
      × (t.total_pages ≡ page_count)
      × ((i : ℕ) → (page_count + 7) / 8 ≤ i → t.bitmap i ≡ before i)
init-Run before bitmap_addr page_count p pos small addr r =
    let start = init_lem before bitmap_addr page_count pos small addr in
    let kept = Run-Kept start.0 r in
    (
      kept.valid,
      kept.framed.same_total ∙ start.1,
      λ i h.
          kept.framed.outside i (omega (arith, start.1))
          ∙ init-outside before bitmap_addr page_count i small h,
    )

-- A page that is taken and that nobody frees is handed out by no later call: neither is it the
-- result of `pmm_alloc_page`, nor does it lie in a range that `pmm_alloc_pages` returns.
pub alloc-Run :
    {p : ℕ} {s t : Pmm}
    → IsValid s
    → p ≢ 0
    → test_bit s.bitmap p ≡ true
    → Run p s t
    → ((alloc_page t).0 ≢ p * page_size)
      × ((count : ℕ)
          → let a = (alloc_pages count t).0 in
            (a ≡ 0) ⊎ (p * page_size + page_size ≤ a) ⊎ (a + count * page_size ≤ p * page_size))
alloc-Run {p} {s} {t} v nz taken r =
    let kept = Run-Kept v r in
    let held : test_bit t.bitmap p ≡ true = kept.still taken in
    (
      elim (alloc_page_lem t kept.valid) [
        | inl (page, g) ↦ λ e. ground (arith, g.address, g.was_free p)
        | inr (e, _) ↦ rw e (λ z. omega arith)
      ],
      λ count. elim (alloc_pages-cases t count kept.valid) [
        | inl (first, g) ↦ inr (ground (arith, g.address, g.was_free p))
        | inr e ↦ inl (ap (λ r. r.0) e)
      ],
    )
