-- ===== src/Pmm/Frame.antt =====
-- No operation of the allocator writes a byte past its bitmap.
use operatingsystem.Common.{
  ℕ, zero, suc, ◌+◌, ◌-◌, ◌*◌, ◌/◌, ◌%◌, ◌^◌, ◌≤◌, ◌<◌, ◌≡◌, refl, ◌∙◌, arith,
}
use operatingsystem.Common.{Bool, not, ◌&&◌, ◌||◌, ◌==◌, if◌then◌else◌, leb, ltb}
use operatingsystem.Common.{Bool-cases, inl, inr, u64}
use native.Mathlib.Nat.{mod-lt}
use operatingsystem.Pmm.{Pmm, page_size, test_bit, set_bit, take_page, give_page, release_page}
use operatingsystem.Pmm.{reserve_pages, mark_reserved, alloc_from, alloc_page, set_bits, alloc_run}
use operatingsystem.Pmm.{alloc_pages, release_pages, free_page, free_pages_at}
use operatingsystem.Pmm.{init, bitmap_bytes}
use operatingsystem.Pmm.Reserve.{fresh, zero_bytes_lem}
use operatingsystem.Pmm.Bitmap.{set_bit-other, clear_bit-other}

-- The number of pages stays, and of the memory behind the bitmap's address all but the
-- `(total_pages + 7) / 8` bytes of the bitmap.
pub record IsFramed (s t : Pmm) : Type 0 where
  pub same_total : t.total_pages ≡ s.total_pages
  pub outside : (i : ℕ) → (s.total_pages + 7) / 8 ≤ i → t.bitmap i ≡ s.bitmap i

pub IsFramed-refl : (s : Pmm) → IsFramed s s
IsFramed-refl s = record { same_total = refl; outside = λ i h. refl }

pub IsFramed-trans : {s t u : Pmm} → IsFramed s t → IsFramed t u → IsFramed s u
IsFramed-trans a b = record {
  same_total = b.same_total ∙ a.same_total;
  outside = λ i h. ground (arith, a.outside i, b.outside i, a.same_total);
}

set_bits-other :
    (n first : ℕ) (m : ℕ → ℕ) (i : ℕ) → (first + n + 7) / 8 ≤ i → set_bits n first m i ≡ m i
unfolding set_bits
set_bits-other zero first m i h = refl
set_bits-other (suc n) first m i h =
    set_bits-other n (first + 1) (set_bit m first) i (omega arith)
    ∙ set_bit-other m first i (omega arith)

take_page-IsFramed : (s : Pmm) (p : ℕ) → p < s.total_pages → IsFramed s (take_page s p)
unfolding take_page
take_page-IsFramed s p h = record {
  same_total = refl;
  outside = λ i l. set_bit-other s.bitmap p i (omega arith);
}

release_page-IsFramed : (s : Pmm) (p : ℕ) → p < s.total_pages → IsFramed s (release_page s p)
unfolding release_page give_page
release_page-IsFramed s p h = record {
  same_total = ground arith;
  outside = λ i l. ground (arith, clear_bit-other s.bitmap p i);
}

reserve_pages-IsFramed :
    (rounds page end_page : ℕ) (s : Pmm) → IsFramed s (reserve_pages rounds page end_page s)
unfolding reserve_pages
reserve_pages-IsFramed zero page end_page s = IsFramed-refl s
reserve_pages-IsFramed (suc rounds) page end_page s =
    elim (Bool-cases (ltb page end_page && ltb page s.total_pages)) [
      | inr done ↦ rw (done, reserve_pages) (IsFramed-refl s)
      | inl more ↦
          rw (more, reserve_pages)
            (IsFramed-trans
              (elim (Bool-cases (test_bit s.bitmap page)) [
                | inl taken ↦ rw taken (IsFramed-refl s)
                | inr free ↦ rw free (take_page-IsFramed s page (ground arith))
              ])
              (reserve_pages-IsFramed rounds (u64 (page + 1)) end_page _))
    ]

alloc_from-IsFramed :
    (left i : ℕ) (s : Pmm) → 0 < s.total_pages → IsFramed s (alloc_from left i s).1
unfolding alloc_from
alloc_from-IsFramed zero i s pos = IsFramed-refl s
alloc_from-IsFramed (suc left) i s pos =
    let page = u64 (s.search_hint + i) % s.total_pages in
    let framed = take_page-IsFramed s page (mod-lt _ pos) in
    elim (Bool-cases (test_bit s.bitmap page)) [
      | inl taken ↦ rw (taken, alloc_from) (alloc_from-IsFramed left (i + 1) s pos)
      | inr free ↦
          rw (free, alloc_from)
            (record { same_total = framed.same_total; outside = framed.outside })
    ]

abbrev next_start : ℕ → ℕ → ℕ → ℕ
next_start page run_start run_length = if run_length == 0 then page else run_start

alloc_run-IsFramed :
    (left count page run_start run_length : ℕ) (s : Pmm)
    → page + left ≡ s.total_pages
    → next_start page run_start run_length + run_length ≡ page
    → IsFramed s (alloc_run left count page run_start run_length s).1
unfolding alloc_run
alloc_run-IsFramed zero count page run_start run_length s e i = IsFramed-refl s
alloc_run-IsFramed (suc left) count page run_start run_length s e i =
    let start = next_start page run_start run_length in
    elim (Bool-cases (test_bit s.bitmap page)) [
      | inl taken ↦
          rw (taken, alloc_run)
            (alloc_run-IsFramed left count (page + 1) run_start 0 s (omega arith) (ground arith))
      | inr free ↦
          rw (free, alloc_run)
            (elim (Bool-cases (run_length + 1 == count)) [
              | inl full ↦
                  rw (full, alloc_run)
                    (record {
                      same_total = refl;
                      outside = λ q l. set_bits-other count start s.bitmap q (ground arith);
                    })
              | inr short ↦
                  rw (short, alloc_run)
                    (alloc_run-IsFramed left count (page + 1) start (run_length + 1) s (omega arith)
                      (ground arith))
            ])
    ]

release_pages-IsFramed :
    (n first : ℕ) (s : Pmm) → first + n ≤ s.total_pages → IsFramed s (release_pages n first s)
unfolding release_pages
release_pages-IsFramed zero first s h = IsFramed-refl s
release_pages-IsFramed (suc n) first s h =
    let one = release_page-IsFramed s first (omega arith) in
    IsFramed-trans one
      (release_pages-IsFramed n (first + 1) (release_page s first) (omega (arith, one.same_total)))

pub mark_reserved-IsFramed :
    (base_addr length_bytes : ℕ) (s : Pmm) → IsFramed s (mark_reserved base_addr length_bytes s)
unfolding mark_reserved
mark_reserved-IsFramed base_addr length_bytes s =
    elim (Bool-cases (length_bytes == 0 || leb (u64 (s.total_pages * page_size)) base_addr)) [
      | inl e ↦ rw e (IsFramed-refl s)
      | inr e ↦ rw e (reserve_pages-IsFramed s.total_pages _ _ s)
    ]

pub alloc_page-IsFramed : (s : Pmm) → 0 < s.total_pages → IsFramed s (alloc_page s).1
unfolding alloc_page
alloc_page-IsFramed s pos = alloc_from-IsFramed s.total_pages 0 s pos

pub alloc_pages-IsFramed : (count : ℕ) (s : Pmm) → IsFramed s (alloc_pages count s).1
unfolding alloc_pages
alloc_pages-IsFramed count s = elim (Bool-cases (count == 0 || ltb s.total_pages count)) [
  | inl e ↦ rw e (IsFramed-refl s)
  | inr e ↦ rw e (alloc_run-IsFramed s.total_pages count 0 0 0 s (omega arith) (omega arith))
]

pub free_page-IsFramed : (phys_addr : ℕ) (s : Pmm) → IsFramed s (free_page phys_addr s)
unfolding free_page
free_page-IsFramed phys_addr s = elim (Bool-cases refused) [
  | inl e ↦ rw e (IsFramed-refl s)
  | inr e ↦ rw e (release_page-IsFramed s (phys_addr / page_size) (ground arith))
]
  where
    refused : Bool
    refused =
        not (phys_addr % page_size == 0)
        || (phys_addr / page_size == 0)
        || leb s.total_pages (phys_addr / page_size)

pub free_pages_at-IsFramed :
    (phys_addr count : ℕ) (s : Pmm) → IsFramed s (free_pages_at phys_addr count s)
unfolding free_pages_at
free_pages_at-IsFramed phys_addr count s = elim (Bool-cases refused) [
  | inl e ↦ rw e (IsFramed-refl s)
  | inr e ↦ rw e (elim (Bool-cases outside) [
    | inl o ↦ rw o (IsFramed-refl s)
    | inr o ↦ rw o (release_pages-IsFramed count (phys_addr / page_size) s (ground arith))
  ])
]
  where
    refused : Bool
    refused = (count == 0) || not (phys_addr % page_size == 0) || (phys_addr == 0)

    outside : Bool
    outside =
        leb s.total_pages (phys_addr / page_size)
        || ltb (s.total_pages - phys_addr / page_size) count

-- `pmm_init` writes nothing past the bitmap either.
pub init-outside :
    (before : ℕ → ℕ) (bitmap_addr page_count i : ℕ)
    → page_count < 2 ^ 52
    → (page_count + 7) / 8 ≤ i
    → (init before bitmap_addr page_count).bitmap i ≡ before i
unfolding init bitmap_bytes
init-outside before bitmap_addr page_count i small h =
    let first =
      mark_reserved-IsFramed bitmap_addr (bitmap_bytes page_count) (fresh before page_count) in
    let second =
      mark_reserved-IsFramed 0 page_size
        (mark_reserved bitmap_addr (bitmap_bytes page_count) (fresh before page_count)) in
    second.outside i (omega (arith, first.same_total))
    ∙ first.outside i h
    ∙ zero_bytes_lem (bitmap_bytes page_count) before i
    ∙ ground (arith)
