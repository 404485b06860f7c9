-- ===== src/Pmm/Reserve.antt =====
-- `pmm_mark_reserved` and `pmm_init`: which pages are taken afterwards.
use operatingsystem.Common.{ℕ, zero, suc, ◌+◌, ◌*◌, ◌/◌, ◌^◌, ◌≤◌, ◌<◌, ◌≡◌, refl, ◌∙◌, arith}
use operatingsystem.Common.{Bool, true, false, not, ◌&&◌, ◌||◌, ◌==◌, if◌then◌else◌, leb, ltb}
use operatingsystem.Common.{Bool-cases, sym, inl, inr, u64, write_lem}
use operatingsystem.Pmm.{Pmm, page_size, test_bit, take_page, reserve_pages}
use operatingsystem.Pmm.{mark_reserved, zero_bytes, bitmap_bytes, init}
use operatingsystem.Pmm.Bitmap.{test_bit-set_bit, test_bit_of_zero}
use operatingsystem.Pmm.Valid.{IsCounted, IsValid, count_free_of_clear, take_page-IsCounted}

-- Exactly the pages that `wanted` names are taken in `t`, beside those that were taken in `s`.
pub record Reserved (s : Pmm) (wanted : ℕ → Bool) (t : Pmm) : Type 0 where
  pub after : (q : ℕ) → test_bit t.bitmap q ≡ (if wanted q then true else test_bit s.bitmap q)
  pub same_total : t.total_pages ≡ s.total_pages
  pub counted : IsCounted t

-- `if (!test_bit(page)) { set_bit(page); free_pages--; }`
abbrev reserve_page : Pmm → ℕ → Pmm
reserve_page s page = if not (test_bit s.bitmap page) then take_page s page else s

reserve_page-Reserved :
    (s : Pmm) (p : ℕ)
    → IsCounted s
    → p < s.total_pages
    → Reserved s (λ q. q == p) (reserve_page s p)
unfolding take_page
reserve_page-Reserved s p v h = elim (Bool-cases (test_bit s.bitmap p)) [
  | inl taken ↦ rw taken (record { after = λ q. ground arith; same_total = refl; counted = v })
  | inr free ↦ rw free (record {
    after = λ q. ground (arith, test_bit-set_bit s.bitmap p q);
    same_total = refl;
    counted = (take_page-IsCounted s p v h free).0;
  })
]

Reserved-ext :
    {s t : Pmm} {f : ℕ → Bool} (g : ℕ → Bool)
    → Reserved s f t
    → ((q : ℕ) → g q ≡ f q)
    → Reserved s g t
Reserved-ext g r e = record {
  after = λ q. ground (arith, r.after q, e q);
  same_total = r.same_total;
  counted = r.counted;
}

reserve_pages-suc :
    (rounds page end_page : ℕ) (s : Pmm)
    → reserve_pages (suc rounds) page end_page s ≡ (
        if ltb page end_page && ltb page s.total_pages
        then reserve_pages rounds (u64 (page + 1)) end_page (reserve_page s page)
        else s)
unfolding reserve_pages
reserve_pages-suc rounds page end_page s = ground arith

-- Rounds for every page from `page` on are enough.
reserve_pages-Reserved :
    (rounds page end_page : ℕ) (s : Pmm)
    → IsCounted s
    → s.total_pages ≤ page + rounds
    → Reserved s
        (λ q. leb page q && ltb q end_page && ltb q s.total_pages)
        (reserve_pages rounds page end_page s)
reserve_pages-Reserved zero page end_page s v h = record {
  after = λ q. unfold reserve_pages in ground arith;
  same_total = unfold reserve_pages in refl;
  counted = unfold reserve_pages in v;
}
reserve_pages-Reserved (suc rounds) page end_page s v h =
    rw (reserve_pages-suc rounds page end_page s)
      (elim (Bool-cases (ltb page end_page && ltb page s.total_pages)) [
        | inr done ↦ rw done (record { after = λ q. ground arith; same_total = refl; counted = v })
        | inl more ↦
            let here : page < s.total_pages = ground arith in
            let wraps : u64 (page + 1) ≡ page + 1 = omega (arith, v.small) in
            let one = reserve_page-Reserved s page v here in
            let rest =
              reserve_pages-Reserved rounds (page + 1) end_page (reserve_page s page) one.counted
                (omega (arith, one.same_total)) in
            rw (more, wraps)
              (record {
                after = λ q. ground (arith, rest.after q, one.after q, one.same_total);
                same_total = rest.same_total ∙ one.same_total;
                counted = rest.counted;
              })
      ])

-- Page `q` of the machine has a byte of the `length_bytes` bytes from `base_addr` on.
abbrev pub overlaps : Pmm → ℕ → ℕ → ℕ → Bool
overlaps s base_addr length_bytes q =
    ltb q s.total_pages
    && not (length_bytes == 0)
    && ltb (q * page_size) (base_addr + length_bytes)
    && ltb base_addr ((q + 1) * page_size)

-- `pmm_mark_reserved` takes exactly the pages of the machine that hold a byte of the range, also
-- where the range runs past the end of the address space; no other bit of the bitmap changes, and
-- the count of free pages stays right.
pub mark_reserved_lem :
    (base_addr length_bytes : ℕ) (s : Pmm)
    → IsCounted s
    → base_addr < 2 ^ 64
    → Reserved s (overlaps s base_addr length_bytes) (mark_reserved base_addr length_bytes s)
unfolding mark_reserved
mark_reserved_lem base_addr length_bytes s v small = elim (Bool-cases nothing) [
  | inl e ↦ rw e (record { after = λ q. ground (arith, v.small); same_total = refl; counted = v })
  | inr e ↦ rw e (
      Reserved-ext (overlaps s base_addr length_bytes)
        (reserve_pages-Reserved s.total_pages (base_addr / page_size) _ s v (omega arith))
        (λ q. ground (arith, v.small)))
]
  where
    nothing : Bool
    nothing = length_bytes == 0 || leb (u64 (s.total_pages * page_size)) base_addr

pub zero_bytes_lem : (n : ℕ) (m : ℕ → ℕ) (i : ℕ) → zero_bytes n m i ≡ (if ltb i n then 0 else m i)
unfolding zero_bytes
zero_bytes_lem zero m i = ground arith
zero_bytes_lem (suc n) m i = ground (arith, write_lem (zero_bytes n m) n 0 i, zero_bytes_lem n m i)

abbrev pub fresh : (ℕ → ℕ) → ℕ → Pmm
fresh before page_count = record {
  bitmap = zero_bytes (bitmap_bytes page_count) before;
  total_pages = page_count;
  free_pages = page_count;
  search_hint = 0;
}

fresh-clear :
    (before : ℕ → ℕ) (page_count q : ℕ)
    → page_count < 2 ^ 52
    → q < page_count
    → test_bit (fresh before page_count).bitmap q ≡ false
unfolding bitmap_bytes
fresh-clear before page_count q small h =
    test_bit_of_zero _ q (ground (arith, zero_bytes_lem (u64 (page_count + 7) / 8) before (q / 8)))

fresh-IsCounted :
    (before : ℕ → ℕ) (page_count : ℕ)
    → 0 < page_count
    → page_count < 2 ^ 52
    → IsCounted (fresh before page_count)
fresh-IsCounted before page_count pos small = record {
  some_pages = pos;
  small = small;
  counted = sym (count_free_of_clear _ page_count (λ q. fresh-clear before page_count q small));
  hint = omega arith;
}

-- `pmm_init`, whatever the memory held before, leaves a valid allocator of `page_count` pages in
-- which a page is taken exactly if it is page 0 or holds a byte of the bitmap itself.
pub init_lem :
    (before : ℕ → ℕ) (bitmap_addr page_count : ℕ)
    → 0 < page_count
    → page_count < 2 ^ 52
    → bitmap_addr < 2 ^ 64
    → let s = init before bitmap_addr page_count in
      IsValid s
      × (s.total_pages ≡ page_count)
      × ((q : ℕ)
          → q < page_count
          → test_bit s.bitmap q ≡ ((q == 0) || overlaps s bitmap_addr ((page_count + 7) / 8) q))
unfolding init bitmap_bytes
init_lem before bitmap_addr page_count pos small addr =
    let v = fresh-IsCounted before page_count pos small in
    let first =
      mark_reserved_lem bitmap_addr (bitmap_bytes page_count) (fresh before page_count) v addr in
    let second =
      mark_reserved_lem 0 page_size
        (mark_reserved bitmap_addr (bitmap_bytes page_count) (fresh before page_count))
        first.counted (omega arith) in
    (
      record {
        is_counted = second.counted;
        zero_taken = ground (arith, second.after 0, first.same_total);
      },
      second.same_total ∙ first.same_total,
      λ q h. ground (
        arith,
        second.after q,
        first.after q,
        first.same_total,
        second.same_total,
        fresh-clear before page_count q small h,
      ),
    )
