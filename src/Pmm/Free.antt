-- ===== src/Pmm/Free.antt =====
-- `pmm_free_page` and `pmm_free_pages`: exactly the pages named, and only if the call is legal.
use operatingsystem.Common.{
  ℕ, zero, suc, ◌+◌, ◌-◌, ◌*◌, ◌/◌, ◌%◌, ◌≤◌, ◌<◌, ◌≡◌, refl, ap, ◌∙◌, arith,
}
use operatingsystem.Common.{
  ◌≢◌, Bool, false, not, ◌&&◌, ◌||◌, ◌==◌, if◌then◌else◌, leb, ltb, Bool-cases, sym, inl, inr,
}
use operatingsystem.Pmm.{Pmm, page_size, test_bit, give_page, release_page, release_pages}
use operatingsystem.Pmm.{free_page, free_pages_at, alloc_pages}
use operatingsystem.Pmm.Valid.{IsValid, count_free, count_free_ext, test_bit-release_page}
use operatingsystem.Pmm.Valid.{release_page-IsCounted}
use operatingsystem.Pmm.Alloc.{Granted}
use operatingsystem.Pmm.Runs.{alloc_pages_lem}

-- Exactly the pages that `freed` names are free in `t`, beside those that were free in `s`.
pub record Released (s : Pmm) (freed : ℕ → Bool) (t : Pmm) : Type 0 where
  pub after : (q : ℕ) → test_bit t.bitmap q ≡ (if freed q then false else test_bit s.bitmap q)
  pub same_total : t.total_pages ≡ s.total_pages
  pub valid : IsValid t

total_pages-release_page : (s : Pmm) (p : ℕ) → (release_page s p).total_pages ≡ s.total_pages
unfolding release_page give_page
total_pages-release_page s p = ground arith

release_page-Released :
    (s : Pmm) (p : ℕ)
    → IsValid s
    → p ≢ 0
    → p < s.total_pages
    → Released s (λ q. q == p) (release_page s p)
release_page-Released s p v nz h = record {
  after = test_bit-release_page s p;
  same_total = total_pages-release_page s p;
  valid = record {
    is_counted = release_page-IsCounted s p v.is_counted h;
    zero_taken = ground (arith, test_bit-release_page s p 0, v.zero_taken);
  };
}

release_pages-Released :
    (n first : ℕ) (s : Pmm)
    → IsValid s
    → first ≢ 0
    → first + n ≤ s.total_pages
    → Released s (λ q. leb first q && ltb q (first + n)) (release_pages n first s)
unfolding release_pages
release_pages-Released zero first s v nz h = record {
  after = λ q. ground arith;
  same_total = refl;
  valid = v;
}
release_pages-Released (suc n) first s v nz h =
    let one = release_page-Released s first v nz (omega arith) in
    let rest =
      release_pages-Released n (first + 1) (release_page s first) one.valid (omega arith)
        (omega (arith, one.same_total)) in
    record {
      after = λ q. ground (arith, rest.after q, one.after q);
      same_total = rest.same_total ∙ one.same_total;
      valid = rest.valid;
    }

-- Whether `pmm_free_page` frees page `q` when it is given `phys_addr`.
abbrev pub frees_page : Pmm → ℕ → ℕ → Bool
frees_page s phys_addr q = (phys_addr == q * page_size) && not (q == 0) && ltb q s.total_pages

-- Whether `pmm_free_pages` frees page `q` when it is given `phys_addr` and `count`.
abbrev pub frees_pages : Pmm → ℕ → ℕ → ℕ → Bool
frees_pages s phys_addr count q =
    let first = phys_addr / page_size in
    (phys_addr == first * page_size)
    && not (first == 0)
    && leb (first + count) s.total_pages
    && (leb first q && ltb q (first + count))

unchanged :
    (s : Pmm) (freed : ℕ → Bool) → IsValid s → ((q : ℕ) → freed q ≡ false) → Released s freed s
unchanged s freed v none = record {
  after = λ q. ground (arith, none q);
  same_total = refl;
  valid = v;
}

Released-ext :
    {s t : Pmm} {f : ℕ → Bool} (g : ℕ → Bool)
    → Released s f t
    → ((q : ℕ) → g q ≡ f q)
    → Released s g t
Released-ext g r e = record {
  after = λ q. ground (arith, r.after q, e q);
  same_total = r.same_total;
  valid = r.valid;
}

-- `pmm_free_page` keeps the allocator valid and frees the page at the address, if the address is
-- that of a page of the machine other than page 0; no other page changes, and any other address
-- frees nothing.
pub free_page_lem :
    (phys_addr : ℕ) (s : Pmm)
    → IsValid s
    → Released s (frees_page s phys_addr) (free_page phys_addr s)
unfolding free_page
free_page_lem phys_addr s v = elim (Bool-cases refused) [
  | inl no_page ↦ rw no_page (unchanged s _ v (λ q. ground arith))
  | inr legal ↦ rw legal (
      Released-ext _
        (release_page-Released s (phys_addr / page_size) v (ground arith) (ground arith))
        (λ q. ground arith))
]
  where
    refused : Bool
    refused =
        not (phys_addr % page_size == 0)
        || (phys_addr / page_size == 0)
        || leb s.total_pages (phys_addr / page_size)

-- `pmm_free_pages` keeps the allocator valid and frees exactly the `count` pages from the address
-- on, if the address is that of a page other than page 0 and all of them are pages of the
-- machine; no other page changes, and any other call frees nothing.
pub free_pages_at_lem :
    (phys_addr count : ℕ) (s : Pmm)
    → IsValid s
    → Released s (frees_pages s phys_addr count) (free_pages_at phys_addr count s)
unfolding free_pages_at
free_pages_at_lem phys_addr count s v = elim (Bool-cases refused) [
  | inl no_page ↦ rw no_page (unchanged s _ v (λ q. ground arith))
  | inr legal ↦ rw legal (elim (Bool-cases outside) [
    | inl out ↦ rw out (unchanged s _ v (λ q. ground arith))
    | inr inside ↦ rw inside (
        Released-ext _
          (release_pages-Released count (phys_addr / page_size) s v (ground arith) (ground arith))
          (λ q. ground arith))
  ])
]
  where
    refused : Bool
    refused = (count == 0) || not (phys_addr % page_size == 0) || (phys_addr == 0)

    outside : Bool
    outside =
        leb s.total_pages (phys_addr / page_size)
        || ltb (s.total_pages - phys_addr / page_size) count

-- Two valid allocators with the same taken pages count the same number of free ones.
free_pages_ext :
    (s t : Pmm)
    → IsValid s
    → IsValid t
    → t.total_pages ≡ s.total_pages
    → ((q : ℕ) → test_bit t.bitmap q ≡ test_bit s.bitmap q)
    → t.free_pages ≡ s.free_pages
free_pages_ext s t v w e h =
    w.is_counted.counted
    ∙ ap (count_free t.bitmap) e
    ∙ count_free_ext s.bitmap t.bitmap s.total_pages (λ q l. h q)
    ∙ sym v.is_counted.counted

pub alloc_pages-zero : (s : Pmm) → alloc_pages 0 s ≡ (0, s)
unfolding alloc_pages
alloc_pages-zero s = refl

free-Granted :
    (s : Pmm) (count first : ℕ) (r : ℕ × Pmm)
    → IsValid s
    → Granted s first count r
    → let t = free_pages_at r.0 count r.1 in
      ((q : ℕ) → test_bit t.bitmap q ≡ test_bit s.bitmap q) × (t.free_pages ≡ s.free_pages)
free-Granted s count first r v g =
    let back = free_pages_at_lem r.0 count r.1 g.valid in
    let same : (q : ℕ) → _ = λ q. ground (
      arith,
      back.after q,
      g.after q,
      g.was_free q,
      g.address,
      g.same_total,
      g.within,
      g.nonzero,
    ) in
    (same, free_pages_ext s _ v back.valid (back.same_total ∙ g.same_total) same)

-- Freeing what `pmm_alloc_pages` has just handed out, if it handed out anything, gives back every
-- bit of the bitmap and the count of free pages.
pub free_pages_at-alloc_pages :
    (s : Pmm) (count : ℕ)
    → IsValid s
    → (alloc_pages count s).0 ≢ 0
    → let t = free_pages_at (alloc_pages count s).0 count (alloc_pages count s).1 in
      ((q : ℕ) → test_bit t.bitmap q ≡ test_bit s.bitmap q) × (t.free_pages ≡ s.free_pages)
free_pages_at-alloc_pages s zero v nz = absurd (nz (ap (λ r. r.0) (alloc_pages-zero s)))
free_pages_at-alloc_pages s (suc n) v nz = elim (alloc_pages_lem s (suc n) v (omega arith)) [
  | inl (first, g, _) ↦ free-Granted s (suc n) first (alloc_pages (suc n) s) v g
  | inr (e, _) ↦ absurd (nz (ap (λ r. r.0) e))
]
