-- ===== src/Pmm/Alloc.antt =====
-- `pmm_alloc_page` and `pmm_alloc_pages`: what a caller is given, and when it is given nothing.
use operatingsystem.Common.{ℕ, zero, suc, ◌+◌, ◌-◌, ◌*◌, ◌%◌, ◌≤◌, ◌<◌, ◌≡◌, refl, ◌∙◌, arith}
use operatingsystem.Common.{◌⊎◌, inl, inr}
use operatingsystem.Common.{true, false, ◌&&◌, if◌then◌else◌, leb, ltb, u64, Bool-cases}
use native.Mathlib.Nat.{mod-eq_of_lt, mod-eq-sub-mod, mod-lt}
use native.Mathlib.Decide.{dec_lt, ℕ_discrete}
use operatingsystem.Pmm.{Pmm, page_size, test_bit, take_page}
use operatingsystem.Pmm.{alloc_from, alloc_page}
use operatingsystem.Pmm.Bitmap.{test_bit-set_bit}
use operatingsystem.Pmm.Valid.{IsCounted, IsValid}
use operatingsystem.Pmm.Valid.{take_page-IsCounted}

-- `r` hands out the `n` pages from `first` on, which were free, and takes no other.
pub record Granted (s : Pmm) (first n : ℕ) (r : ℕ × Pmm) : Type 0 where
  pub nonzero : 0 < first
  pub within : first + n ≤ s.total_pages
  pub address : r.0 ≡ first * page_size
  pub was_free : (q : ℕ) → first ≤ q → q < first + n → test_bit s.bitmap q ≡ false
  pub after :
      (q : ℕ)
      → test_bit r.1.bitmap q
        ≡ (if leb first q && ltb q (first + n) then true else test_bit s.bitmap q)
  pub fewer : r.1.free_pages + n ≡ s.free_pages
  pub same_total : r.1.total_pages ≡ s.total_pages
  pub valid : IsValid r.1

-- The page that round `i` of the search looks at.
abbrev page_of : Pmm → ℕ → ℕ
page_of s i = u64 (s.search_hint + i) % s.total_pages

page_of-lt : (s : Pmm) (i : ℕ) → IsCounted s → page_of s i < s.total_pages
page_of-lt s i v = mod-lt _ v.some_pages

take_page-Granted :
    (s : Pmm) (page : ℕ)
    → IsValid s
    → page < s.total_pages
    → test_bit s.bitmap page ≡ false
    → Granted s page 1
        (u64 (page * page_size), record (take_page s page) { search_hint = u64 (page + 1) })
unfolding take_page
take_page-Granted s page v h e =
    let counted = take_page-IsCounted s page v.is_counted h e in
    record {
      nonzero = ground (arith, v.zero_taken);
      within = omega arith;
      address = ground (arith, v.is_counted.small);
      was_free = λ q p l. ground arith;
      after = λ q. ground (arith, test_bit-set_bit s.bitmap page q);
      fewer = counted.1;
      same_total = refl;
      valid = record {
        is_counted = ground (arith, counted.0);
        zero_taken = ground (arith, test_bit-set_bit s.bitmap page 0, v.zero_taken);
      };
    }

-- One round of the search.
alloc_from-suc :
    (left i : ℕ) (s : Pmm)
    → alloc_from (suc left) i s ≡ (
        if test_bit s.bitmap (page_of s i) then alloc_from left (i + 1) s else (
          u64 (page_of s i * page_size),
          record (take_page s (page_of s i)) { search_hint = u64 (page_of s i + 1) },
        ))
unfolding alloc_from
alloc_from-suc left i s = ground arith

-- What the search from round `i` on comes to: a grant, or nothing changes and every page that
-- it looks at is taken.
abbrev Searched : ℕ → ℕ → Pmm → ℕ × Pmm → Type 0
Searched left i s r =
    ((page : ℕ) × Granted s page 1 r)
    ⊎ ((r ≡ (0, s)) × ((j : ℕ) → i ≤ j → j < i + left → test_bit s.bitmap (page_of s j) ≡ true))

Searched-suc :
    (left i : ℕ) (s : Pmm) (r : ℕ × Pmm)
    → test_bit s.bitmap (page_of s i) ≡ true
    → Searched left (i + 1) s r
    → Searched (suc left) i s r
Searched-suc left i s r taken (inl granted) = inl granted
Searched-suc left i s r taken (inr (none_left, rest)) = inr (
  none_left,
  λ j p q. elim (ℕ_discrete i j) [
    | yes e ↦ rw (← e) taken
    | no ne ↦ rest j (omega arith) (omega arith)
  ],
)

alloc_from-Searched : (left i : ℕ) (s : Pmm) → IsValid s → Searched left i s (alloc_from left i s)
alloc_from-Searched zero i s v = inr (unfold alloc_from in refl, λ j p q. absurd (omega arith))
alloc_from-Searched (suc left) i s v = elim (Bool-cases (test_bit s.bitmap (page_of s i))) [
  | inl taken ↦
      rw (alloc_from-suc left i s, taken)
        (Searched-suc left i s _ taken (alloc_from-Searched left (i + 1) s v))
  | inr free ↦
      rw (alloc_from-suc left i s, free)
        (inl (page_of s i, take_page-Granted s (page_of s i) v (page_of-lt s i v.is_counted) free))
]

add-sub : (a b : ℕ) → a + b - b ≡ a
add-sub a b = omega arith

-- The search comes by every page.
page_of-onto :
    (s : Pmm) (p : ℕ)
    → IsCounted s
    → p < s.total_pages
    → (j : ℕ) × (j < s.total_pages) × (page_of s j ≡ p)
page_of-onto s p v h = elim (dec_lt p s.search_hint) [
  | yes l ↦ (p + s.total_pages - s.search_hint, omega arith, rw (wraps l) (back l))
  | no l ↦ (p - s.search_hint, omega arith, rw (stays l) (mod-eq_of_lt h))
]
  where
    wraps :
        p < s.search_hint
        → u64 (s.search_hint + (p + s.total_pages - s.search_hint)) ≡ p + s.total_pages
    wraps l = omega (arith, v.small)

    back : p < s.search_hint → (p + s.total_pages) % s.total_pages ≡ p
    back l =
        mod-eq-sub-mod {n = p + s.total_pages} {m = s.total_pages} (omega arith)
        ∙ rw (add-sub p s.total_pages) (mod-eq_of_lt h)

    stays : ¬ (p < s.search_hint) → u64 (s.search_hint + (p - s.search_hint)) ≡ p
    stays l = omega (arith, v.small)

-- `pmm_alloc_page` on a valid allocator either hands out one free page other than page 0, taking
-- that page alone and leaving a valid allocator with one free page less; or it returns 0 and
-- changes nothing, and then every page of the machine is taken.
pub alloc_page_lem :
    (s : Pmm)
    → IsValid s
    → ((page : ℕ) × Granted s page 1 (alloc_page s))
      ⊎ ((alloc_page s ≡ (0, s)) × ((p : ℕ) → p < s.total_pages → test_bit s.bitmap p ≡ true))
unfolding alloc_page
alloc_page_lem s v = elim (alloc_from-Searched s.total_pages 0 s v) [
  | inl granted ↦ inl granted
  | inr (none_left, all) ↦ inr (
    none_left,
    λ p h.
        let (j, l, e) = page_of-onto s p v.is_counted h in
        rw (← e) (all j (omega arith) (omega arith)),
  )
]
