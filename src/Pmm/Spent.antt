-- ===== src/Pmm/Spent.antt =====
-- How many pages a computation takes at most: a bound that adds up over its steps.
use operatingsystem.Common.{ℕ, ◌+◌, ◌≤◌, ◌<◌, ◌≡◌, ◌≢◌, refl, ◌∙◌, arith}
use operatingsystem.Common.{inl, inr, true}
use operatingsystem.Pmm.{Pmm, test_bit, alloc_page}
use operatingsystem.Pmm.Valid.{IsValid, count_free_of_taken}
use operatingsystem.Pmm.Alloc.{Granted, alloc_page_lem}

-- From `s` to `s'` at most `n` pages have been taken, and none given back.
pub record Spent (n : ℕ) (s s' : Pmm) : Type 0 where
  pub valid : IsValid s'
  pub same_total : s'.total_pages ≡ s.total_pages
  pub left : s.free_pages ≤ s'.free_pages + n
  pub taken : (q : ℕ) → test_bit s.bitmap q ≡ true → test_bit s'.bitmap q ≡ true

pub Spent-none : (n : ℕ) {s : Pmm} → IsValid s → Spent n s s
Spent-none n v = record { valid = v; same_total = refl; left = omega arith; taken = λ q h. h }

pub Spent-trans : {m n : ℕ} {s s' s'' : Pmm} → Spent m s s' → Spent n s' s'' → Spent (m + n) s s''
Spent-trans a b = record {
  valid = b.valid;
  same_total = b.same_total ∙ a.same_total;
  left = omega (arith, a.left, b.left);
  taken = λ q h. b.taken q (a.taken q h);
}

pub Spent-le : {m n : ℕ} {s s' : Pmm} → m ≤ n → Spent m s s' → Spent n s s'
Spent-le h a = record {
  valid = a.valid;
  same_total = a.same_total;
  left = omega (arith, a.left);
  taken = a.taken;
}

pub Granted-Spent : {s : Pmm} {first n : ℕ} (r : ℕ × Pmm) → Granted s first n r → Spent n s r.1
Granted-Spent r g = record {
  valid = g.valid;
  same_total = g.same_total;
  left = omega (arith, g.fewer);
  taken = λ q h. g.after q ∙ ground arith;
}

pub alloc_page-Spent : {s : Pmm} → IsValid s → Spent 1 s (alloc_page s).1
alloc_page-Spent {s} v = elim (alloc_page_lem s v) [
  | inl (page, g) ↦ Granted-Spent (alloc_page s) g
  | inr (failed, all) ↦ rw failed (Spent-none 1 v)
]

-- While the counter is not 0, a page is found.
pub all_taken :
    {s : Pmm}
    → IsValid s
    → 0 < s.free_pages
    → ¬ ((q : ℕ) → q < s.total_pages → test_bit s.bitmap q ≡ true)
all_taken {s} v h all = omega (arith, v.is_counted, count_free_of_taken s.bitmap s.total_pages all)

pub alloc_page-nonzero : {s : Pmm} → IsValid s → 0 < s.free_pages → (alloc_page s).0 ≢ 0
alloc_page-nonzero {s} v h = elim (alloc_page_lem s v) [
  | inl (page, g) ↦ λ e. omega (arith, g.nonzero, g.address)
  | inr (failed, all) ↦ absurd (all_taken v h all)
]
