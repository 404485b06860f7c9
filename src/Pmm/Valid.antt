-- ===== src/Pmm/Valid.antt =====
-- The representation invariant of the allocator: its counter of free pages against its bitmap.
use operatingsystem.Common.{ℕ, zero, suc, ◌+◌, ◌^◌, ◌≤◌, ◌<◌, ◌≡◌, refl, arith}
use operatingsystem.Common.{true, false, ◌==◌, if◌then◌else◌}
use operatingsystem.Pmm.{Pmm, set_bit, clear_bit, test_bit, take_page, give_page, release_page}
use operatingsystem.Pmm.Bitmap.{test_bit-set_bit, test_bit-clear_bit}

-- The clear bits among the first `n`.
pub count_free : (ℕ → ℕ) → ℕ → ℕ
count_free m zero = 0
count_free m (suc n) = (if test_bit m n then 0 else 1) + count_free m n

-- What every operation keeps: the counter is right, and no computation of it can wrap.
pub record IsCounted (s : Pmm) : Type 0 where
  pub some_pages : 0 < s.total_pages
  pub small : s.total_pages < 2 ^ 52
  pub counted : s.free_pages ≡ count_free s.bitmap s.total_pages
  pub hint : s.search_hint ≤ s.total_pages

-- And page 0, whose address is the error value, is never free.
pub record IsValid (s : Pmm) : Type 0 where
  pub is_counted : IsCounted s
  pub zero_taken : test_bit s.bitmap 0 ≡ true

pub count_free-le : (m : ℕ → ℕ) (n : ℕ) → count_free m n ≤ n
unfolding count_free
count_free-le m zero = omega arith
count_free-le m (suc n) = ground (arith, count_free-le m n)

pub count_free_ext :
    (m m' : ℕ → ℕ) (n : ℕ)
    → ((q : ℕ) → q < n → test_bit m' q ≡ test_bit m q)
    → count_free m' n ≡ count_free m n
unfolding count_free
count_free_ext m m' zero h = refl
count_free_ext m m' (suc n) h =
    ground (arith, count_free_ext m m' n (λ q l. h q (omega arith)), h n)

pub count_free_of_clear :
    (m : ℕ → ℕ) (n : ℕ) → ((q : ℕ) → q < n → test_bit m q ≡ false) → count_free m n ≡ n
unfolding count_free
count_free_of_clear m zero h = refl
count_free_of_clear m (suc n) h =
    ground (arith, h n, count_free_of_clear m n (λ q l. h q (omega arith)))

pub count_free_of_taken :
    (m : ℕ → ℕ) (n : ℕ) → ((q : ℕ) → q < n → test_bit m q ≡ true) → count_free m n ≡ 0
unfolding count_free
count_free_of_taken m zero h = refl
count_free_of_taken m (suc n) h =
    ground (arith, h n, count_free_of_taken m n (λ q l. h q (omega arith)))

-- A run of free pages counts in full.
pub count_free_run :
    (m : ℕ → ℕ) (first n : ℕ)
    → ((q : ℕ) → first ≤ q → q < first + n → test_bit m q ≡ false)
    → n ≤ count_free m (first + n)
unfolding count_free
count_free_run m first zero h = omega arith
count_free_run m first (suc n) h =
    ground (arith, h (first + n), count_free_run m first n (λ q p l. h q p (omega arith)))

pub count_free-set_bit_outside :
    (m : ℕ → ℕ) (p n : ℕ) → n ≤ p → count_free (set_bit m p) n ≡ count_free m n
count_free-set_bit_outside m p n h =
    count_free_ext m (set_bit m p) n (λ q l. ground (arith, test_bit-set_bit m p q))

pub count_free-set_bit :
    (m : ℕ → ℕ) (p n : ℕ)
    → p < n
    → test_bit m p ≡ false
    → count_free (set_bit m p) n + 1 ≡ count_free m n
unfolding count_free
count_free-set_bit m p zero h e = absurd (omega arith)
count_free-set_bit m p (suc n) h e =
    ground
      (arith, count_free-set_bit m p n, count_free-set_bit_outside m p n, test_bit-set_bit m p n)

pub count_free-clear_bit_outside :
    (m : ℕ → ℕ) (p n : ℕ) → n ≤ p → count_free (clear_bit m p) n ≡ count_free m n
count_free-clear_bit_outside m p n h =
    count_free_ext m (clear_bit m p) n (λ q l. ground (arith, test_bit-clear_bit m p q))

pub count_free-clear_bit :
    (m : ℕ → ℕ) (p n : ℕ)
    → p < n
    → test_bit m p ≡ true
    → count_free (clear_bit m p) n ≡ count_free m n + 1
unfolding count_free
count_free-clear_bit m p zero h e = absurd (omega arith)
count_free-clear_bit m p (suc n) h e = ground (
  arith,
  count_free-clear_bit m p n,
  count_free-clear_bit_outside m p n,
  test_bit-clear_bit m p n,
)

pub count_free_pos : (m : ℕ → ℕ) (p n : ℕ) → p < n → test_bit m p ≡ false → 0 < count_free m n
count_free_pos m p n h e = omega (arith, count_free-set_bit m p n h e)

-- Taking a free page keeps the counter right, and lowers it by one.
pub take_page-IsCounted :
    (s : Pmm) (p : ℕ)
    → IsCounted s
    → p < s.total_pages
    → test_bit s.bitmap p ≡ false
    → IsCounted (take_page s p) × ((take_page s p).free_pages + 1 ≡ s.free_pages)
unfolding take_page
take_page-IsCounted s p v h e =
    ground
      (arith, count_free-set_bit s.bitmap p s.total_pages, count_free-le s.bitmap s.total_pages)

pub release_page-IsCounted :
    (s : Pmm) (p : ℕ) → IsCounted s → p < s.total_pages → IsCounted (release_page s p)
unfolding release_page give_page
release_page-IsCounted s p v h =
    ground
      (arith, count_free-clear_bit s.bitmap p s.total_pages, count_free-le s.bitmap s.total_pages)

pub test_bit-release_page :
    (s : Pmm) (p q : ℕ)
    → test_bit (release_page s p).bitmap q ≡ (if q == p then false else test_bit s.bitmap q)
unfolding release_page give_page
test_bit-release_page s p q = ground (arith, test_bit-clear_bit s.bitmap p q)
