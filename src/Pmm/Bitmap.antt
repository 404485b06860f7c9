-- ===== src/Pmm/Bitmap.antt =====
-- The bits of the bitmap: what setting and clearing one does to every other.
use operatingsystem.Common.{ℕ, ◌-◌, ◌/◌, ◌%◌, ◌^◌, ◌<◌, ◌≡◌, refl, ap, arith}
use operatingsystem.Common.{Bool, true, false, not, ◌==◌, if◌then◌else◌, bit_and, bit_or, u8, write}
use operatingsystem.Common.{
  write_lem, bit, bit-le-one, bit-bit_or, bit-bit_and, bit-pow, bit-u8, bit-zero, ◌∙◌,
}
use operatingsystem.Common.{bit_and-pow-eq_zero}
use operatingsystem.Common.{all_below, all_below_sound, ==_iff}
use operatingsystem.Pmm.{set_bit, clear_bit, test_bit}

test_bit_lem : (m : ℕ → ℕ) (p : ℕ) → test_bit m p ≡ not (bit (p % 8) (m (p / 8)) == 0)
unfolding test_bit
test_bit_lem m p = ap not (bit_and-pow-eq_zero (m (p / 8)) (p % 8))

mask_bit : ℕ → ℕ → Bool
mask_bit k j = bit j (2 ^ 32 - 1 - 2 ^ k) == (if j == k then 0 else 1)

mask_table : all_below 8 (λ k. all_below 8 (λ j. mask_bit k j)) ≡ true
unfolding all_below mask_bit bit
mask_table = refl

-- `~(1u << k)` has every low bit but `k`.
mask_bits : (k j : ℕ) → k < 8 → j < 8 → bit j (2 ^ 32 - 1 - 2 ^ k) ≡ (if j == k then 0 else 1)
unfolding mask_bit
mask_bits k j hk hj =
    (==_iff _ _).0 (all_below_sound 8 (mask_bit k) j (all_below_sound 8 _ k mask_table hk) hj)

pub test_bit-set_bit :
    (m : ℕ → ℕ) (p q : ℕ) → test_bit (set_bit m p) q ≡ (if q == p then true else test_bit m q)
unfolding set_bit
test_bit-set_bit m p q = ground (
  arith,
  test_bit_lem (set_bit m p) q,
  test_bit_lem m q,
  write_lem m (p / 8) (u8 (bit_or (m (p / 8)) (2 ^ (p % 8)))) (q / 8),
  bit-u8 (q % 8) (bit_or (m (p / 8)) (2 ^ (p % 8))),
  bit-bit_or (q % 8) (m (p / 8)) (2 ^ (p % 8)),
  bit-pow (q % 8) (p % 8),
  bit-le-one (q % 8) (m (p / 8)),
)

pub test_bit-clear_bit :
    (m : ℕ → ℕ) (p q : ℕ) → test_bit (clear_bit m p) q ≡ (if q == p then false else test_bit m q)
unfolding clear_bit
test_bit-clear_bit m p q = ground (
  arith,
  test_bit_lem (clear_bit m p) q,
  test_bit_lem m q,
  write_lem m (p / 8) (u8 (bit_and (m (p / 8)) (2 ^ 32 - 1 - 2 ^ (p % 8)))) (q / 8),
  bit-u8 (q % 8) (bit_and (m (p / 8)) (2 ^ 32 - 1 - 2 ^ (p % 8))),
  bit-bit_and (q % 8) (m (p / 8)) (2 ^ 32 - 1 - 2 ^ (p % 8)),
  mask_bits (p % 8) (q % 8),
  bit-le-one (q % 8) (m (p / 8)),
)

-- The bytes past the one that holds the bit keep their value.
pub set_bit-other : (m : ℕ → ℕ) (p i : ℕ) → p / 8 < i → set_bit m p i ≡ m i
unfolding set_bit write
set_bit-other m p i h = ground arith

pub clear_bit-other : (m : ℕ → ℕ) (p i : ℕ) → p / 8 < i → clear_bit m p i ≡ m i
unfolding clear_bit write
clear_bit-other m p i h = ground arith

pub test_bit_of_zero : (m : ℕ → ℕ) (p : ℕ) → m (p / 8) ≡ 0 → test_bit m p ≡ false
test_bit_of_zero m p e = test_bit_lem m p ∙ rw e (ap (λ n. not (n == 0)) (bit-zero (p % 8)))
