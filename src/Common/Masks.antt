-- ===== src/Common/Masks.antt =====
-- Masks: the low bits of a number, the bits above them, and laws of `&` and `|`.
use Prim.Native.Nat.{ℕ, zero, suc, ◌+◌, ◌-◌, ◌*◌, ◌/◌, ◌%◌, ◌^◌, ◌<◌}
use Prim.Native.Nat.{bit_and, bit_or}
use mathlib.Core.Path.{◌≡◌, ap, ◌∙◌}
use native.Mathlib.Nat.{pow-suc, one-le-pow, mod-add-div, div-div-eq-div-mul}
use native.Mathlib.Omega.{arith}
use operatingsystem.Common.Bits.{bit-bit_or, bit-bit_and, bit-zero, eq_of_bits}
use operatingsystem.Common.Bits.{and_digits, and-zero}

half-mod : (a p : ℕ) → 0 < p → a % (2 * p) ≡ (a / 2 % p) * 2 + a % 2
half-mod a p h = omega (
  arith,
  mod-add-div a (2 * p),
  mod-add-div (a / 2) p,
  ap (λ (t : ℕ). 2 * p * t) (div-div-eq-div-mul a 2 p),
)

-- `a & ((1 << k) - 1)` is the remainder by `1 << k`.
pub and-ones : (k a : ℕ) → bit_and a (2 ^ k - 1) ≡ a % 2 ^ k
and-ones zero a = and-zero a ∙ omega arith
and-ones (suc k) a = omega (
  arith,
  and_digits a (2 ^ suc k - 1),
  ap (bit_and (a / 2)) (half-ones k),
  and-ones k (a / 2),
  half-mod a (2 ^ k) (one-le-pow k 2 (omega arith)),
  ap (λ (t : ℕ). a % t) (double k),
  odd k,
)
  where
    double : (k : ℕ) → 2 ^ suc k ≡ 2 * 2 ^ k
    double k = omega (arith, pow-suc 2 k)

    odd : (k : ℕ) → (2 ^ suc k - 1) % 2 ≡ 1
    odd k = omega (arith, pow-suc 2 k, one-le-pow k 2 (omega arith))

    half-ones : (k : ℕ) → (2 ^ suc k - 1) / 2 ≡ 2 ^ k - 1
    half-ones k = omega (arith, pow-suc 2 k, one-le-pow k 2 (omega arith))

pub and_assoc : (a b c : ℕ) → bit_and (bit_and a b) c ≡ bit_and a (bit_and b c)
and_assoc a b c = eq_of_bits _ _ λ j. omega (
  arith,
  bit-bit_and j (bit_and a b) c,
  bit-bit_and j a b,
  bit-bit_and j a (bit_and b c),
  bit-bit_and j b c,
)

pub and_comm : (a b : ℕ) → bit_and a b ≡ bit_and b a
and_comm a b = eq_of_bits _ _ λ j. omega (arith, bit-bit_and j a b, bit-bit_and j b a)

-- `(a | b) & c` is `(a & c) | (b & c)`.
pub and-or : (a b c : ℕ) → bit_and (bit_or a b) c ≡ bit_or (bit_and a c) (bit_and b c)
and-or a b c = eq_of_bits _ _ λ j. omega (
  arith,
  bit-bit_and j (bit_or a b) c,
  bit-bit_or j a b,
  bit-bit_or j (bit_and a c) (bit_and b c),
  bit-bit_and j a c,
  bit-bit_and j b c,
)

pub or-zero : (a : ℕ) → bit_or a 0 ≡ a
or-zero a = eq_of_bits _ _ λ j. omega (arith, bit-bit_or j a 0, bit-zero j)
