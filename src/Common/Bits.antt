-- ===== src/Common/Bits.antt =====
-- Bits of native numbers, and the bitwise operations bit by bit.
use Prim.Native.Nat.{ℕ, zero, suc, ◌+◌, ◌*◌, ◌/◌, ◌%◌, ◌^◌, ◌≤◌, ◌<◌, min, max}
use Prim.Native.Nat.{bit_and, bit_or, digits, bitwise, bit_and-bitwise, bit_or-bitwise}
use mathlib.Core.Path.{◌≡◌, refl, ap, ◌∙◌}
use native.Mathlib.Nat.{pow-suc}
use native.Mathlib.Decide.{ℕ_discrete}
use native.Mathlib.Omega.{arith}
use operatingsystem.Common.Tests.{◌==◌, if◌then◌else◌}

-- The low w bits: the value that an unsigned integer of w bits keeps.
abbrev pub u8 : ℕ → ℕ
u8 n = n % 2 ^ 8

abbrev pub u16 : ℕ → ℕ
u16 n = n % 2 ^ 16

abbrev pub u32 : ℕ → ℕ
u32 n = n % 2 ^ 32

abbrev pub u64 : ℕ → ℕ
u64 n = n % 2 ^ 64

-- Bit `j` of `a`, lowest first.
unfoldable pub bit : ℕ → ℕ → ℕ
bit zero a = a % 2
bit (suc j) a = bit j (a / 2)

-- The native operations stand for `bitwise`, which goes through the digits on fuel. One unit of
-- fuel more than needed changes nothing, so any amount that is enough gives `bitwise` itself.
module _ (low : ℕ → ℕ) (join : ℕ → ℕ → ℕ) where
  spare_fuel : (n a b : ℕ) → a ≤ n → digits low join (suc n) a b ≡ digits low join n a b
  spare_fuel zero zero b h = refl
  spare_fuel (suc n) zero b h = refl
  spare_fuel zero (suc a) b h = absurd (omega arith)
  spare_fuel (suc n) (suc a) b h =
      ap (λ r. r * 2 + join (suc a % 2) (b % 2)) (spare_fuel n (suc a / 2) (b / 2) (omega arith))

  enough_fuel : (n a b : ℕ) → a ≤ n → digits low join n a b ≡ bitwise low join a b
  enough_fuel zero zero b h = refl
  enough_fuel zero (suc a) b h = absurd (omega arith)
  enough_fuel (suc n) a b h = elim (ℕ_discrete a (suc n)) [
    | yes e ↦ rw e
    | no ne ↦ spare_fuel n a b (omega arith) ∙ enough_fuel n a b (omega arith)
  ]

  -- The digits of the result above the lowest, and the lowest.
  upper_digits :
      (a b : ℕ)
      → 0 < a
      → bitwise low join a b ≡ bitwise low join (a / 2) (b / 2) * 2 + join (a % 2) (b % 2)
  upper_digits zero b h = absurd (omega arith)
  upper_digits (suc a) b h =
      ap (λ r. r * 2 + join (suc a % 2) (b % 2)) (enough_fuel a (suc a / 2) (b / 2) (omega arith))

pub or_digits :
    (a b : ℕ) → (bit_or a b % 2 ≡ max (a % 2) (b % 2)) × (bit_or a b / 2 ≡ bit_or (a / 2) (b / 2))
or_digits zero b = let e = bit_or-bitwise 0 b in let e' = bit_or-bitwise 0 (b / 2) in omega arith
or_digits (suc a) b =
    let e = upper_digits (λ y. y) max (suc a) b (omega arith) in
    let whole = bit_or-bitwise (suc a) b in
    let upper = bit_or-bitwise (suc a / 2) (b / 2) in omega arith

pub and_digits :
    (a b : ℕ)
    → (bit_and a b % 2 ≡ min (a % 2) (b % 2)) × (bit_and a b / 2 ≡ bit_and (a / 2) (b / 2))
and_digits zero b = let e = bit_and-bitwise 0 b in let e' = bit_and-bitwise 0 (b / 2) in omega arith
and_digits (suc a) b =
    let e = upper_digits (λ y. 0) min (suc a) b (omega arith) in
    let whole = bit_and-bitwise (suc a) b in
    let upper = bit_and-bitwise (suc a / 2) (b / 2) in omega arith

pub bit-le-one : (j a : ℕ) → bit j a ≤ 1
unfolding bit
bit-le-one zero a = omega arith
bit-le-one (suc j) a = bit-le-one j (a / 2)

pub bit-bit_or : (j a b : ℕ) → bit j (bit_or a b) ≡ max (bit j a) (bit j b)
unfolding bit
bit-bit_or zero a b = (or_digits a b).0
bit-bit_or (suc j) a b = ap (bit j) (or_digits a b).1 ∙ bit-bit_or j (a / 2) (b / 2)

pub bit-bit_and : (j a b : ℕ) → bit j (bit_and a b) ≡ min (bit j a) (bit j b)
unfolding bit
bit-bit_and zero a b = (and_digits a b).0
bit-bit_and (suc j) a b = ap (bit j) (and_digits a b).1 ∙ bit-bit_and j (a / 2) (b / 2)

pub bit-zero : (j : ℕ) → bit j 0 ≡ 0
unfolding bit
bit-zero zero = refl
bit-zero (suc j) = bit-zero j

-- Numbers with the same bits are equal.
eq_of_bits_below : (n a b : ℕ) → a ≤ n → b ≤ n → ((j : ℕ) → bit j a ≡ bit j b) → a ≡ b
unfolding bit
eq_of_bits_below zero a b p q h = omega arith
eq_of_bits_below (suc n) a b p q h =
    omega
      (arith, h 0, eq_of_bits_below n (a / 2) (b / 2) (omega arith) (omega arith) (λ j. h (suc j)))

pub eq_of_bits : (a b : ℕ) → ((j : ℕ) → bit j a ≡ bit j b) → a ≡ b
eq_of_bits a b h = eq_of_bits_below (a + b) a b (omega arith) (omega arith) h

half-pow : (k : ℕ) → 2 ^ suc k / 2 ≡ 2 ^ k
half-pow k = omega (arith, pow-suc 2 k)

-- `1 << k` has the one bit `k`.
pub bit-pow : (j k : ℕ) → bit j (2 ^ k) ≡ (if j == k then 1 else 0)
unfolding bit
bit-pow zero zero = refl
bit-pow zero (suc k) = ground (arith, pow-suc 2 k)
bit-pow (suc j) zero = bit-zero j ∙ ground arith
bit-pow (suc j) (suc k) = ap (bit j) (half-pow k) ∙ bit-pow j k ∙ ground arith

pub and-zero : (a : ℕ) → bit_and a 0 ≡ 0
and-zero a = eq_of_bits _ _ (λ j. ground (arith, bit-bit_and j a 0, bit-zero j))

bit_and-pow-digits :
    (a k : ℕ)
    → (bit_and a (2 ^ suc k) % 2 ≡ 0) × (bit_and a (2 ^ suc k) / 2 ≡ bit_and (a / 2) (2 ^ k))
bit_and-pow-digits a k =
    let d = and_digits a (2 ^ suc k) in
    (omega (arith, pow-suc 2 k), d.1 ∙ ap (bit_and (a / 2)) (half-pow k))

-- The test `(a & (1 << k)) != 0` reads bit `k`.
pub bit_and-pow-eq_zero : (a k : ℕ) → (bit_and a (2 ^ k) == 0) ≡ (bit k a == 0)
unfolding bit
bit_and-pow-eq_zero a zero =
    let d = and_digits a 1 in let none = and-zero (a / 2) in ap (λ n. n == 0) (omega arith)
bit_and-pow-eq_zero a (suc k) =
    ground (arith, bit_and-pow-digits a k, bit_and-pow-eq_zero (a / 2) k)

-- Narrowing to a byte keeps the low eight bits.
pub bit-u8 : (j a : ℕ) → j < 8 → bit j (u8 a) ≡ bit j a
unfolding bit
bit-u8 zero a h = omega arith
bit-u8 (suc zero) a h = omega arith
bit-u8 (suc (suc zero)) a h = omega arith
bit-u8 (suc (suc (suc zero))) a h = omega arith
bit-u8 (suc (suc (suc (suc zero)))) a h = omega arith
bit-u8 (suc (suc (suc (suc (suc zero))))) a h = omega arith
bit-u8 (suc (suc (suc (suc (suc (suc zero)))))) a h = omega arith
bit-u8 (suc (suc (suc (suc (suc (suc (suc zero))))))) a h = omega arith
bit-u8 (suc (suc (suc (suc (suc (suc (suc (suc j)))))))) a h = absurd (omega arith)
