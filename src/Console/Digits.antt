-- ===== src/Console/Digits.antt =====
-- `write_unsigned`: its digits fit the array, and they are the number.
use operatingsystem.Common.{
  ℕ, zero, suc, ◌+◌, ◌-◌, ◌*◌, ◌/◌, ◌%◌, ◌^◌, ◌≤◌, ◌<◌, ◌≡◌, ◌≢◌, refl, ap, subst, arith,
}
use operatingsystem.Common.{
  List, [], ◌∷◌, length, ◌==◌, ltb, if◌then◌else◌, ==_iff, ==-eq-false, ℕ_discrete, ◌⊎◌, inl, inr,
}
use native.Mathlib.Nat.{mod-add-div, pow-suc}
use operatingsystem.Console.{digits, digit_char}

-- The value of a digit, and of an array of digits, lowest first.
abbrev pub digit_value : ℕ → ℕ
digit_value c = if ltb c b'a' then c - b'0' else c + 10 - b'a'

abbrev pub value_of : ℕ → List ℕ → ℕ
value_of base [] = 0
value_of base (c ∷ cs) = digit_value c + base * value_of base cs

digit_value-digit_char : (d : ℕ) → digit_value (digit_char d) ≡ d
digit_value-digit_char d = ground arith

digits-suc :
    (fuel value base : ℕ)
    → digits (suc fuel) value base
      ≡ digit_char (value % base)
        ∷ (if value / base == 0 then [] else digits fuel (value / base) base)
unfolding digits
digits-suc fuel value base = refl

ten-le : (a b n : ℕ) → 10 ≤ b → b * a ≤ n → 10 * a ≤ n
ten-le a b n h l = grind arith

twice-le : (a b n : ℕ) → 2 ≤ b → b * a ≤ n → 2 * a ≤ n
twice-le a b n h l = grind arith

half-lt : (value base n : ℕ) → 2 ≤ base → value < 2 ^ suc n → value / base < 2 ^ n
half-lt value base n h l = omega (
  arith,
  twice-le (value / base) base value h (omega (arith, mod-add-div value base)),
  pow-suc 2 n,
)

-- The last digit.
value_of-last :
    (fuel value base : ℕ) → value / base ≡ 0 → value_of base (digits (suc fuel) value base) ≡ value
value_of-last fuel value base e =
    rw (digits-suc fuel value base, (==_iff _ _).1 e, digit_value-digit_char (value % base))
      (omega (arith, mod-add-div value base, ap (λ (t : ℕ). base * t) e))

value_of-digits_fuel :
    (fuel value base : ℕ)
    → 2 ≤ base
    → value < 2 ^ fuel
    → value_of base (digits (suc fuel) value base) ≡ value
value_of-digits_fuel zero value base h l =
    value_of-last 0 value base
      (omega (arith, twice-le (value / base) base value h (omega (arith, mod-add-div value base))))
value_of-digits_fuel (suc fuel) value base h l = elim (ℕ_discrete (value / base) 0) [
  | yes last ↦ value_of-last (suc fuel) value base last
  | no more ↦
      rw
        (
          digits-suc (suc fuel) value base,
          ==-eq-false more,
          digit_value-digit_char (value % base),
          value_of-digits_fuel fuel (value / base) base h (half-lt value base fuel h l),
        )
        (omega (arith, mod-add-div value base))
]

-- The number of digits: at most `k` below the `k`-th power of ten.
length-digits :
    (fuel k value base : ℕ)
    → 10 ≤ base
    → value < 10 ^ suc k
    → length (digits fuel value base) ≤ suc k
unfolding digits
length-digits zero k value base h l = omega arith
length-digits (suc fuel) zero value base h l = elim (ℕ_discrete (value / base) 0) [
  | yes last ↦ rw (digits, (==_iff _ _).1 last) (omega arith)
  | no more ↦
      absurd
        (omega (arith, ten-le (value / base) base value h (omega (arith, mod-add-div value base))))
]
length-digits (suc fuel) (suc k) value base h l = elim (ℕ_discrete (value / base) 0) [
  | yes last ↦ rw (digits, (==_iff _ _).1 last) (omega arith)
  | no more ↦
      rw (digits, ==-eq-false more)
        (omega (
          arith,
          length-digits fuel k (value / base) base h (
              omega (
                arith,
                ten-le (value / base) base value h (omega (arith, mod-add-div value base)),
                pow-suc 10 (suc k),
              )),
        ))
]

-- The highest digit, which stands last.
abbrev pub highest : List ℕ → ℕ
highest [] = 0
highest (c ∷ []) = c
highest (c ∷ d ∷ cs) = highest (d ∷ cs)

digit_char-zero : (d : ℕ) → 0 < d → digit_char d ≢ b'0'
digit_char-zero d l = λ e. ground arith

highest-one :
    (fuel value base : ℕ)
    → 0 < value
    → value / base ≡ 0
    → highest (digits (suc fuel) value base) ≢ b'0'
highest-one fuel value base pos e =
    rw (digits-suc fuel value base, (==_iff _ _).1 e)
      (digit_char-zero (value % base)
        (omega (arith, mod-add-div value base, ap (λ (t : ℕ). base * t) e)))

highest-digits :
    (fuel value base : ℕ)
    → 2 ≤ base
    → 0 < value
    → value < 2 ^ fuel
    → highest (digits (suc fuel) value base) ≢ b'0'
highest-digits zero value base h pos l = absurd (omega arith)
highest-digits (suc fuel) value base h pos l = elim (ℕ_discrete (value / base) 0) [
  | yes last ↦ highest-one (suc fuel) value base pos last
  | no more ↦
      rw (digits-suc (suc fuel) value base, ==-eq-false more, digits-suc fuel (value / base) base)
        (subst (λ ds. highest ds ≢ b'0') (digits-suc fuel (value / base) base)
          (highest-digits fuel (value / base) base h (omega arith) (half-lt value base fuel h l)))
]

-- For every 32-bit value, which is all that `printk` passes, and base 10 or 16, the digits that
-- `write_unsigned` computes fit its array of 16, and they are the digits of the value in that
-- base, the lowest first, without a leading zero if the value is above 0.
pub digits_lem :
    (value base : ℕ)
    → (base ≡ 10) ⊎ (base ≡ 16)
    → value < 2 ^ 32
    → (length (digits 64 value base) ≤ 16)
      × (value_of base (digits 64 value base) ≡ value)
      × ((value ≡ 0) ⊎ (highest (digits 64 value base) ≢ b'0'))
digits_lem value base b l =
    let ten : 10 ≤ base = omega arith in
    (
      omega (arith, length-digits 64 9 value base ten (omega arith)),
      value_of-digits_fuel 63 value base (omega arith) (omega arith),
      elim (ℕ_discrete value 0) [
        | yes z ↦ inl z
        | no nz ↦ inr (highest-digits 63 value base (omega arith) (omega arith) (omega arith))
      ],
    )
