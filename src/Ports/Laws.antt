-- ===== src/Ports/Laws.antt =====
-- Masking an interrupt line, and the divisor of the timer.
use operatingsystem.Common.{ℕ, ◌+◌, ◌-◌, ◌*◌, ◌/◌, ◌%◌, ◌^◌, ◌≤◌, ◌<◌, ◌≡◌, refl, ◌∙◌, arith}
use operatingsystem.Common.{
  bit, bit-u8, bit-bit_or, bit-bit_and, bit-pow, bit-le-one, bit_and, bit_or, u8,
}
use operatingsystem.Common.{
  ◌==◌, ==_iff, ltb, if◌then◌else◌, Bool, true, all_below, all_below_sound, and-ones,
}
use native.Mathlib.Nat.{mod-lt, mod-add-div}
use operatingsystem.Common.{zero, suc, [], ◌∷◌}
use operatingsystem.Ports.{pic_set_mask, pic_clear_mask, mask_bit, pit_init}

mask_bits : ℕ → ℕ → Bool
mask_bits k j = bit j (2 ^ 32 - 1 - 2 ^ k) == (if j == k then 0 else 1)

mask_table : all_below 8 (λ k. all_below 8 (λ j. mask_bits k j)) ≡ true
unfolding all_below mask_bits bit
mask_table = refl

mask_bits_lem : (k j : ℕ) → k < 8 → j < 8 → bit j (2 ^ 32 - 1 - 2 ^ k) ≡ (if j == k then 0 else 1)
unfolding mask_bits
mask_bits_lem k j hk hj =
    (==_iff _ _).0 (all_below_sound 8 (mask_bits k) j (all_below_sound 8 _ k mask_table hk) hj)

-- For an interrupt line below 16, `pic_set_mask` and `pic_clear_mask` each write one byte, to the
-- data port of the line's controller, 0x21 for the lines below 8 and 0xa1 for the others; in it the line's own bit is 1, or 0, and the seven others
-- are as they were read.
pub pic_mask_lem :
    (irq mask j : ℕ)
    → irq < 16
    → j < 8
    → (set clear : ℕ) × (pic_set_mask irq mask ≡ (if ltb irq 8 then 0x21 else 0xa1, set) ∷ [])
      × (pic_clear_mask irq mask ≡ (if ltb irq 8 then 0x21 else 0xa1, clear) ∷ [])
      × (bit j set ≡ (if j == irq % 8 then 1 else bit j mask))
      × (bit j clear ≡ (if j == irq % 8 then 0 else bit j mask))
unfolding pic_set_mask pic_clear_mask
pic_mask_lem irq mask j small inside = (
  u8 (bit_or mask (2 ^ mask_bit irq)),
  u8 (bit_and mask (2 ^ 32 - 1 - 2 ^ mask_bit irq)),
  refl,
  refl,
  bit-u8 j (bit_or mask (2 ^ mask_bit irq)) inside
      ∙ bit-bit_or j mask (2 ^ mask_bit irq)
      ∙ rw line (ground (arith, bit-pow j (irq % 8), bit-le-one j mask)),
  bit-u8 j (bit_and mask (2 ^ 32 - 1 - 2 ^ mask_bit irq)) inside
      ∙ bit-bit_and j mask (2 ^ 32 - 1 - 2 ^ mask_bit irq)
      ∙ rw line (ground (arith, mask_bits_lem (irq % 8) j, bit-le-one j mask)),
)
  where
    line : mask_bit irq ≡ irq % 8
    line = ground arith

quotient_bounds :
    (q f r : ℕ) → r + f * q ≡ 1193182 → r < f → 19 ≤ f → f ≤ 1193182 → (0 < q) × (q * 19 ≤ 1193182)
quotient_bounds zero f r parts small low high = omega arith
quotient_bounds (suc q) f r parts small low high = (omega arith, grind arith)

-- For a frequency from 19 Hz to 1193182 Hz the two bytes that `pit_init` sends make up the divisor
-- of the base frequency, low byte first, and it is not 0.
pub pit_init_lem :
    (frequency_hz : ℕ)
    → 19 ≤ frequency_hz
    → frequency_hz ≤ 1193182
    → (low high : ℕ) × (pit_init frequency_hz ≡ (0x43, 0x36) ∷ (0x40, low) ∷ (0x40, high) ∷ [])
      × (low + 256 * high ≡ 1193182 / frequency_hz)
      × (0 < 1193182 / frequency_hz)
unfolding pit_init
pit_init_lem f low high = (
  bit_and (1193182 / f) 0xff,
  bit_and (1193182 / f / 2 ^ 8) 0xff,
  refl,
  omega (arith, and-ones 8 (1193182 / f), and-ones 8 (1193182 / f / 2 ^ 8), below),
  bounds.0,
)
  where
    bounds : (0 < 1193182 / f) × (1193182 / f * 19 ≤ 1193182)
    bounds =
        quotient_bounds (1193182 / f) f (1193182 % f) (mod-add-div 1193182 f)
          (mod-lt _ (omega arith)) low high

    below : 1193182 / f < 2 ^ 16
    below = omega (arith, bounds.1)
