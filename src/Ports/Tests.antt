-- ===== src/Ports/Tests.antt =====
-- Masking the line of the slave's sixth interrupt, and the timer at 100 Hz.
use operatingsystem.Common.{
  ℕ, ◌+◌, ◌*◌, ◌/◌, ◌%◌, ◌<◌, ◌≡◌, refl, arith, bit, if◌then◌else◌, ◌==◌, ltb, [], ◌∷◌,
}
use operatingsystem.Ports.{pic_set_mask, pic_clear_mask, pit_init, serial_write}
use operatingsystem.Ports.Laws.{pic_mask_lem, pit_init_lem}

pic_mask_lem_example :
    (set clear : ℕ) × (pic_set_mask 14 0xa5 ≡ (if ltb 14 8 then 0x21 else 0xa1, set) ∷ [])
    × (pic_clear_mask 14 0xa5 ≡ (if ltb 14 8 then 0x21 else 0xa1, clear) ∷ [])
    × (bit 6 set ≡ (if 6 == 14 % 8 then 1 else bit 6 0xa5))
    × (bit 6 clear ≡ (if 6 == 14 % 8 then 0 else bit 6 0xa5))
pic_mask_lem_example = pic_mask_lem 14 0xa5 6 (omega arith) (omega arith)

pit_init_lem_example :
    (low high : ℕ) × (pit_init 100 ≡ (0x43, 0x36) ∷ (0x40, low) ∷ (0x40, high) ∷ [])
    × (low + 256 * high ≡ 1193182 / 100)
    × (0 < 1193182 / 100)
pit_init_lem_example = pit_init_lem 100 (omega arith) (omega arith)

serial_write_newline : serial_write (b'a' ∷ 10 ∷ b'b' ∷ []) ≡ b'a' ∷ 13 ∷ 10 ∷ b'b' ∷ []
unfolding serial_write
serial_write_newline = refl
