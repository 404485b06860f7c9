-- ===== src/Keyboard/Tests.antt =====
-- Keys on the driver as it starts.
use operatingsystem.Common.{if◌then◌else◌}
use operatingsystem.Common.{◌≡◌, refl, arith, List, [], ◌∷◌, true, false, write}
use operatingsystem.Keyboard.{boot, push_char, translate, translate_scancode}
use operatingsystem.Keyboard.{handle_irq, read_char}
use operatingsystem.Common.{ℕ, ◌+◌, ◌≤◌, ltb, some}
use operatingsystem.Ports.{pic_clear_mask}
use operatingsystem.Keyboard.Setup.{keyboard_init, keyboard_init_lem}
use operatingsystem.Keyboard.Ring.{IsRing}
use operatingsystem.Keyboard.Letters.{swap_case, is_letter, translate_modifiers}
use operatingsystem.Keyboard.Refine.{view, Event, irq, read, run, run_typist, run_lem}

-- Shift down, h, Shift up, i, the arrow-up key, a mouse byte, and four reads.
abbrev script : List Event
script =
    irq 1 0x2a
    ∷ irq 1 0x23
    ∷ irq 1 0xaa
    ∷ irq 1 0x17
    ∷ irq 1 0xe0
    ∷ irq 1 0x48
    ∷ irq 0x21 0x1e
    ∷ read
    ∷ read
    ∷ read
    ∷ []

boot-IsRing : IsRing boot
boot-IsRing = omega arith

script_reads : run script boot ≡ b'H' ∷ b'i' ∷ 0 ∷ []
unfolding run handle_irq translate_scancode translate push_char read_char write
script_reads = refl

run_lem_example : run script boot ≡ run_typist script (view boot)
run_lem_example = run_lem script boot boot-IsRing (omega arith)

translate_modifiers_example :
    (translate false true 0x1e ≡ swap_case (translate false false 0x1e))
    × (translate true true 0x1e ≡ swap_case (translate true false 0x1e))
    × (is_letter (translate true false 0x1e) ≡ is_letter (translate false false 0x1e))
    × (translate true false 0x1e ≡ (
        if is_letter (translate false false 0x1e)
        then swap_case (translate false false 0x1e)
        else translate true false 0x1e))
    × (translate false false 0x1e ≡ (
        if is_letter (translate false false 0x1e)
        then translate true true 0x1e
        else translate false false 0x1e))
translate_modifiers_example = translate_modifiers 0x1e (omega arith)

-- Two bytes left behind, and a controller that is never ready for input.
abbrev slow : ℕ → ℕ
slow n = if ltb n 2 then 3 else 2

keyboard_init_lem_example :
    (reads : ℕ) × (keyboard_init 5 slow 0xff
      ≡ some (reads, (0x64, 0xae) ∷ (0x60, 0xf4) ∷ pic_clear_mask 1 0xff))
    × (reads ≤ 2 + 1 + 200000)
keyboard_init_lem_example = keyboard_init_lem 5 2 slow 0xff (omega arith) refl
