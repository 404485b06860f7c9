-- ===== src/Kernel/Boot/Devices.antt =====
-- The first half of `kernel_main`: from `console_init` to the prompt.
use operatingsystem.Common.{ℕ, ◌<◌, ◌≡◌, refl, arith, bit_and}
use operatingsystem.Common.{
  List, [], ◌∷◌, ◌++◌, Option, some, ◌==◌, ◌&&◌, Bool, true, false, not, write,
}
use operatingsystem.Console.{Console, Argument, cell, put_at, printk, put_char, blank_rows}
use operatingsystem.Console
use operatingsystem.Console.Screen.{OnScreen, put_char-OnScreen}
use operatingsystem.Ports.{serial_init, pic_remap, pit_init, pic_clear_mask}
use operatingsystem.Keyboard.Setup.{keyboard_init, keyboard_init_lem}
use operatingsystem.Kernel.Start.{
  Image, Devices, System, started_text, devices_text, set_up_tables, show_prompt, set_up_devices,
}

-- A text without a conversion, and its terminator.
abbrev is_plain : List ℕ → Bool
is_plain [] = false
is_plain (c ∷ []) = c == 0
is_plain (c ∷ k ∷ text) = not (c == 0) && not (c == b'%') && is_plain (k ∷ text)

-- `printk` of such a text reads past no array and keeps the cursor on the screen.
record Printed (r : Option Console) : Type 0 where
  console : Console
  returns : r ≡ some console
  on_screen : OnScreen console

printk-char :
    (c k : ℕ) (text : List ℕ) (arguments : List Argument) (console : Console)
    → is_plain (c ∷ k ∷ text) ≡ true
    → (printk (c ∷ k ∷ text) arguments console ≡ printk (k ∷ text) arguments (put_char c console))
      × (is_plain (k ∷ text) ≡ true)
unfolding printk
printk-char c k text arguments console p =
    let (not_end, no_conversion, rest) : (c == 0 ≡ false)
        × (c == b'%' ≡ false)
        × (is_plain (k ∷ text) ≡ true) =
      (ground (arith, p), ground (arith, p), ground (arith, p)) in
    (rw (printk, not_end, no_conversion) refl, rest)

printk-Printed :
    (text : List ℕ) (arguments : List Argument) (console : Console)
    → is_plain text ≡ true
    → OnScreen console
    → Printed (printk text arguments console)
printk-Printed [] arguments console p o = cc
printk-Printed (c ∷ []) arguments console p o = record {
  console = console;
  returns = unfold printk in rw p refl;
  on_screen = o;
}
printk-Printed (c ∷ k ∷ text) arguments console p o =
    let (step, rest) = printk-char c k text arguments console p in
    rw step (
      printk-Printed (k ∷ text) arguments (put_char c console) rest
        (put_char-OnScreen c console 2000 o (omega arith)).0)

prompt_lem :
    (c : Console)
    → OnScreen c
    → OnScreen (show_prompt c) × ((show_prompt c).vga_buffer 480 ≡ cell 0x0f b'>')
unfolding show_prompt put_at write
prompt_lem c o = (record { row_in = o.row_in; column_in = o.column_in }, refl)

init-OnScreen : (c : Console) → OnScreen (Console.init c)
unfolding Console.init
init-OnScreen c = record { row_in = omega arith; column_in = omega arith }

-- The state after the first half, with what the second text leaves on the console.
abbrev pub greeted : Console → Image → Devices → System → System
greeted console image devices s = record s {
  console = show_prompt console;
  keyboard_column = 2;
  tables = set_up_tables image s.tables;
  writes =
      s.writes
      ++ serial_init
      ++ pic_remap devices.mask1 devices.mask2
      ++ pit_init 100
      ++ ((0x64, 0xae) ∷ (0x60, 0xf4) ∷ pic_clear_mask 1 devices.keyboard_mask);
}

set_up_devices-eq :
    (fuel : ℕ) (image : Image) (devices : Devices) (s : System) (first second : Console) (reads : ℕ)
    → printk started_text [] (Console.init s.console) ≡ some first
    → printk devices_text [] first ≡ some second
    → keyboard_init fuel devices.keyboard_status devices.keyboard_mask
      ≡ some (reads, (0x64, 0xae) ∷ (0x60, 0xf4) ∷ pic_clear_mask 1 devices.keyboard_mask)
    → set_up_devices fuel image devices s ≡ some (greeted second image devices s)
unfolding set_up_devices
set_up_devices-eq fuel image devices s first second reads e1 e2 e =
    rw (set_up_devices, e1, e, e2) refl

-- The first half has returned, with the cursor and the prompt on the screen.
pub record Greeted (image : Image) (devices : Devices) (s : System) (r : Option System)
    : Type 0 where
  pub console : Console
  pub returns : r ≡ some (greeted console image devices s)
  pub on_screen : OnScreen (show_prompt console)
  pub prompt : (show_prompt console).vga_buffer 480 ≡ cell 0x0f b'>'

-- If the keyboard's status ever reads as empty, within the fuel, the first half returns.
pub set_up_devices-Greeted :
    (fuel k : ℕ) (image : Image) (devices : Devices) (s : System)
    → k < fuel
    → bit_and (devices.keyboard_status k) 1 ≡ 0
    → Greeted image devices s (set_up_devices fuel image devices s)
set_up_devices-Greeted fuel k image devices s l h =
    let (reads, e, bound) =
      keyboard_init_lem fuel k devices.keyboard_status devices.keyboard_mask l h in
    let first =
      printk-Printed started_text [] (Console.init s.console) refl (init-OnScreen s.console) in
    let second = printk-Printed devices_text [] first.console refl first.on_screen in
    let shown = prompt_lem second.console second.on_screen in
    record {
      console = second.console;
      returns =
          set_up_devices-eq fuel image devices s first.console second.console reads first.returns
            second.returns e;
      on_screen = shown.0;
      prompt = shown.1;
    }
