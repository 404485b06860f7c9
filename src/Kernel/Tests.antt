-- ===== src/Kernel/Tests.antt =====
-- Two characters wait and the column is the last of the row.
use operatingsystem.Common.{ℕ, ◌<◌, ◌≡◌, arith, [], false}
use operatingsystem.Keyboard.{Keyboard, boot, char_available}
use operatingsystem.Keyboard.Ring.{IsRing, contents}
use operatingsystem.Kernel.{Display, echo}
use operatingsystem.Kernel.Echo.{OffRow, show_all, echo_lem}

abbrev typed : Keyboard
typed = record boot { buffer_head = 1; buffer_tail = 63; keyboard_buffer = λ i. b'a' }

abbrev display : Display
display = record {
  console = record { vga_buffer = λ i. i; cursor_row = 1; cursor_column = 0; serial = [] };
  keyboard_column = 79;
}

echo_lem_example :
    let r = echo 63 typed display in
    (char_available r.0 ≡ false)
    × IsRing r.0
    × (r.1 ≡ show_all (contents typed) display)
    × (r.1.keyboard_column < 80)
    × ((i : ℕ) → OffRow i → r.1.console.vga_buffer i ≡ display.console.vga_buffer i)
    × (r.1.console.cursor_row ≡ display.console.cursor_row)
    × (r.1.console.cursor_column ≡ display.console.cursor_column)
echo_lem_example = echo_lem typed display (omega arith) (omega arith)
