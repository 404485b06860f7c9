-- ===== src/Kernel.antt =====
-- kernel_os/src/kernel_main.cpp. Here the echo of typed characters: the loop of `kernel_main` over the
-- characters that wait, which shows them in row 6 of the screen, and a round of the threads of the
-- demonstration. `keyboard_column` is the static variable, which is never negative.
pub mod Boot
pub mod Echo
pub mod Start
mod Tests
use operatingsystem.Common.{ℕ, zero, suc, ◌+◌, ◌-◌, ◌%◌}
use operatingsystem.Common.{Bool, true, false, ◌==◌, ltb, if◌then◌else◌, u8}
use operatingsystem.Common.Int.{ℤ, pos}
use operatingsystem.Console.{Console, put_at}
use operatingsystem.Keyboard.{Keyboard, char_available, read_char}

abbrev pub keyboard_row : ℕ
keyboard_row = 6

pub record Display : Type 0 where
  pub console : Console
  pub keyboard_column : ℕ

unfoldable pub vga_put_at : ℤ → ℤ → ℕ → ℕ → Console → Console
vga_put_at row column character color c = put_at row column character color c

unfoldable pub show_keyboard_input : ℕ → Display → Display
show_keyboard_input character d =
    if character == 8
    then (if ltb 0 d.keyboard_column
        then record d {
          keyboard_column = d.keyboard_column - 1;
          console = put_at (pos keyboard_row) (pos (d.keyboard_column - 1)) b' ' 0x0f d.console;
        }
        else d)
    else if character == 10
    then record d { keyboard_column = 0 }
    else record d {
      console = put_at (pos keyboard_row) (pos d.keyboard_column) character 0x0f d.console;
      keyboard_column = (d.keyboard_column + 1) % 80;
    }

-- `while (keyboard_char_available())`, with `fuel` rounds at most.
unfoldable pub echo : ℕ → Keyboard → Display → Keyboard × Display
echo zero k d = (k, d)
echo (suc fuel) k d =
    let (c, read) = read_char k in
    let rest = echo fuel read (show_keyboard_input c d) in if char_available k then rest else (k, d)

-- A round of `thread_a_entry` or `thread_b_entry`, with its row, label and color: the screen and the
-- next counter.
unfoldable pub thread_round : ℕ → ℕ → ℕ → ℕ → Console → ℕ × Console
unfolding vga_put_at
thread_round row label color counter c = (
  u8 (counter + 1),
  vga_put_at (pos row) (pos 2) (b'0' + counter % 10) color
      (vga_put_at (pos row) (pos 0) label color c),
)
