-- ===== src/Keyboard.antt =====
-- The PS/2 keyboard driver, kernel_os/src/keyboard.cpp: the ring of typed characters, the
-- translation of scan codes and the interrupt handler. Reads of the controller's ports are
-- arguments. A `char` is its code; all that the tables hold are below 128.
pub mod Letters
pub mod Ring
pub mod Typist
pub mod Refine
pub mod Setup
mod Tests
use operatingsystem.Common.{ℕ, ◌+◌, ◌-◌, ◌%◌, bit_and, u8, List, [], ◌∷◌, get_or, write}
use operatingsystem.Common.{Bool, true, false, not, ◌&&◌, ◌||◌, if◌then◌else◌, leb, ◌==◌}

pub record Keyboard : Type 0 where
  pub buffer_head : ℕ
  pub buffer_tail : ℕ
  pub keyboard_buffer : ℕ → ℕ
  pub left_shift_pressed : Bool
  pub right_shift_pressed : Bool
  pub caps_lock_active : Bool
  pub extended_scancode : Bool

abbrev pub ps2_status_output_full : ℕ
ps2_status_output_full = 1

abbrev pub ps2_status_second_port : ℕ
ps2_status_second_port = 0x20

abbrev pub keyboard_buffer_size : ℕ
keyboard_buffer_size = 64

-- What the driver starts with: the memory of its static variables.
abbrev pub boot : Keyboard
boot = record {
  buffer_head = 0;
  buffer_tail = 0;
  keyboard_buffer = λ i. 0;
  left_shift_pressed = false;
  right_shift_pressed = false;
  caps_lock_active = false;
  extended_scancode = false;
}

unfoldable pub push_char : ℕ → Keyboard → Keyboard
push_char character k =
    let next_head = u8 ((k.buffer_head + 1) % keyboard_buffer_size) in
    if next_head == k.buffer_tail then k else record k {
      keyboard_buffer = write k.keyboard_buffer k.buffer_head character;
      buffer_head = next_head;
    }

-- The first 60 codes; the rest of each array of 128 is 0.
abbrev pub normal_map : List ℕ
normal_map =
    0 ∷ 0 ∷ b'1' ∷ b'2' ∷ b'3' ∷ b'4' ∷ b'5' ∷ b'6' ∷ b'7' ∷ b'8' ∷ b'9' ∷ b'0' ∷ b'-' ∷ b'=' ∷ 8
    ∷ 9 ∷ b'q' ∷ b'w' ∷ b'e' ∷ b'r' ∷ b't' ∷ b'y' ∷ b'u' ∷ b'i' ∷ b'o' ∷ b'p' ∷ b'[' ∷ b']' ∷ 10 ∷ 0
    ∷ b'a' ∷ b's' ∷ b'd' ∷ b'f' ∷ b'g' ∷ b'h' ∷ b'j' ∷ b'k' ∷ b'l' ∷ b';' ∷ 39 ∷ b'`' ∷ 0 ∷ 92
    ∷ b'z' ∷ b'x' ∷ b'c' ∷ b'v' ∷ b'b' ∷ b'n' ∷ b'm' ∷ b',' ∷ b'.' ∷ b'/' ∷ 0 ∷ b'*' ∷ 0 ∷ b' ' ∷ 0
    ∷ 0 ∷ []

abbrev pub shifted_map : List ℕ
shifted_map =
    0 ∷ 0 ∷ b'!' ∷ b'@' ∷ b'#' ∷ b'$' ∷ b'%' ∷ b'^' ∷ b'&' ∷ b'*' ∷ b'(' ∷ b')' ∷ b'_' ∷ b'+' ∷ 8
    ∷ 9 ∷ b'Q' ∷ b'W' ∷ b'E' ∷ b'R' ∷ b'T' ∷ b'Y' ∷ b'U' ∷ b'I' ∷ b'O' ∷ b'P' ∷ b'{' ∷ b'}' ∷ 10 ∷ 0
    ∷ b'A' ∷ b'S' ∷ b'D' ∷ b'F' ∷ b'G' ∷ b'H' ∷ b'J' ∷ b'K' ∷ b'L' ∷ b':' ∷ 34 ∷ b'~' ∷ 0 ∷ b'|'
    ∷ b'Z' ∷ b'X' ∷ b'C' ∷ b'V' ∷ b'B' ∷ b'N' ∷ b'M' ∷ b'<' ∷ b'>' ∷ b'?' ∷ 0 ∷ b'*' ∷ 0 ∷ b' ' ∷ 0
    ∷ 0 ∷ []

-- The body of `translate_scancode` over the two flags that it reads.
unfoldable pub translate : Bool → Bool → ℕ → ℕ
translate shift_active caps_lock scancode =
    let character =
      if shift_active then get_or shifted_map scancode 0 else get_or normal_map scancode 0 in
    if leb b'a' character && leb character b'z' && caps_lock
    then character - b'a' + b'A'
    else if leb b'A' character && leb character b'Z' && caps_lock
    then character - b'A' + b'a'
    else character

unfoldable pub translate_scancode : ℕ → Keyboard → ℕ
translate_scancode scancode k =
    translate (k.left_shift_pressed || k.right_shift_pressed) k.caps_lock_active scancode

-- The part of the handler behind the status checks, for a scan code other than 0xE0.
unfoldable pub handle_scancode : ℕ → Keyboard → Keyboard
handle_scancode code k =
    let released = not (bit_and code 0x80 == 0) in
    let scancode = bit_and code 0x7f in
    let character = translate_scancode scancode k in
    let after =
      if scancode == 0x2a
      then record k { left_shift_pressed = not released }
      else if scancode == 0x36
      then record k { right_shift_pressed = not released }
      else if (scancode == 0x3a) && not released
      then record k { caps_lock_active = not k.caps_lock_active }
      else if not released && not k.extended_scancode
      then (if not (character == 0) then push_char character k else k)
      else k in
    record after { extended_scancode = false }

-- `status` is what the status port reads, and `code` what the data port then reads.
unfoldable pub handle_irq : ℕ → ℕ → Keyboard → Keyboard
unfolding handle_scancode
handle_irq status code k =
    if bit_and status ps2_status_output_full == 0
    then k
    else if not (bit_and status ps2_status_second_port == 0)
    then k
    else if code == 0xe0
    then record k { extended_scancode = true }
    else handle_scancode code k

unfoldable pub char_available : Keyboard → Bool
char_available k = not (k.buffer_head == k.buffer_tail)

unfoldable pub read_char : Keyboard → ℕ × Keyboard
unfolding char_available
read_char k = if not (char_available k) then (0, k) else (
  k.keyboard_buffer k.buffer_tail,
  record k { buffer_tail = u8 ((k.buffer_tail + 1) % keyboard_buffer_size) },
)
