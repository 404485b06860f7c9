-- ===== src/Console.antt =====
-- The kernel console, kernel_os/src/console.cpp, which writes to the VGA text buffer and to COM1
-- (`serial_write_char` of kernel_os/src/serial.cpp). `vga_buffer` is the cell at each index,
-- `serial` the bytes sent, latest first. A C string is the array of its bytes with the terminator;
-- a read past the end of an array, or of the arguments of `printk`, is a fault, a `none`.
pub mod Digits
pub mod Format
pub mod Print
pub mod Screen
mod Tests
use operatingsystem.Common.{ℕ, zero, suc, ◌+◌, ◌-◌, ◌*◌, ◌/◌, ◌%◌, ◌^◌, bit_or, u8, u32, u64, write}
use operatingsystem.Common.{List, [], ◌∷◌, Option, none, some, get_or}
use operatingsystem.Common.{Bool, true, false, not, ◌||◌, ◌==◌, leb, ltb, if◌then◌else◌}
use mathlib.Core.Option
use operatingsystem.Common.Int.{ℤ, pos, negsuc}

abbrev pub vga_width : ℕ
vga_width = 80

abbrev pub vga_height : ℕ
vga_height = 25

abbrev pub default_color : ℕ
default_color = 0x0f

pub record Console : Type 0 where
  pub vga_buffer : ℕ → ℕ
  pub cursor_row : ℕ
  pub cursor_column : ℕ
  pub serial : List ℕ

-- `(color << 8) | character`, stored in 16 bits.
abbrev pub cell : ℕ → ℕ → ℕ
cell color character = bit_or (color * 2 ^ 8) character % 2 ^ 16

abbrev pub blank : ℕ
blank = 0x0f20

-- `for (column = 0; column < n; column++) vga_buffer[at + column] = blank`
unfoldable pub blank_cells : ℕ → ℕ → (ℕ → ℕ) → ℕ → ℕ
blank_cells zero at vga = vga
blank_cells (suc n) at vga = write (blank_cells n at vga) (at + n) blank

-- `for (column = 0; column < n; column++) vga[to + column] = vga[from + column]`
unfoldable pub copy_cells : ℕ → ℕ → ℕ → (ℕ → ℕ) → ℕ → ℕ
copy_cells zero to from vga = vga
copy_cells (suc n) to from vga =
    let done = copy_cells n to from vga in write done (to + n) (done (from + n))

-- The rows 1 to `n`, each copied to the row above.
unfoldable pub copy_rows : ℕ → (ℕ → ℕ) → ℕ → ℕ
copy_rows zero vga = vga
copy_rows (suc n) vga = copy_cells vga_width (n * vga_width) (suc n * vga_width) (copy_rows n vga)

unfoldable pub scroll : Console → Console
scroll c = record c {
  vga_buffer = blank_cells vga_width ((vga_height - 1) * vga_width) (copy_rows 24 c.vga_buffer);
  cursor_row = vga_height - 1;
}

unfoldable pub scroll_if_needed : Console → Console
scroll_if_needed c = if ltb c.cursor_row vga_height then c else scroll c

-- The rows before `n` made blank.
unfoldable pub blank_rows : ℕ → (ℕ → ℕ) → ℕ → ℕ
blank_rows zero vga = vga
blank_rows (suc n) vga = blank_cells vga_width (n * vga_width) (blank_rows n vga)

unfoldable pub init : Console → Console
init c = record c { cursor_row = 0; cursor_column = 0; vga_buffer = blank_rows 25 c.vga_buffer }

-- `serial_write_char`, once the transmitter is empty.
unfoldable pub serial_write_char : ℕ → Console → Console
serial_write_char character c = record c { serial = u8 character ∷ c.serial }

-- `console_put_char` up to the scrolling.
unfoldable pub put_unscrolled : ℕ → Console → Console
unfolding serial_write_char
put_unscrolled character c =
    let index = c.cursor_row * vga_width + c.cursor_column in
    if character == 10
    then record (serial_write_char 10 (serial_write_char 13 c)) {
      cursor_column = 0;
      cursor_row = c.cursor_row + 1;
    }
    else if character == 13
    then record c { cursor_column = 0 }
    else if character == 8
    then serial_write_char 8 (
        if ltb 0 c.cursor_column
        then record c {
          cursor_column = c.cursor_column - 1;
          vga_buffer = write c.vga_buffer (index - 1) blank;
        }
        else c)
    else (let sent = serial_write_char character (record c {
      vga_buffer = write c.vga_buffer index (cell default_color (u8 character));
    }) in
        if c.cursor_column + 1 == vga_width
        then record sent { cursor_column = 0; cursor_row = c.cursor_row + 1 }
        else record sent { cursor_column = c.cursor_column + 1 })

unfoldable pub put_char : ℕ → Console → Console
unfolding put_unscrolled
put_char character c = scroll_if_needed (put_unscrolled character c)

unfoldable pub write_string : List ℕ → Console → Option Console
write_string [] c = none
write_string (b ∷ string) c =
    let rest = write_string string (put_char b c) in if b == 0 then some c else rest

unfoldable pub put_at : ℤ → ℤ → ℕ → ℕ → Console → Console
put_at (pos row) (pos column) character color c =
    if leb vga_height row || leb vga_width column then c else record c {
      vga_buffer = write c.vga_buffer (row * vga_width + column) (cell color (u8 character));
    }
put_at (pos row) (negsuc column) character color c = c
put_at (negsuc row) column character color c = c

-- The array that `write_unsigned` fills, lowest digit first.
abbrev pub digit_char : ℕ → ℕ
digit_char digit = if ltb digit 10 then b'0' + digit else b'a' + digit - 10

unfoldable pub digits : ℕ → ℕ → ℕ → List ℕ
digits zero value base = []
digits (suc fuel) value base =
    let more = digits fuel (value / base) base in
    digit_char (value % base) ∷ (if value / base == 0 then [] else more)

-- `while (count > 0) console_put_char(digits[--count])`
unfoldable pub put_digits : List ℕ → Console → Console
put_digits [] c = c
put_digits (d ∷ ds) c = put_char d (put_digits ds c)

-- 64 rounds are enough for any 64-bit value.
unfoldable pub write_unsigned : ℕ → ℕ → Console → Console
write_unsigned value base c = put_digits (digits 64 value base) c

-- An argument of `printk`: a 32-bit pattern, or a pointer to a string.
pub data Argument : Type 0 where
  int : ℕ → Argument
  string : Option (List ℕ) → Argument

-- `"(null)"`
abbrev pub null_text : List ℕ
null_text = b'(' ∷ b'n' ∷ b'u' ∷ b'l' ∷ b'l' ∷ b')' ∷ 0 ∷ []

unfoldable pub write_signed : ℕ → Console → Console
write_signed pattern c =
    if ltb pattern (2 ^ 31)
    then write_unsigned pattern 10 c
    else write_unsigned (u32 (2 ^ 32 - pattern - 1 + 1)) 10 (put_char b'-' c)

-- One conversion: the console, and the arguments that are left.
unfoldable pub convert : ℕ → List Argument → Console → Option (Console × List Argument)
convert kind (int n ∷ arguments) c =
    if kind == b'%'
    then some (put_char b'%' c, int n ∷ arguments)
    else if kind == b'c'
    then some (put_char (u8 n) c, arguments)
    else if kind == b's'
    then none
    else if kind == b'd'
    then some (write_signed n c, arguments)
    else if kind == b'u'
    then some (write_unsigned n 10 c, arguments)
    else if kind == b'x'
    then some (write_unsigned n 16 c, arguments)
    else some (put_char kind (put_char b'%' c), int n ∷ arguments)
convert kind (string s ∷ arguments) c =
    if kind == b'%'
    then some (put_char b'%' c, string s ∷ arguments)
    else if kind == b's'
    then (elim s [
      | none ↦ Option.map (λ c'. (c', arguments)) (write_string null_text c)
      | some text ↦ Option.map (λ c'. (c', arguments)) (write_string text c)
    ])
    else if (kind == b'c') || (kind == b'd') || (kind == b'u') || (kind == b'x')
    then none
    else some (put_char kind (put_char b'%' c), string s ∷ arguments)
convert kind [] c =
    if kind == b'%'
    then some (put_char b'%' c, [])
    else if (kind == b's') || (kind == b'c') || (kind == b'd') || (kind == b'u') || (kind == b'x')
    then none
    else some (put_char kind (put_char b'%' c), [])

unfoldable pub printk : List ℕ → List Argument → Console → Option Console
printk [] arguments c = none
printk (b ∷ []) arguments c = if b == 0 then some c else none
printk (b ∷ kind ∷ format) arguments c = elim (b == 0) [
  | true ↦ some c
  | false ↦ elim (b == b'%') [
    | false ↦ printk (kind ∷ format) arguments (put_char b c)
    | true ↦ elim (convert kind arguments c) [
      | none ↦ none
      | some (c', rest) ↦ printk format rest c'
    ]
  ]
]
