-- ===== src/Console/Tests.antt =====
-- The console on a screen of garbage.
use operatingsystem.Common.{◌≡◌, refl, arith, [], ◌∷◌, inl, ◌≤◌, length, none, some}
use mathlib.Core.Option
use operatingsystem.Console.{
  Console, put_char, scroll_if_needed, digits, printk, convert, int, put_digits, write_unsigned,
  write_signed,
}
use operatingsystem.Console.Screen.{OnScreen}
use operatingsystem.Common.{List}
use operatingsystem.Common.Int.{negsuc}
use operatingsystem.Console.Format.{
  Piece, plain, percent, text, null, signed, hex, unknown, format, arguments_of, say, ArePieces,
}
use operatingsystem.Console.Print.{put_all, printk_lem}
use operatingsystem.Console.Digits.{value_of, highest, digits_lem}
use operatingsystem.Common.{◌⊎◌, ◌≢◌, ℕ}

abbrev corner : Console
corner = record { vga_buffer = λ i. i; cursor_row = 24; cursor_column = 79; serial = [] }

abbrev top : Console
top = record { vga_buffer = λ i. i; cursor_row = 0; cursor_column = 0; serial = [] }

corner-OnScreen : OnScreen corner
corner-OnScreen = omega arith

abbrev largest : ℕ
largest = 0xffff_ffff

digits_lem_example :
    (length (digits 64 largest 10) ≤ 16)
    × (value_of 10 (digits 64 largest 10) ≡ largest)
    × ((largest ≡ 0) ⊎ (highest (digits 64 largest 10) ≢ b'0'))
digits_lem_example = digits_lem largest 10 (inl refl) (omega arith)

-- "%d!" of -12, and a format that ends in `%`.
printk_signed :
    Option.map (λ c. c.serial) (printk (b'%' ∷ b'd' ∷ b'!' ∷ 0 ∷ []) (int 0xffff_fff4 ∷ []) top)
    ≡ some (b'!' ∷ b'2' ∷ b'1' ∷ b'-' ∷ [])
unfolding printk convert write_signed write_unsigned put_digits digits put_char scroll_if_needed
printk_signed = refl

printk_percent_last : printk (b'%' ∷ 0 ∷ []) [] top ≡ none
unfolding printk convert put_char scroll_if_needed
printk_percent_last = refl

-- "%s=%d %x%% %s%q", of "a", -12, 255 and a null pointer.
abbrev pieces : List Piece
pieces =
    text (b'a' ∷ [])
    ∷ plain b'='
    ∷ signed (negsuc 11)
    ∷ plain b' '
    ∷ hex 255
    ∷ percent
    ∷ plain b' '
    ∷ null
    ∷ unknown b'q'
    ∷ []

pieces-ArePieces : ArePieces pieces
pieces-ArePieces = ground arith

said :
    say pieces
    ≡ b'a' ∷ b'=' ∷ b'-' ∷ b'1' ∷ b'2' ∷ b' ' ∷ b'f' ∷ b'f' ∷ b'%' ∷ b' ' ∷ b'(' ∷ b'n' ∷ b'u'
      ∷ b'l' ∷ b'l' ∷ b')' ∷ b'%' ∷ b'q' ∷ []
unfolding digits
said = refl

printk_lem_example :
    (printk (format pieces) (arguments_of pieces) corner ≡ some (put_all (say pieces) corner))
    × OnScreen (put_all (say pieces) corner)
    × ((put_all (say pieces) corner).vga_buffer 2000 ≡ corner.vga_buffer 2000)
printk_lem_example = printk_lem pieces corner 2000 pieces-ArePieces corner-OnScreen (omega arith)
