-- ===== src/Console/Format.antt =====
-- What a format of `printk` says, piece by piece, and the text that it stands for.
use operatingsystem.Common.{ℕ, suc, ◌-◌, ◌^◌, ◌<◌, ◌≢◌, u8}
use operatingsystem.Common.{List, [], ◌∷◌, ◌++◌, some, none}
use operatingsystem.Common.Int.{ℤ, pos, negsuc}
use operatingsystem.Console.{Argument, int, string, digits}

-- A character that stands for itself, `%%`, a conversion with its argument, or `%` and another
-- character.
pub data Piece : Type 0 where
  plain : ℕ → Piece
  percent : Piece
  char : ℕ → Piece
  text : List ℕ → Piece
  null : Piece
  signed : ℤ → Piece
  unsigned : ℕ → Piece
  hex : ℕ → Piece
  unknown : ℕ → Piece

-- No terminator among the characters.
abbrev pub IsText : List ℕ → Type 0
IsText [] = Unit {0}
IsText (b ∷ bytes) = (b ≢ 0) × IsText bytes

-- A piece that can be written: characters are what the piece says they are, integers have 32 bits.
abbrev pub IsPiece : Piece → Type 0
IsPiece (plain c) = (c ≢ 0) × (c ≢ b'%')
IsPiece percent = Unit {0}
IsPiece (char c) = Unit {0}
IsPiece (text bytes) = IsText bytes
IsPiece null = Unit {0}
IsPiece (signed (pos n)) = n < 2 ^ 31
IsPiece (signed (negsuc n)) = n < 2 ^ 31
IsPiece (unsigned n) = n < 2 ^ 32
IsPiece (hex n) = n < 2 ^ 32
IsPiece (unknown k) =
    (k ≢ b'%') × (k ≢ b'c') × (k ≢ b's') × (k ≢ b'd') × (k ≢ b'u') × (k ≢ b'x') × (k ≢ 0)

abbrev pub ArePieces : List Piece → Type 0
ArePieces [] = Unit {0}
ArePieces (p ∷ ps) = IsPiece p × ArePieces ps

-- The format, a C string.
abbrev pub format : List Piece → List ℕ
format [] = 0 ∷ []
format (plain c ∷ ps) = c ∷ format ps
format (percent ∷ ps) = b'%' ∷ b'%' ∷ format ps
format (char c ∷ ps) = b'%' ∷ b'c' ∷ format ps
format (text bytes ∷ ps) = b'%' ∷ b's' ∷ format ps
format (null ∷ ps) = b'%' ∷ b's' ∷ format ps
format (signed z ∷ ps) = b'%' ∷ b'd' ∷ format ps
format (unsigned n ∷ ps) = b'%' ∷ b'u' ∷ format ps
format (hex n ∷ ps) = b'%' ∷ b'x' ∷ format ps
format (unknown k ∷ ps) = b'%' ∷ k ∷ format ps

-- Two's complement.
abbrev pub pattern_of : ℤ → ℕ
pattern_of (pos n) = n
pattern_of (negsuc n) = 2 ^ 32 - suc n

-- The arguments after the format.
abbrev pub arguments_of : List Piece → List Argument
arguments_of [] = []
arguments_of (plain c ∷ ps) = arguments_of ps
arguments_of (percent ∷ ps) = arguments_of ps
arguments_of (char c ∷ ps) = int c ∷ arguments_of ps
arguments_of (text bytes ∷ ps) = string (some (bytes ++ (0 ∷ []))) ∷ arguments_of ps
arguments_of (null ∷ ps) = string none ∷ arguments_of ps
arguments_of (signed z ∷ ps) = int (pattern_of z) ∷ arguments_of ps
arguments_of (unsigned n ∷ ps) = int n ∷ arguments_of ps
arguments_of (hex n ∷ ps) = int n ∷ arguments_of ps
arguments_of (unknown k ∷ ps) = arguments_of ps

abbrev pub backwards : List ℕ → List ℕ
backwards [] = []
backwards (d ∷ ds) = backwards ds ++ (d ∷ [])

-- The digits of a number, the highest first.
abbrev pub numeral : ℕ → ℕ → List ℕ
numeral base n = backwards (digits 64 n base)

abbrev pub says : Piece → List ℕ
says (plain c) = c ∷ []
says percent = b'%' ∷ []
says (char c) = u8 c ∷ []
says (text bytes) = bytes
says null = b'(' ∷ b'n' ∷ b'u' ∷ b'l' ∷ b'l' ∷ b')' ∷ []
says (signed (pos n)) = numeral 10 n
says (signed (negsuc n)) = b'-' ∷ numeral 10 (suc n)
says (unsigned n) = numeral 10 n
says (hex n) = numeral 16 n
says (unknown k) = b'%' ∷ k ∷ []

abbrev pub say : List Piece → List ℕ
say [] = []
say (p ∷ ps) = says p ++ say ps
