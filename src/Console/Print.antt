-- ===== src/Console/Print.antt =====
-- `printk` writes the text that its format and arguments stand for.
use operatingsystem.Common.{ℕ, suc, ◌+◌, ◌-◌, ◌^◌, ◌≤◌, ◌≡◌, refl, sym, ap, ◌∙◌, arith, u32}
use operatingsystem.Common.{List, [], ◌∷◌, ◌++◌, some, true, false, ltb, ==-eq-false}
use operatingsystem.Common.Int.{ℤ, pos, negsuc}
use operatingsystem.Console.{
  Console, Argument, int, string, put_char, put_digits, digits, write_string, write_unsigned,
  write_signed, convert, printk,
}
use operatingsystem.Console.Screen.{OnScreen, put_char-OnScreen}
use operatingsystem.Console.Format.{
  Piece, plain, percent, char, text, null, signed, unsigned, hex, unknown, IsText, IsPiece,
  ArePieces, format, pattern_of, arguments_of, backwards, numeral, says, say,
}

-- The characters of a text, one after the other.
abbrev pub put_all : List ℕ → Console → Console
put_all [] c = c
put_all (b ∷ bytes) c = put_all bytes (put_char b c)

put_all-append : (x y : List ℕ) (c : Console) → put_all (x ++ y) c ≡ put_all y (put_all x c)
put_all-append [] y c = refl
put_all-append (b ∷ x) y c = put_all-append x y (put_char b c)

put_digits_lem : (ds : List ℕ) (c : Console) → put_digits ds c ≡ put_all (backwards ds) c
unfolding put_digits
put_digits_lem [] c = refl
put_digits_lem (d ∷ ds) c =
    ap (put_char d) (put_digits_lem ds c) ∙ sym (put_all-append (backwards ds) (d ∷ []) c)

write_string_lem :
    (bytes : List ℕ) (c : Console)
    → IsText bytes
    → write_string (bytes ++ (0 ∷ [])) c ≡ some (put_all bytes c)
unfolding write_string
write_string_lem [] c t = refl
write_string_lem (b ∷ bytes) c t =
    rw (write_string, ==-eq-false t.0) (write_string_lem bytes (put_char b c) t.1)

write_unsigned_lem :
    (n base : ℕ) (c : Console) → write_unsigned n base c ≡ put_all (numeral base n) c
unfolding write_unsigned
write_unsigned_lem n base c = put_digits_lem (digits 64 n base) c

write_signed_lem :
    (z : ℤ) (c : Console)
    → IsPiece (signed z)
    → write_signed (pattern_of z) c ≡ put_all (says (signed z)) c
unfolding write_signed
write_signed_lem (pos n) c small =
    let positive : ltb n (2 ^ 31) ≡ true = ground arith in
    rw (write_signed, positive) (write_unsigned_lem n 10 c)
write_signed_lem (negsuc n) c small =
    let negative : ltb (2 ^ 32 - suc n) (2 ^ 31) ≡ false = ground arith in
    let size : u32 (2 ^ 32 - (2 ^ 32 - suc n) - 1 + 1) ≡ suc n = omega arith in
    rw (write_signed, negative, size) (write_unsigned_lem (suc n) 10 (put_char b'-' c))

convert-percent :
    (arguments : List Argument) (c : Console)
    → convert b'%' arguments c ≡ some (put_char b'%' c, arguments)
unfolding convert
convert-percent [] c = refl
convert-percent (int n ∷ arguments) c = refl
convert-percent (string s ∷ arguments) c = refl

convert-unknown :
    (k : ℕ) (arguments : List Argument) (c : Console)
    → IsPiece (unknown k)
    → convert k arguments c ≡ some (put_char k (put_char b'%' c), arguments)
unfolding convert
convert-unknown k [] c (p, ch, s, d, u, x, z) =
    rw
      (
        convert,
        ==-eq-false p,
        ==-eq-false ch,
        ==-eq-false s,
        ==-eq-false d,
        ==-eq-false u,
        ==-eq-false x,
      )
      refl
convert-unknown k (int n ∷ arguments) c (p, ch, s, d, u, x, z) =
    rw
      (
        convert,
        ==-eq-false p,
        ==-eq-false ch,
        ==-eq-false s,
        ==-eq-false d,
        ==-eq-false u,
        ==-eq-false x,
      )
      refl
convert-unknown k (string t ∷ arguments) c (p, ch, s, d, u, x, z) =
    rw
      (
        convert,
        ==-eq-false p,
        ==-eq-false ch,
        ==-eq-false s,
        ==-eq-false d,
        ==-eq-false u,
        ==-eq-false x,
      )
      refl

format-cons : (ps : List Piece) → (k : ℕ) × (rest : List ℕ) × (format ps ≡ k ∷ rest)
format-cons [] = (0, [], refl)
format-cons (plain c ∷ ps) = (c, format ps, refl)
format-cons (percent ∷ ps) = (_, _, refl)
format-cons (char c ∷ ps) = (_, _, refl)
format-cons (text bytes ∷ ps) = (_, _, refl)
format-cons (null ∷ ps) = (_, _, refl)
format-cons (signed z ∷ ps) = (_, _, refl)
format-cons (unsigned n ∷ ps) = (_, _, refl)
format-cons (hex n ∷ ps) = (_, _, refl)
format-cons (unknown k ∷ ps) = (_, _, refl)

printk-plain :
    (b : ℕ) (ps : List Piece) (arguments : List Argument) (c : Console)
    → IsPiece (plain b)
    → printk (b ∷ format ps) arguments c ≡ printk (format ps) arguments (put_char b c)
printk-plain b ps arguments c p =
    let (k, rest, e) = format-cons ps in
    rw e (unfold printk in rw (printk, ==-eq-false p.0, ==-eq-false p.1) refl)

printk-convert :
    (k : ℕ) (rest : List ℕ) (before after : List Argument) (c c' : Console)
    → convert k before c ≡ some (c', after)
    → printk (b'%' ∷ k ∷ rest) before c ≡ printk rest after c'
unfolding printk
printk-convert k rest before after c c' e = rw (printk, e) refl

put_all-OnScreen :
    (bytes : List ℕ) (c : Console) (i : ℕ)
    → OnScreen c
    → 2000 ≤ i
    → OnScreen (put_all bytes c) × ((put_all bytes c).vga_buffer i ≡ c.vga_buffer i)
put_all-OnScreen [] c i o h = (o, refl)
put_all-OnScreen (b ∷ bytes) c i o h =
    let (o', e) = put_char-OnScreen b c i o h in
    let (o'', e') = put_all-OnScreen bytes (put_char b c) i o' h in (o'', e' ∙ e)

printk-put_all :
    (ps : List Piece) (c : Console)
    → ArePieces ps
    → printk (format ps) (arguments_of ps) c ≡ some (put_all (say ps) c)
printk-put_all [] c a = unfold printk in refl
printk-put_all (p ∷ ps) c a =
    step p a.0
    ∙ printk-put_all ps (put_all (says p) c) a.1
    ∙ ap some (sym (put_all-append (says p) (say ps) c))
  where
    converted :
        (k : ℕ) (before : List Argument) (c' : Console)
        → convert k before c ≡ some (c', arguments_of ps)
        → printk (b'%' ∷ k ∷ format ps) before c ≡ printk (format ps) (arguments_of ps) c'
    converted k before c' = printk-convert k (format ps) before (arguments_of ps) c c'

    step :
        (p : Piece)
        → IsPiece p
        → printk (format (p ∷ ps)) (arguments_of (p ∷ ps)) c
          ≡ printk (format ps) (arguments_of ps) (put_all (says p) c)
    step (plain b) q = printk-plain b ps (arguments_of ps) c q
    step percent q = converted b'%' _ _ (convert-percent (arguments_of ps) c)
    step (char n) q = converted b'c' _ _ (unfold convert in refl)
    step (text bytes) q =
        converted b's' _ _ (unfold convert in rw (write_string_lem bytes c q) refl)
    step null q = converted b's' _ _ (unfold convert write_string in refl)
    step (signed z) q =
        converted b'd' _ _
          (unfold convert in ap (λ c'. some (c', arguments_of ps)) (write_signed_lem z c q))
    step (unsigned n) q =
        converted b'u' _ _
          (unfold convert in ap (λ c'. some (c', arguments_of ps)) (write_unsigned_lem n 10 c))
    step (hex n) q =
        converted b'x' _ _
          (unfold convert in ap (λ c'. some (c', arguments_of ps)) (write_unsigned_lem n 16 c))
    step (unknown k) q = converted k _ _ (convert-unknown k (arguments_of ps) c q)

-- From a cursor on the screen, and for a format made up of plain characters, `%%`, the conversions
-- `%c`, `%s`, `%d`, `%u` and `%x`, and `%` before any other character, with the arguments that they
-- call for, integers of 32 bits and strings, of which any may be a null pointer: `printk` returns, it
-- has put on the console exactly the characters that the pieces stand for, in their order, it
-- leaves the cursor on the screen, and it changes no cell outside the 2000 of the text buffer.
pub printk_lem :
    (ps : List Piece) (c : Console) (i : ℕ)
    → ArePieces ps
    → OnScreen c
    → 2000 ≤ i
    → (printk (format ps) (arguments_of ps) c ≡ some (put_all (say ps) c))
      × OnScreen (put_all (say ps) c)
      × ((put_all (say ps) c).vga_buffer i ≡ c.vga_buffer i)
printk_lem ps c i a o h =
    let (on_screen, outside) = put_all-OnScreen (say ps) c i o h in
    (printk-put_all ps c a, on_screen, outside)
