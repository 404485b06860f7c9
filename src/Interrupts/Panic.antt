-- ===== src/Interrupts/Panic.antt =====
-- The screen that `exception_handler` leaves.
use operatingsystem.Common.{
  ℕ, zero, suc, ◌+◌, ◌-◌, ◌*◌, ◌/◌, ◌%◌, ◌^◌, ◌≤◌, ◌<◌, ◌≡◌, ◌⊎◌, refl, ap, ◌∙◌, arith,
}
use operatingsystem.Common.{
  List, [], ◌∷◌, get_or, get_elem?-get_or, Option, none, some, write, write_lem, bit_and, and-ones,
}
use operatingsystem.Common.{
  Bool, true, false, ◌&&◌, ◌==◌, ==_iff, ltb, leb, if◌then◌else◌, all_below, all_below_sound, inl,
  inr,
}
use operatingsystem.Common.{dec_lt, ℕ_discrete}
use operatingsystem.Interrupts.{
  Machine, red_cell, hex_char, print_name, print_code, panic_print, exception_names,
  exception_handler,
}

-- The length of a C string in an array, `none` without a terminator.
unfoldable pub strlen : List ℕ → Option ℕ
strlen [] = none
strlen (c ∷ str) =
    let rest = strlen str in
    if c == 0 then some 0 else elim rest [ none ↦ none | some n ↦ some (suc n) ]

-- A cell that shows a character white on red.
abbrev pub white_on_red : ℕ → ℕ
white_on_red character = 0x4f00 + character

-- The hexadecimal digits, in the order of their values.
abbrev pub hex_digits : List ℕ
hex_digits =
    b'0' ∷ b'1' ∷ b'2' ∷ b'3' ∷ b'4' ∷ b'5' ∷ b'6' ∷ b'7' ∷ b'8' ∷ b'9' ∷ b'A' ∷ b'B' ∷ b'C' ∷ b'D'
    ∷ b'E' ∷ b'F' ∷ []

-- The cell of the hexadecimal digit of the value `16 ^ j`.
pub hex_cell : ℕ → ℕ → ℕ
hex_cell code j = white_on_red (get_or hex_digits (code / 2 ^ (4 * j) % 16) 0)

cells_show : all_below 256 (λ c. red_cell c == white_on_red c) ≡ true
unfolding all_below
cells_show = refl

red_cell_lem : (c : ℕ) → c < 256 → red_cell c ≡ white_on_red c
red_cell_lem c h =
    (==_iff _ _).0 (all_below_sound 256 (λ c. red_cell c == white_on_red c) c cells_show h)

digits_show :
    all_below 16 (λ d. red_cell (hex_char d) == white_on_red (get_or hex_digits d 0)) ≡ true
unfolding all_below
digits_show = refl

code_cell : (n code : ℕ) → red_cell (hex_char (bit_and (code / 2 ^ (4 * n)) 0xf)) ≡ hex_cell code n
unfolding hex_cell
code_cell n code = rw (and-ones 4 (code / 2 ^ (4 * n))) (
    (==_iff _ _).0 (
      all_below_sound 16 (λ d. red_cell (hex_char d) == white_on_red (get_or hex_digits d 0))
        (code / 2 ^ (4 * n) % 16) digits_show (omega arith)))

-- Characters of one byte each.
unfoldable pub are_bytes : List ℕ → Bool
are_bytes [] = true
are_bytes (c ∷ str) = ltb c 256 && are_bytes str

byte_of : (str : List ℕ) (i : ℕ) → are_bytes str ≡ true → get_or str i 0 < 256
unfolding are_bytes
byte_of [] i h = omega arith
byte_of (c ∷ str) zero h = ground (arith, h)
byte_of (c ∷ str) (suc i) h = byte_of str i (ground (arith, h))

print_code_lem :
    (n code col : ℕ) (vga : ℕ → ℕ) (i : ℕ)
    → print_code n code col vga i
      ≡ (if leb col i && ltb i (col + n) then hex_cell code (n - 1 - (i - col)) else vga i)
unfolding print_code
print_code_lem zero code col vga i = ground arith
print_code_lem (suc n) code col vga i = rw (code_cell n code) (
    print_code_lem n code (col + 1) (write vga col (hex_cell code n)) i
    ∙ rw (write_lem vga col (hex_cell code n) i) (elim (ℕ_discrete i col) [
      | yes e ↦
          let first : n ≡ suc n - 1 - (i - col) = omega arith in
          ground (arith, ap (hex_cell code) first)
      | no ne ↦ elim (dec_lt col i) [
        | yes after ↦
            let next : n - 1 - (i - (col + 1)) ≡ suc n - 1 - (i - col) = omega arith in
            ground (arith, ap (hex_cell code) next)
        | no before ↦ ground arith
      ]
    ]))

strlen-cases :
    (c : ℕ) (str : List ℕ) (n : ℕ)
    → strlen (c ∷ str) ≡ some n
    → (((c == 0) ≡ true) × (n ≡ 0))
      ⊎ (((c == 0) ≡ false) × ((k : ℕ) × (n ≡ suc k) × (strlen str ≡ some k)))
unfolding strlen
strlen-cases c str n h = go (c == 0) (strlen str) h
  where
    go :
        (b : Bool) (rest : Option ℕ)
        → (if b then some 0 else elim rest [ none ↦ none | some k ↦ some (suc k) ]) ≡ some n
        → ((b ≡ true) × (n ≡ 0)) ⊎ ((b ≡ false) × ((k : ℕ) × (n ≡ suc k) × (rest ≡ some k)))
    go true rest e = inl (refl, cc)
    go false none e = cc
    go false (some k) e = inr (refl, (k, cc, refl))

-- What the first loop leaves: `n` cells from `col` on hold the string.
abbrev Named : List ℕ → ℕ → ℕ → (ℕ → ℕ) → Option (ℕ × (ℕ → ℕ)) → Type 0
Named str n col vga r =
    (after : ℕ → ℕ) × (r ≡ some (col + n, after))
    × ((i : ℕ)
        → after i
          ≡ (if leb col i && ltb i (col + n) then red_cell (get_or str (i - col) 0) else vga i))

get_or-suc :
    (c : ℕ) (str : List ℕ) (col i : ℕ)
    → col < i
    → get_or (c ∷ str) (i - col) 0 ≡ get_or str (i - (col + 1)) 0
get_or-suc c str col i h =
    let next : i - col ≡ suc (i - (col + 1)) = omega arith in ap (λ j. get_or (c ∷ str) j 0) next

Named-suc :
    (c : ℕ) (str : List ℕ) (k col : ℕ) (vga : ℕ → ℕ) (r : Option (ℕ × (ℕ → ℕ)))
    → Named str k (col + 1) (write vga col (red_cell c)) r
    → Named (c ∷ str) (suc k) col vga r
Named-suc c str k col vga r (after, e, cells) = (
  after,
  e ∙ ap (λ j. some (j, after)) (omega arith),
  λ i.
      cells i
      ∙ rw (write_lem vga col (red_cell c) i) (elim (ℕ_discrete i col) [
        | yes here ↦
            let first : i - col ≡ 0 = omega arith in
            ground (arith, ap (λ j. get_or (c ∷ str) j 0) first)
        | no ne ↦ elim (dec_lt col i) [
          | yes after_it ↦ ground (arith, get_or-suc c str col i after_it)
          | no before ↦ ground arith
        ]
      ]),
)

print_name-more :
    (c : ℕ) (str : List ℕ) (col : ℕ) (vga : ℕ → ℕ)
    → (c == 0) ≡ false
    → print_name (c ∷ str) col vga ≡ print_name str (col + 1) (write vga col (red_cell c))
unfolding print_name
print_name-more c str col vga more = rw more refl

print_name_lem :
    (str : List ℕ) (n col : ℕ) (vga : ℕ → ℕ)
    → strlen str ≡ some n
    → Named str n col vga (print_name str col vga)
print_name_lem [] n col vga h = let e : strlen [] ≡ none = unfold strlen in refl in cc
print_name_lem (c ∷ str) n col vga h = elim (strlen-cases c str n h) [
  | inl (stop, z) ↦
      rw z (
        unfold print_name in
        rw stop (vga, ap (λ j. some (j, vga)) (omega arith), λ i. ground arith))
  | inr (more, (k, e, rest)) ↦
      rw (e, print_name-more c str col vga more)
        (Named-suc c str k col vga _ (print_name_lem str k (col + 1) _ rest))
]

-- The second row of the screen, whose first `n` cells hold the text, then a gap and the sixteen
-- digits of the code; the other cells are as before.
pub record PanicRow (str : List ℕ) (n code : ℕ) (before after : ℕ → ℕ) : Type 0 where
  pub text : (i : ℕ) → i < n → after (80 + i) ≡ white_on_red (get_or str i 0)
  pub gap : after (80 + n) ≡ white_on_red b' '
  pub digits : (j : ℕ) → j < 16 → after (81 + n + j) ≡ hex_cell code (15 - j)
  pub above : (i : ℕ) → i < 80 → after i ≡ before i
  pub below : (i : ℕ) → 97 + n ≤ i → after i ≡ before i

row-PanicRow :
    (str : List ℕ) (n code : ℕ) (vga after : ℕ → ℕ)
    → are_bytes str ≡ true
    → ((i : ℕ)
        → after i ≡ (
            if leb (81 + n) i && ltb i (97 + n)
            then hex_cell code (15 - (i - (81 + n)))
            else if i == 80 + n
            then red_cell b' '
            else if leb 80 i && ltb i (80 + n)
            then red_cell (get_or str (i - 80) 0)
            else vga i))
    → PanicRow str n code vga after
row-PanicRow str n code vga after bytes cells = record {
  text = λ i h.
      let place : 80 + i - 80 ≡ i = omega arith in
      cells (80 + i)
      ∙ ground (arith, ap (λ j. get_or str j 0) place)
      ∙ red_cell_lem (get_or str i 0) (byte_of str i bytes);
  gap = cells (80 + n) ∙ ground arith ∙ red_cell_lem b' ' (omega arith);
  digits = λ j h.
      let place : 15 - (81 + n + j - (81 + n)) ≡ 15 - j = omega arith in
      cells (81 + n + j) ∙ ground (arith, ap (hex_cell code) place);
  above = λ i h. cells i ∙ ground arith;
  below = λ i h. cells i ∙ ground arith;
}

panic_print-eq :
    (str : List ℕ) (code col : ℕ) (vga named : ℕ → ℕ)
    → print_name str 80 vga ≡ some (col, named)
    → panic_print str code vga
      ≡ some (print_code 16 code (col + 1) (write named col (red_cell b' ')))
unfolding panic_print
panic_print-eq str code col vga named e = rw (panic_print, e) refl

panic_print_lem :
    (str : List ℕ) (n code : ℕ) (vga : ℕ → ℕ)
    → are_bytes str ≡ true
    → strlen str ≡ some n
    → (after : ℕ → ℕ) × (panic_print str code vga ≡ some after) × PanicRow str n code vga after
panic_print_lem str n code vga bytes h =
    let (named, e, cells) = print_name_lem str n 80 vga h in
    let gapped = write named (80 + n) (red_cell b' ') in
    (
      print_code 16 code (80 + n + 1) gapped,
      panic_print-eq str code (80 + n) vga named e,
      row-PanicRow str n code vga _ bytes (λ i.
          print_code_lem 16 code (80 + n + 1) gapped i
          ∙ rw (write_lem named (80 + n) (red_cell b' ') i, cells i)
              (let place : 16 - 1 - (i - (80 + n + 1)) ≡ 15 - (i - (81 + n)) = omega arith in
                ground (arith, ap (hex_cell code) place))),
    )

-- A text that leaves room for the gap and the digits in the row.
fits : Option ℕ → Bool
fits none = false
fits (some n) = leb (n + 17) 80

names_fit : all_below 32 (λ k. fits (strlen (get_or exception_names k []))) ≡ true
unfolding fits strlen all_below
names_fit = refl

names_bytes : all_below 32 (λ k. are_bytes (get_or exception_names k [])) ≡ true
unfolding are_bytes all_below
names_bytes = refl

fits-some : (r : Option ℕ) → fits r ≡ true → (n : ℕ) × (r ≡ some n) × (n + 17 ≤ 80)
unfolding fits
fits-some none h = cc
fits-some (some n) h = (n, refl, ground arith)

-- `exception_handler` for a vector below 32: it halts the processor with the name of the exception,
-- a gap and the sixteen hexadecimal digits of the error code, the highest first, white on red in
-- the second row of the screen, none of which leaves the row; every other cell and all the rest of the machine is as it was.
pub exception_handler_lem :
    (interrupt_number error_code : ℕ) (m : Machine)
    → interrupt_number < 32
    → let name = get_or exception_names interrupt_number [] in
      (n : ℕ) × (after : ℕ → ℕ) × (n + 17 ≤ 80)
      × (strlen name ≡ some n)
      × PanicRow name n error_code m.console.vga_buffer after
      × (exception_handler interrupt_number error_code m
          ≡ some (record m { console = record m.console { vga_buffer = after }; halted = true }))
unfolding exception_handler
exception_handler_lem number code m h =
    let name = get_or exception_names number [] in
    let (n, e, room) = fits-some (strlen name) (all_below_sound 32 _ number names_fit h) in
    let bytes =
      all_below_sound 32 (λ k. are_bytes (get_or exception_names k [])) number names_bytes h in
    let (after, p, row) = panic_print_lem name n code m.console.vga_buffer bytes e in
    (n, after, room, e, row, rw (get_elem?-get_or exception_names number [] h, p) refl)
