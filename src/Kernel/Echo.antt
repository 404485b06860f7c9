-- ===== src/Kernel/Echo.antt =====
-- The echo of what was typed.
use operatingsystem.Common.{
  ℕ, zero, suc, ◌+◌, ◌-◌, ◌*◌, ◌≤◌, ◌<◌, ◌≡◌, ◌⊎◌, inl, inr, refl, sym, ap, ◌∙◌, arith,
}
use operatingsystem.Common.{List, [], ◌∷◌, length, write_lem}
use operatingsystem.Common.{true, false, ◌==◌, ltb, leb, Bool-cases, u8}
use operatingsystem.Common.Int.{pos}
use operatingsystem.Console.{Console, put_at, cell}
use operatingsystem.Keyboard.{Keyboard, char_available, read_char}
use operatingsystem.Keyboard.Ring.{
  IsRing, waiting, contents, length-contents, read_char-IsRing, read_char-contents,
}
use operatingsystem.Keyboard.Typist.{read_queue}
use operatingsystem.Kernel.{Display, show_keyboard_input, echo}

-- The cell is in another row than 6.
abbrev pub OffRow : ℕ → Type 0
OffRow i = (i < 480) ⊎ (560 ≤ i)

put_at-row :
    (column character : ℕ) (c : Console) (i : ℕ)
    → column < 80
    → OffRow i
    → (put_at (pos 6) (pos column) character 0x0f c).vga_buffer i ≡ c.vga_buffer i
unfolding put_at
put_at-row column character c i h off =
    ground (arith, write_lem c.vga_buffer (6 * 80 + column) (cell 0x0f (u8 character)) i)

put_at-cursor :
    (column character : ℕ) (c : Console)
    → ((put_at (pos 6) (pos column) character 0x0f c).cursor_row ≡ c.cursor_row)
      × ((put_at (pos 6) (pos column) character 0x0f c).cursor_column ≡ c.cursor_column)
unfolding put_at
put_at-cursor column character c = elim (Bool-cases (leb 80 column)) [
  | inl out ↦ rw out (refl, refl)
  | inr on ↦ rw on (refl, refl)
]

-- A character changes no cell of another row, and the column stays in the row.
abbrev Kept : Display → Display → Type 0
Kept d d' =
    (d'.keyboard_column < 80)
    × ((i : ℕ) → OffRow i → d'.console.vga_buffer i ≡ d.console.vga_buffer i)
    × (d'.console.cursor_row ≡ d.console.cursor_row)
    × (d'.console.cursor_column ≡ d.console.cursor_column)

show-Kept :
    (character : ℕ) (d : Display)
    → d.keyboard_column < 80
    → Kept d (show_keyboard_input character d)
unfolding show_keyboard_input
show-Kept character d h = elim (Bool-cases (character == 8)) [
  | inl back ↦ rw back (elim (Bool-cases (ltb 0 d.keyboard_column)) [
    | inl some_left ↦
        let column = d.keyboard_column - 1 in
        let cursor = put_at-cursor column b' ' d.console in
        rw some_left (
          omega arith,
          λ i off. put_at-row column b' ' d.console i (omega arith) off,
          cursor.0,
          cursor.1,
        )
    | inr start ↦ rw start (h, λ i off. refl, refl, refl)
  ])
  | inr other ↦ rw other (elim (Bool-cases (character == 10)) [
    | inl line ↦ rw line (omega arith, λ i off. refl, refl, refl)
    | inr shown ↦
        let cursor = put_at-cursor d.keyboard_column character d.console in
        rw shown (
          omega arith,
          λ i off. put_at-row d.keyboard_column character d.console i h off,
          cursor.0,
          cursor.1,
        )
  ])
]

-- The characters shown one after the other.
abbrev pub show_all : List ℕ → Display → Display
show_all [] d = d
show_all (c ∷ q) d = show_all q (show_keyboard_input c d)

show_all-Kept : (q : List ℕ) (d : Display) → d.keyboard_column < 80 → Kept d (show_all q d)
show_all-Kept [] d h = (h, λ i off. refl, refl, refl)
show_all-Kept (c ∷ q) d h =
    let first = show-Kept c d h in
    let rest = show_all-Kept q (show_keyboard_input c d) first.0 in
    (rest.0, λ i off. rest.1 i off ∙ first.1 i off, rest.2 ∙ first.2, rest.3 ∙ first.3)

-- The loop has ended with the characters shown.
abbrev Echoed : List ℕ → Display → Keyboard × Display → Type 0
Echoed q d r = (char_available r.0 ≡ false) × IsRing r.0 × (r.1 ≡ show_all q d)

nothing_waits : (k : Keyboard) → IsRing k → waiting k ≡ 0 → char_available k ≡ false
unfolding char_available
nothing_waits k r e = ground (arith, e)

something_waits : (k : Keyboard) → IsRing k → 0 < waiting k → char_available k ≡ true
unfolding char_available
something_waits k r h = ground (arith, h)

first_waits : (c : ℕ) (q : List ℕ) → read_queue (c ∷ q) ≡ (c, q)
unfolding read_queue
first_waits c q = refl

echo-Echoed :
    (fuel : ℕ) (k : Keyboard) (d : Display) (q : List ℕ)
    → IsRing k
    → contents k ≡ q
    → length q ≤ fuel
    → Echoed q d (echo fuel k d)
unfolding echo
echo-Echoed zero k d [] r e h = (nothing_waits k r (sym (length-contents k) ∙ ap length e), r, refl)
echo-Echoed zero k d (c ∷ q) r e h = absurd (omega arith)
echo-Echoed (suc fuel) k d [] r e h =
    let none_left = nothing_waits k r (sym (length-contents k) ∙ ap length e) in
    rw none_left (none_left, r, refl)
echo-Echoed (suc fuel) k d (c ∷ q) r e h =
    let size : length (c ∷ q) ≡ waiting k = ap length (sym e) ∙ length-contents k in
    let taken = read_char-contents k r ∙ ap read_queue e ∙ first_waits c q in
    let first : (read_char k).0 ≡ c = ap (λ (p : ℕ × List ℕ). p.0) taken in
    let left : contents (read_char k).1 ≡ q = ap (λ (p : ℕ × List ℕ). p.1) taken in
    rw (something_waits k r (omega (arith, size)), first)
      (echo-Echoed fuel (read_char k).1 (show_keyboard_input c d) q (read_char-IsRing k r) left
        (omega arith))

-- From a driver whose ring is well formed and a column in the row, 63 rounds are enough for the loop
-- over the characters that wait: it ends with none waiting and the ring well formed, and has shown
-- those that waited, each once and in their order; it changes no cell outside row 6 and no cursor,
-- and leaves the column in the row.
pub echo_lem :
    (k : Keyboard) (d : Display)
    → IsRing k
    → d.keyboard_column < 80
    → let r = echo 63 k d in
      (char_available r.0 ≡ false)
      × IsRing r.0
      × (r.1 ≡ show_all (contents k) d)
      × (r.1.keyboard_column < 80)
      × ((i : ℕ) → OffRow i → r.1.console.vga_buffer i ≡ d.console.vga_buffer i)
      × (r.1.console.cursor_row ≡ d.console.cursor_row)
      × (r.1.console.cursor_column ≡ d.console.cursor_column)
echo_lem k d r h =
    let e = echo-Echoed 63 k d (contents k) r refl (omega (arith, length-contents k)) in
    let kept = show_all-Kept (contents k) d h in
    (e.0, e.1, e.2, rw (e.2) kept.0, rw (e.2) kept.1, rw (e.2) kept.2, rw (e.2) kept.3)
