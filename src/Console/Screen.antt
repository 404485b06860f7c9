-- ===== src/Console/Screen.antt =====
-- The cursor stays on the screen, nothing is written outside it, and scrolling moves every row up.
use operatingsystem.Common.{
  ℕ, zero, suc, ◌+◌, ◌-◌, ◌*◌, ◌≤◌, ◌<◌, ◌≡◌, refl, arith, write, write_lem,
}
use operatingsystem.Common.{leb, ltb, if◌then◌else◌, ◌&&◌, Bool-cases, inl, inr}
use operatingsystem.Console.{Console, blank, blank_cells, copy_cells, copy_rows}
use operatingsystem.Console.{scroll, scroll_if_needed, put_unscrolled, put_char}

pub record OnScreen (c : Console) : Type 0 where
  pub row_in : c.cursor_row < 25
  pub column_in : c.cursor_column < 80

blank_cells_lem :
    (n at : ℕ) (vga : ℕ → ℕ) (i : ℕ)
    → blank_cells n at vga i ≡ (if leb at i && ltb i (at + n) then blank else vga i)
unfolding blank_cells
blank_cells_lem zero at vga i = ground arith
blank_cells_lem (suc n) at vga i =
    ground (arith, write_lem (blank_cells n at vga) (at + n) blank i, blank_cells_lem n at vga i)

copy_cells_lem :
    (n to from : ℕ) (vga : ℕ → ℕ) (i : ℕ)
    → to + n ≤ from
    → copy_cells n to from vga i
      ≡ (if leb to i && ltb i (to + n) then vga (from + (i - to)) else vga i)
unfolding copy_cells
copy_cells_lem zero to from vga i h = ground arith
copy_cells_lem (suc n) to from vga i h = ground (
  arith,
  write_lem (copy_cells n to from vga) (to + n) (copy_cells n to from vga (from + n)) i,
  copy_cells_lem n to from vga i,
  copy_cells_lem n to from vga (from + n),
)

copy_rows_lem :
    (n : ℕ) (vga : ℕ → ℕ) (i : ℕ)
    → copy_rows n vga i ≡ (if ltb i (n * 80) then vga (i + 80) else vga i)
unfolding copy_rows
copy_rows_lem zero vga i = ground arith
copy_rows_lem (suc n) vga i = ground (
  arith,
  copy_cells_lem 80 (n * 80) (suc n * 80) (copy_rows n vga) i,
  copy_rows_lem n vga i,
  copy_rows_lem n vga (i + 80),
  copy_rows_lem n vga (suc n * 80 + (i - n * 80)),
)

-- Scrolling moves every row up by one, clears the last row, touches no cell outside the screen and
-- sets the cursor in the last row.
pub scroll_lem :
    (c : Console) (i : ℕ)
    → ((scroll c).vga_buffer i ≡ (
        if ltb i 1920 then c.vga_buffer (i + 80) else if ltb i 2000 then blank else c.vga_buffer i))
      × ((scroll c).cursor_row ≡ 24)
      × ((scroll c).cursor_column ≡ c.cursor_column)
unfolding scroll
scroll_lem c i = (
  ground (
    arith,
    blank_cells_lem 80 1920 (copy_rows 24 c.vga_buffer) i,
    copy_rows_lem 24 c.vga_buffer i,
  ),
  refl,
  refl,
)

-- What `console_put_char` has written when it comes to the scrolling.
put_unscrolled_lem :
    (ch : ℕ) (c : Console) (i : ℕ)
    → OnScreen c
    → 2000 ≤ i
    → ((put_unscrolled ch c).cursor_row ≤ 25)
      × ((put_unscrolled ch c).cursor_column < 80)
      × ((put_unscrolled ch c).vga_buffer i ≡ c.vga_buffer i)
unfolding put_unscrolled write
put_unscrolled_lem ch c i v h = ground arith

-- From a cursor on the screen, `console_put_char` of any character leaves the cursor on the screen
-- and changes no cell outside the 2000 cells of the text buffer.
pub put_char-OnScreen :
    (ch : ℕ) (c : Console) (i : ℕ)
    → OnScreen c
    → 2000 ≤ i
    → OnScreen (put_char ch c) × ((put_char ch c).vga_buffer i ≡ c.vga_buffer i)
unfolding put_char scroll_if_needed
put_char-OnScreen ch c i v h = elim (Bool-cases (ltb (put_unscrolled ch c).cursor_row 25)) [
  | inl fits ↦ rw fits (ground (arith, put_unscrolled_lem ch c i v h))
  | inr below ↦
      rw below (ground (arith, put_unscrolled_lem ch c i v h, scroll_lem (put_unscrolled ch c) i))
]
