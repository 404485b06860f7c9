-- ===== src/Keyboard/Typist.antt =====
-- What the keyboard driver is meant to do: keys that are pressed and released, modifiers, and a
-- queue of typed characters of which at most 63 wait.
use operatingsystem.Common.{ℕ, ◌-◌, ◌/◌, ◌%◌, List, [], ◌∷◌, ◌++◌, length}
use operatingsystem.Common.{Bool, true, false, not, ◌&&◌, ◌||◌, if◌then◌else◌, ltb, ◌==◌}
use operatingsystem.Keyboard.{translate}

pub record Typist : Type 0 where
  pub pending : List ℕ
  pub left_shift : Bool
  pub right_shift : Bool
  pub caps_lock : Bool
  pub extended : Bool

-- What one interrupt tells.
pub data Key : Type 0 where
  nothing prefix : Key
  press release : ℕ → Key

-- Bit 0 of the status says that there is a byte, and bit 5 that it is the mouse's; bit 7 of a
-- code says that the key went up.
unfoldable pub key_of : ℕ → ℕ → Key
key_of status code =
    if status % 2 == 0
    then nothing
    else if status / 32 % 2 == 1
    then nothing
    else if code == 0xe0
    then prefix
    else if ltb code 128
    then press code
    else release (code - 128)

-- A character that finds 63 waiting is lost.
unfoldable pub type_char : ℕ → List ℕ → List ℕ
type_char c q = if not (c == 0) && ltb (length q) 63 then q ++ (c ∷ []) else q

unfoldable pub handle : Key → Typist → Typist
handle nothing t = t
handle prefix t = record t { extended = true }
handle (release n) t = record t {
  left_shift = if n == 0x2a then false else t.left_shift;
  right_shift = if n == 0x36 then false else t.right_shift;
  extended = false;
}
handle (press n) t =
    let c = translate (t.left_shift || t.right_shift) t.caps_lock n in
    let types = not (n == 0x2a) && not (n == 0x36) && not (n == 0x3a) && not t.extended in
    record {
      pending = if types then type_char c t.pending else t.pending;
      left_shift = if n == 0x2a then true else t.left_shift;
      right_shift = if n == 0x36 then true else t.right_shift;
      caps_lock = if n == 0x3a then not t.caps_lock else t.caps_lock;
      extended = false;
    }

-- Reading takes the oldest character, or gives 0.
unfoldable pub read_queue : List ℕ → ℕ × List ℕ
read_queue [] = (0, [])
read_queue (c ∷ q) = (c, q)
