-- ===== src/Keyboard/Letters.antt =====
-- Caps Lock and Shift on the letter keys and on all the others.
use operatingsystem.Common.{ℕ, ◌+◌, ◌-◌, ◌<◌, ◌≡◌, refl, arith, all_below, all_below_sound}
use operatingsystem.Common.{Bool, true, false, not, ◌&&◌, ◌||◌, if◌then◌else◌, leb, ◌==◌}
use operatingsystem.Keyboard.{translate}

-- The other case of an ASCII letter; every other character stays.
abbrev pub swap_case : ℕ → ℕ
swap_case c =
    if leb b'a' c && leb c b'z' then c - 32 else if leb b'A' c && leb c b'Z' then c + 32 else c

abbrev pub is_letter : ℕ → Bool
is_letter c = (leb b'a' c && leb c b'z') || (leb b'A' c && leb c b'Z')

-- What is to hold of one key, as a test.
obeys : ℕ → Bool
obeys code =
    let plain = translate false false code in
    let shifted = translate true false code in
    (translate false true code == swap_case plain)
    && (translate true true code == swap_case shifted)
    && (if is_letter plain then shifted == swap_case plain else not (is_letter shifted))

obeys_table : all_below 128 (λ code. obeys code) ≡ true
unfolding all_below obeys translate
obeys_table = refl

-- On every key, with Shift or without, Caps Lock swaps the case of a letter and changes no other
-- character. Shift keeps letters letters and other characters others; on a key whose character is
-- a letter it swaps the case, so that Shift and Caps Lock together give the letter of the key
-- alone.
pub translate_modifiers :
    (code : ℕ)
    → code < 128
    → (translate false true code ≡ swap_case (translate false false code))
      × (translate true true code ≡ swap_case (translate true false code))
      × (is_letter (translate true false code) ≡ is_letter (translate false false code))
      × (translate true false code ≡ (
          if is_letter (translate false false code)
          then swap_case (translate false false code)
          else translate true false code))
      × (translate false false code ≡ (
          if is_letter (translate false false code)
          then translate true true code
          else translate false false code))
unfolding obeys
translate_modifiers code h =
    let t : obeys code ≡ true = all_below_sound 128 (λ c. obeys c) code obeys_table h in
    (ground arith, ground arith, ground arith, ground arith, ground arith)
