-- ===== src/Keyboard/Ring.antt =====
-- The ring buffer of typed characters holds a queue.
use operatingsystem.Common.{ℕ, zero, suc, ◌+◌, ◌-◌, ◌%◌, ◌<◌, ◌≡◌, refl, ap, ap₂, ◌∙◌, arith}
use operatingsystem.Common.{List, [], ◌∷◌, ◌++◌, length, write, write_lem}
use operatingsystem.Common.{true, false, if◌then◌else◌, ltb, ◌==◌, u8, dec_lt}
use operatingsystem.Keyboard.{Keyboard, push_char, read_char}
use operatingsystem.Keyboard.Typist.{read_queue}

-- Both indices lie in the buffer, so no access is out of its 64 bytes.
pub record IsRing (k : Keyboard) : Type 0 where
  pub head_in : k.buffer_head < 64
  pub tail_in : k.buffer_tail < 64

-- The `n` characters from index `t` on, round the ring.
abbrev pub window : (ℕ → ℕ) → ℕ → ℕ → List ℕ
window buffer t zero = []
window buffer t (suc n) = buffer t ∷ window buffer ((t + 1) % 64) n

abbrev pub waiting : Keyboard → ℕ
waiting k = (k.buffer_head + 64 - k.buffer_tail) % 64

abbrev pub contents : Keyboard → List ℕ
contents k = window k.keyboard_buffer k.buffer_tail (waiting k)

length-window : (buffer : ℕ → ℕ) (t n : ℕ) → length (window buffer t n) ≡ n
length-window buffer t zero = refl
length-window buffer t (suc n) = ap suc (length-window buffer ((t + 1) % 64) n)

pub length-contents : (k : Keyboard) → length (contents k) ≡ waiting k
length-contents k = length-window k.keyboard_buffer k.buffer_tail (waiting k)

-- Writing behind a window makes it longer by one.
window-write :
    (buffer : ℕ → ℕ) (c t n i : ℕ)
    → t < 64
    → n < 64
    → i ≡ (t + n) % 64
    → window (write buffer i c) t (suc n) ≡ window buffer t n ++ (c ∷ [])
window-write buffer c t zero i ht hn e = ap (λ x. x ∷ []) (ground (arith, write_lem buffer i c t))
window-write buffer c t (suc n) i ht hn e =
    ap₂ ◌∷◌ (ground (arith, write_lem buffer i c t))
      (window-write buffer c ((t + 1) % 64) n i (omega arith) (omega arith) (omega arith))

window-pos :
    (buffer : ℕ → ℕ) (t n : ℕ)
    → 0 < n
    → window buffer t n ≡ buffer t ∷ window buffer ((t + 1) % 64) (n - 1)
window-pos buffer t zero h = absurd (omega arith)
window-pos buffer t (suc n) h = ap (λ m. buffer t ∷ window buffer ((t + 1) % 64) m) (omega arith)

pub push_char-IsRing : (c : ℕ) (k : Keyboard) → IsRing k → IsRing (push_char c k)
unfolding push_char
push_char-IsRing c k r = ground arith

pub push_char-contents :
    (c : ℕ) (k : Keyboard)
    → IsRing k
    → contents (push_char c k)
      ≡ (if ltb (length (contents k)) 63 then contents k ++ (c ∷ []) else contents k)
unfolding push_char
push_char-contents c k r = rw (length-contents k) (elim (dec_lt (waiting k) 63) [
  | yes room ↦
      rw (room_left room, lt_true room)
        (ap (window (write k.keyboard_buffer k.buffer_head c) k.buffer_tail) (one_more room)
          ∙ window-write k.keyboard_buffer c k.buffer_tail (waiting k) k.buffer_head (omega arith)
              (omega arith) (omega arith))
  | no full ↦ rw (no_room full, lt_false full) refl
])
  where
    room_left : waiting k < 63 → (u8 ((k.buffer_head + 1) % 64) == k.buffer_tail) ≡ false
    room_left h = ground arith

    one_more :
        waiting k < 63 → (u8 ((k.buffer_head + 1) % 64) + 64 - k.buffer_tail) % 64 ≡ suc (waiting k)
    one_more h = omega arith

    no_room : ¬ (waiting k < 63) → (u8 ((k.buffer_head + 1) % 64) == k.buffer_tail) ≡ true
    no_room h = ground arith

    lt_true : waiting k < 63 → ltb (waiting k) 63 ≡ true
    lt_true h = ground arith

    lt_false : ¬ (waiting k < 63) → ltb (waiting k) 63 ≡ false
    lt_false h = ground arith

pub read_char-IsRing : (k : Keyboard) → IsRing k → IsRing (read_char k).1
unfolding read_char
read_char-IsRing k r = ground arith

pub read_char-contents :
    (k : Keyboard)
    → IsRing k
    → ((read_char k).0, contents (read_char k).1) ≡ read_queue (contents k)
unfolding read_char read_queue
read_char-contents k r = elim (dec_lt 0 (waiting k)) [
  | yes some_wait ↦
      rw (differ some_wait, window-pos k.keyboard_buffer k.buffer_tail (waiting k) some_wait)
        (ap {B = ℕ × List ℕ} (λ q. (k.keyboard_buffer k.buffer_tail, q))
          (ap₂ (window k.keyboard_buffer) (tail_next some_wait) (one_less some_wait)))
  | no empty ↦ rw (same empty, none_wait empty) refl
]
  where
    differ : 0 < waiting k → (k.buffer_head == k.buffer_tail) ≡ false
    differ h = ground arith

    tail_next : 0 < waiting k → u8 ((k.buffer_tail + 1) % 64) ≡ (k.buffer_tail + 1) % 64
    tail_next h = omega arith

    one_less :
        0 < waiting k → (k.buffer_head + 64 - u8 ((k.buffer_tail + 1) % 64)) % 64 ≡ waiting k - 1
    one_less h = omega arith

    same : ¬ (0 < waiting k) → (k.buffer_head == k.buffer_tail) ≡ true
    same h = ground arith

    none_wait : ¬ (0 < waiting k) → waiting k ≡ 0
    none_wait h = omega arith
