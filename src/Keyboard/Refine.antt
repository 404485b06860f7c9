-- ===== src/Keyboard/Refine.antt =====
-- The driver implements its specification, for any sequence of interrupts and reads.
use Prim.Native.Nat.{bit_and}
use operatingsystem.Common.{ℕ, ◌-◌, ◌/◌, ◌%◌, ◌<◌, ◌≡◌, refl, ap, ap₂, ◌∙◌, arith}
use operatingsystem.Common.{List, [], ◌∷◌, all_below, all_below_sound, bit}
use operatingsystem.Common.{Bool, true, false, not, ◌||◌, if◌then◌else◌, ltb, ◌==◌, ==_iff}
use operatingsystem.Common.{bit_and-pow-eq_zero, Bool-cases, inl, inr}
use operatingsystem.Keyboard.{Keyboard, push_char, translate, translate_scancode, handle_scancode}
use operatingsystem.Keyboard.{handle_irq, read_char}
use operatingsystem.Keyboard.Ring.{
  IsRing, contents, push_char-IsRing, push_char-contents, read_char-IsRing, read_char-contents,
}
use operatingsystem.Keyboard.Typist.{
  Typist, Key, press, release, key_of, type_char, handle, read_queue,
}

-- What a client of the driver can tell of its state.
abbrev pub view : Keyboard → Typist
view k = record {
  pending = contents k;
  left_shift = k.left_shift_pressed;
  right_shift = k.right_shift_pressed;
  caps_lock = k.caps_lock_active;
  extended = k.extended_scancode;
}

low_bits : ℕ → Bool
low_bits code = bit_and code 0x7f == code % 128

low_bits-table : all_below 256 (λ code. low_bits code) ≡ true
unfolding all_below low_bits
low_bits-table = refl

bit_and-low : (code : ℕ) → code < 256 → bit_and code 0x7f ≡ code % 128
unfolding low_bits
bit_and-low code h = (==_iff _ _).0 (all_below_sound 256 (λ c. low_bits c) code low_bits-table h)

-- `code & 0x80` is zero exactly for the codes below 128.
pressed_iff : (code : ℕ) → code < 256 → (bit_and code 0x80 == 0) ≡ ltb code 128
unfolding bit
pressed_iff code h = bit_and-pow-eq_zero code 7 ∙ ground arith

full_iff : (status : ℕ) → (bit_and status 1 == 0) ≡ (status % 2 == 0)
unfolding bit
full_iff status = bit_and-pow-eq_zero status 0

mouse_iff : (status : ℕ) → not (bit_and status 0x20 == 0) ≡ (status / 32 % 2 == 1)
unfolding bit
mouse_iff status = ap not (bit_and-pow-eq_zero status 5) ∙ ground arith

-- What pushing a character leaves of the rest.
push_char-rest :
    (c : ℕ) (k : Keyboard)
    → ((push_char c k).left_shift_pressed ≡ k.left_shift_pressed)
      × ((push_char c k).right_shift_pressed ≡ k.right_shift_pressed)
      × ((push_char c k).caps_lock_active ≡ k.caps_lock_active)
      × ((push_char c k).extended_scancode ≡ k.extended_scancode)
unfolding push_char
push_char-rest c k = ground arith

Typist-eq :
    {s t : Typist}
    → s.pending ≡ t.pending
    → s.left_shift ≡ t.left_shift
    → s.right_shift ≡ t.right_shift
    → s.caps_lock ≡ t.caps_lock
    → s.extended ≡ t.extended
    → s ≡ t
Typist-eq a b c d e = λ i. record {
  pending = a i;
  left_shift = b i;
  right_shift = c i;
  caps_lock = d i;
  extended = e i;
}

-- The key that a scan code stands for.
abbrev key : ℕ → Key
key code = if ltb code 128 then press code else release (code - 128)

handle_release :
    (code : ℕ) (k : Keyboard)
    → code < 256
    → ltb code 128 ≡ false
    → view (handle_scancode code k) ≡ handle (release (code - 128)) (view k)
unfolding handle_scancode handle
handle_release code k small up =
    rw (pressed_iff code small, up, bit_and-low code small, upper) (ground arith)
  where
    upper : code % 128 ≡ code - 128
    upper = ground arith

abbrev typed : Keyboard → ℕ → ℕ
typed k code = translate (k.left_shift_pressed || k.right_shift_pressed) k.caps_lock_active code

handle_press :
    (code : ℕ) (k : Keyboard)
    → IsRing k
    → code < 256
    → ltb code 128 ≡ true
    → view (handle_scancode code k) ≡ handle (press code) (view k)
unfolding handle_scancode handle translate_scancode type_char
handle_press code k r small down =
    rw (pressed_iff code small, down, bit_and-low code small, lower)
      (ground (arith, push_char-contents (typed k code) k r, push_char-rest (typed k code) k))
  where
    lower : code % 128 ≡ code
    lower = ground arith

handle_scancode-IsRing : (code : ℕ) (k : Keyboard) → IsRing k → IsRing (handle_scancode code k)
unfolding handle_scancode
handle_scancode-IsRing code k r =
    ground (arith, push_char-IsRing (translate_scancode (bit_and code 0x7f) k) k r)

handle_irq-IsRing : (status code : ℕ) (k : Keyboard) → IsRing k → IsRing (handle_irq status code k)
unfolding handle_irq
handle_irq-IsRing status code k r = ground (arith, handle_scancode-IsRing code k r)

handle_scancode-view :
    (code : ℕ) (k : Keyboard)
    → IsRing k
    → code < 256
    → view (handle_scancode code k) ≡ handle (key code) (view k)
handle_scancode-view code k r small = elim (Bool-cases (ltb code 128)) [
  | inl down ↦ rw down (handle_press code k r small down)
  | inr up ↦ rw up (handle_release code k small up)
]

-- The interrupt handler, given what it reads from the status port and a byte from the data port,
-- changes what a client can tell exactly as the specification does for the key that they tell of.
pub handle_irq-view :
    (status code : ℕ) (k : Keyboard)
    → IsRing k
    → code < 256
    → view (handle_irq status code k) ≡ handle (key_of status code) (view k)
unfolding handle_irq key_of handle
handle_irq-view status code k r small =
    rw (full_iff status, mouse_iff status)
      (elim (Bool-cases (status % 2 == 0)) [
        | inl empty ↦ rw empty refl
        | inr full ↦ rw full (elim (Bool-cases (status / 32 % 2 == 1)) [
          | inl mouse ↦ rw mouse refl
          | inr keyboard ↦ rw keyboard (elim (Bool-cases (code == 0xe0)) [
            | inl pre ↦ rw pre refl
            | inr plain ↦ rw plain (handle_scancode-view code k r small)
          ])
        ])
      ])

-- An interrupt, with what it reads, or a read by a client.
pub data Event : Type 0 where
  irq : ℕ → ℕ → Event
  read : Event

-- The driver over a sequence of events: what the reads return.
unfoldable pub run : List Event → Keyboard → List ℕ
run [] k = []
run (irq status code ∷ events) k = run events (handle_irq status code k)
run (read ∷ events) k = let (c, k') = read_char k in c ∷ run events k'

-- The specification over the same.
pub run_typist : List Event → Typist → List ℕ
run_typist [] t = []
run_typist (irq status code ∷ events) t = run_typist events (handle (key_of status code) t)
run_typist (read ∷ events) t =
    let (c, q) = read_queue t.pending in c ∷ run_typist events (record t { pending = q })

abbrev pub AreBytes : List Event → Type 0
AreBytes [] = Unit {0}
AreBytes (irq status code ∷ events) = (code < 256) × AreBytes events
AreBytes (read ∷ events) = AreBytes events

read_char-rest :
    (k : Keyboard) → view (read_char k).1 ≡ record (view k) { pending = contents (read_char k).1 }
unfolding read_char
read_char-rest k = elim (Bool-cases (k.buffer_head == k.buffer_tail)) [
  | inl empty ↦ rw empty refl
  | inr some_wait ↦ rw some_wait refl
]

-- However interrupts and reads follow one another, the reads return what the specification
-- returns: the typed characters, each once and in the order of the keys, as far as no more than 63
-- wait at a time, and 0 where none waits.
pub run_lem :
    (events : List Event) (k : Keyboard)
    → IsRing k
    → AreBytes events
    → run events k ≡ run_typist events (view k)
unfolding run run_typist
run_lem [] k r b = refl
run_lem (irq status code ∷ events) k r b =
    run_lem events (handle_irq status code k) (handle_irq-IsRing status code k r) b.1
    ∙ ap (run_typist events) (handle_irq-view status code k r b.0)
run_lem (read ∷ events) k r b =
    let read = read_char-contents k r in
    ap₂ ◌∷◌ (ap (λ p. p.0) read) (
      run_lem events (read_char k).1 (read_char-IsRing k r) b
      ∙ ap (run_typist events)
          (read_char-rest k ∙ ap (λ q. record (view k) { pending = q }) (ap (λ p. p.1) read)))
