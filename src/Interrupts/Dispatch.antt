-- ===== src/Interrupts/Dispatch.antt =====
-- `irq_handler` over a sequence of interrupts.
use operatingsystem.Common.{ℕ, suc, ◌+◌, ◌-◌, ◌^◌, ◌≤◌, ◌<◌, ◌≡◌, refl, sym, ap, ◌∙◌, arith}
use operatingsystem.Common.{List, [], ◌∷◌, ◌++◌, u8, u64, dec_lt, ℕ_discrete}
use operatingsystem.Common.{◌==◌, ==-eq-false, leb, if◌then◌else◌}
use mathlib.Core.List.{append-nil, append_assoc}
use operatingsystem.Common.{Bool-cases, inl, inr, ap₂}
use operatingsystem.Ports.{pic_send_eoi}
use operatingsystem.Scheduler.{Scheduler, tick}
use operatingsystem.Scheduler.Fair.{ticks}
use operatingsystem.Keyboard.{Keyboard, handle_irq}
use operatingsystem.Interrupts.{Machine, Effect, wrote, ticked, typed, irq_handler}

-- An interrupt: its vector, and what the keyboard controller's ports then read.
pub record Irq : Type 0 where
  pub number : ℕ
  pub status : ℕ
  pub code : ℕ

-- The vectors that the two controllers raise, after `pic_remap`.
abbrev pub IsRaised : Irq → Type 0
IsRaised i = (32 ≤ i.number) × (i.number < 48)

-- The end of interrupt that the lines 8 to 15 have besides the first controller's.
abbrev slave_eoi : ℕ → List Effect
slave_eoi number = if leb 40 number then wrote 0xa0 0x20 ∷ [] else []

-- What an interrupt has for effects, in order.
abbrev pub effects_of : ℕ → List Effect
effects_of number =
    if number == 32
    then wrote 0x20 0x20 ∷ ticked ∷ []
    else if number == 33
    then typed ∷ wrote 0x20 0x20 ∷ []
    else slave_eoi number ++ (wrote 0x20 0x20 ∷ [])

-- The machine after an interrupt.
abbrev pub after : Irq → Machine → Machine
after i m = record m {
  scheduler = if i.number == 32 then tick m.scheduler else m.scheduler;
  keyboard = if i.number == 33 then handle_irq i.status i.code m.keyboard else m.keyboard;
  effects = m.effects ++ effects_of i.number;
}

irq_handler_lem :
    (i : Irq) (m : Machine) → IsRaised i → irq_handler i.number i.status i.code m ≡ after i m
unfolding irq_handler pic_send_eoi
irq_handler_lem i m h = elim (ℕ_discrete i.number 32) [
  | yes e ↦ rw e (
      ap (λ es. record m { scheduler = tick m.scheduler; effects = es })
        (append_assoc m.effects (wrote 0x20 0x20 ∷ []) (ticked ∷ [])))
  | no timer ↦ elim (ℕ_discrete i.number 33) [
    | yes e ↦ rw e (
        ap (λ es. record m { keyboard = handle_irq i.status i.code m.keyboard; effects = es })
          (append_assoc m.effects (typed ∷ []) (wrote 0x20 0x20 ∷ [])))
    | no keyboard ↦
        rw (==-eq-false timer, ==-eq-false keyboard, line)
          (elim (Bool-cases (leb 40 i.number)) [
            | inl slave ↦ rw slave refl
            | inr master ↦ rw master refl
          ])
  ]
]
  where
    line : leb 8 (u8 (u64 (i.number + 2 ^ 64 - 32))) ≡ leb 40 i.number
    line = elim (dec_lt i.number 40) [
      | yes low ↦ ground (arith, h.0)
      | no high ↦ ground (arith, h.1)
    ]

unfoldable pub run_irqs : List Irq → Machine → Machine
run_irqs [] m = m
run_irqs (i ∷ irqs) m = run_irqs irqs (irq_handler i.number i.status i.code m)

abbrev pub AreRaised : List Irq → Type 0
AreRaised [] = Unit {0}
AreRaised (i ∷ irqs) = IsRaised i × AreRaised irqs

-- The interrupts of the timer among them.
abbrev pub timer_count : List Irq → ℕ
timer_count [] = 0
timer_count (i ∷ irqs) = if i.number == 32 then suc (timer_count irqs) else timer_count irqs

-- The keyboard after those of the keyboard among them.
abbrev pub keyboard_after : List Irq → Keyboard → Keyboard
keyboard_after [] k = k
keyboard_after (i ∷ irqs) k =
    keyboard_after irqs (if i.number == 33 then handle_irq i.status i.code k else k)

abbrev pub all_effects : List Irq → List Effect
all_effects [] = []
all_effects (i ∷ irqs) = effects_of i.number ++ all_effects irqs

ticks-timer :
    (i : Irq) (n : ℕ) (s : Scheduler)
    → ticks n (if i.number == 32 then tick s else s) ≡ ticks (if i.number == 32 then suc n else n) s
unfolding ticks
ticks-timer i n s = elim (Bool-cases (i.number == 32)) [
  | inl timer ↦ rw timer refl
  | inr other ↦ rw other refl
]

-- Over any sequence of interrupts on vectors 32 to 47 the scheduler takes one tick for each timer
-- interrupt and the keyboard driver handles those of the keyboard alone, each as if by itself; the
-- screen is untouched and nothing halts. For each interrupt the controllers are told its end, the
-- second one for the vectors from 40 on alone: after the driver has run for the keyboard's, but
-- before the tick for the timer's.
pub irqs_lem :
    (irqs : List Irq) (m : Machine)
    → AreRaised irqs
    → run_irqs irqs m ≡ record m {
      scheduler = ticks (timer_count irqs) m.scheduler;
      keyboard = keyboard_after irqs m.keyboard;
      effects = m.effects ++ all_effects irqs;
    }
unfolding run_irqs
irqs_lem [] m h =
    ap₂ (λ s es. record m { scheduler = s; effects = es }) (unfold ticks in refl)
      (sym (append-nil m.effects))
irqs_lem (i ∷ irqs) m (h, rest) = rw (irq_handler_lem i m h) (
    irqs_lem irqs (after i m) rest
    ∙ ap₂
        (λ s es. record (after i m) {
          scheduler = s;
          keyboard = keyboard_after irqs (after i m).keyboard;
          effects = es;
        })
        (ticks-timer i (timer_count irqs) m.scheduler)
        (append_assoc m.effects (effects_of i.number) (all_effects irqs)))
