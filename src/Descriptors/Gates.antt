-- ===== src/Descriptors/Gates.antt =====
-- What the processor reads from the gates that idt.cpp packs, and who may call through them.
use operatingsystem.Common.{
  ℕ, zero, suc, ◌+◌, ◌-◌, ◌⊎◌, inl, inr, ◌*◌, ◌/◌, ◌%◌, ◌^◌, ◌≤◌, ◌<◌, ◌≡◌, ◌≢◌, ◌↔◌, ℕ_discrete,
  dec_lt, refl, ap, ◌∙◌, arith,
}
use operatingsystem.Common.{bit_and, and-ones, some, write_lem, ==_refl, ==-eq-false, ◌==◌}
use operatingsystem.Common.{Bool, true, ◌&&◌}
use operatingsystem.Descriptors.{
  IdtEntry, Tables, gate, idt_set_entry, set_exceptions, idt_init, syscall_init,
}

abbrev pub offset_of : IdtEntry → ℕ
offset_of e = e.offset_low + e.offset_mid * 2 ^ 16 + e.offset_high * 2 ^ 32

abbrev pub present : IdtEntry → Bool
present e = e.type_attr / 128 % 2 == 1

-- The least privileged ring that may enter the gate by an `int` instruction.
abbrev pub ring : IdtEntry → ℕ
ring e = e.type_attr / 32 % 4

-- The gate leads to this address of the kernel's code segment, with these attributes.
pub record LeadsTo (e : IdtEntry) (addr type_attr : ℕ) : Type 0 where
  pub offset : offset_of e ≡ addr
  pub segment : e.selector ≡ 0x08
  pub attributes : e.type_attr ≡ type_attr
  pub no_stack : e.ist ≡ 0

offset_parts :
    (addr : ℕ)
    → addr < 2 ^ 64
    → bit_and addr 0xffff
        + bit_and (addr / 2 ^ 16) 0xffff * 2 ^ 16
        + bit_and (addr / 2 ^ 32) 0xffff_ffff * 2 ^ 32
      ≡ addr
offset_parts addr small =
    omega (arith, and-ones 16 addr, and-ones 16 (addr / 2 ^ 16), and-ones 32 (addr / 2 ^ 32))

-- `idt_set_entry` with a 64-bit address: the gate of the vector leads there, and every other gate
-- is as it was.
pub idt_set_entry_lem :
    (vector addr type_attr : ℕ) (t : Tables)
    → addr < 2 ^ 64
    → LeadsTo ((idt_set_entry vector addr type_attr t).idt vector) addr type_attr
      × ((i : ℕ) → i ≢ vector → (idt_set_entry vector addr type_attr t).idt i ≡ t.idt i)
unfolding idt_set_entry
idt_set_entry_lem vector addr type_attr t small = (
  rw (write_lem t.idt vector packed vector, ==_refl vector)
      (record {
        offset = offset_parts addr small;
        segment = refl;
        attributes = refl;
        no_stack = refl;
      }),
  λ i ne. write_lem t.idt vector packed i ∙ rw (==-eq-false ne) refl,
)
  where
    packed : IdtEntry
    packed = record {
      offset_low = bit_and addr 0xffff;
      selector = 0x08;
      ist = 0;
      type_attr = type_attr;
      offset_mid = bit_and (addr / 2 ^ 16) 0xffff;
      offset_high = bit_and (addr / 2 ^ 32) 0xffff_ffff;
      reserved = 0;
    }

abbrev Small : (ℕ → ℕ) → Type 0
Small isr = (v : ℕ) → v < 32 → isr v < 2 ^ 64

abbrev Exceptions : ℕ → (ℕ → ℕ) → Tables → Tables → Type 0
Exceptions n isr t t' =
    ((v : ℕ) → v < n → LeadsTo (t'.idt v) (isr v) gate) × ((v : ℕ) → n ≤ v → t'.idt v ≡ t.idt v)

set_exceptions_lem :
    (n : ℕ) (isr : ℕ → ℕ) (t : Tables)
    → n ≤ 32
    → Small isr
    → Exceptions n isr t (set_exceptions n isr t)
unfolding set_exceptions
set_exceptions_lem zero isr t h small = (λ v l. absurd (omega arith), λ v l. refl)
set_exceptions_lem (suc n) isr t h small =
    let before = set_exceptions_lem n isr t (omega arith) small in
    let step = idt_set_entry_lem n (isr n) gate (set_exceptions n isr t) (small n (omega arith)) in
    (
      λ v l. elim (ℕ_discrete v n) [
        | yes e ↦ rw e step.0
        | no ne ↦ rw (step.1 v ne) (before.0 v (omega arith))
      ],
      λ v l. step.1 v (omega arith) ∙ before.1 v (omega arith),
    )

-- After `idt_init` and `syscall_init`, for entry points at 64-bit addresses: the gates 0 to 31 lead
-- to the stubs of the exceptions, 0x20 and 0x21 to those of the timer and the keyboard, each for
-- the kernel alone; 0x80 leads to the stub of the system calls, for every ring; and every other
-- gate is as it was.
pub idt_init_lem :
    (idt_addr : ℕ) (isr : ℕ → ℕ) (irq0 irq1 syscall_stub : ℕ) (t : Tables)
    → Small isr
    → irq0 < 2 ^ 64
    → irq1 < 2 ^ 64
    → syscall_stub < 2 ^ 64
    → let t' = syscall_init syscall_stub (idt_init idt_addr isr irq0 irq1 t) in
      ((v : ℕ) → v < 32 → LeadsTo (t'.idt v) (isr v) 0x8e)
      × LeadsTo (t'.idt 0x20) irq0 0x8e
      × LeadsTo (t'.idt 0x21) irq1 0x8e
      × LeadsTo (t'.idt 0x80) syscall_stub 0xee
      × ((v : ℕ) → 34 ≤ v → v ≢ 0x80 → t'.idt v ≡ t.idt v)
unfolding idt_init syscall_init
idt_init_lem idt_addr isr irq0 irq1 syscall_stub t small h0 h1 h2 =
    let t0 = record t { idt_ptr = record { limit = 256 * 16 - 1; base = idt_addr } } in
    let t1 = set_exceptions 32 isr t0 in
    let t2 = idt_set_entry 0x20 irq0 gate t1 in
    let t3 = idt_set_entry 0x21 irq1 gate t2 in
    let t4 = record t3 { idtr = some t3.idt_ptr } in
    let exceptions = set_exceptions_lem 32 isr t0 (omega arith) small in
    let timer = idt_set_entry_lem 0x20 irq0 gate t1 h0 in
    let keyboard = idt_set_entry_lem 0x21 irq1 gate t2 h1 in
    let syscall = idt_set_entry_lem 0x80 syscall_stub 0xee t4 h2 in
    (
      λ v l.
          rw (syscall.1 v (omega arith), keyboard.1 v (omega arith), timer.1 v (omega arith))
            (exceptions.0 v l),
      rw (syscall.1 0x20 (omega arith), keyboard.1 0x20 (omega arith)) timer.0,
      rw (syscall.1 0x21 (omega arith)) keyboard.0,
      syscall.0,
      λ v l ne.
          syscall.1 v ne
          ∙ keyboard.1 v (omega arith)
          ∙ timer.1 v (omega arith)
          ∙ exceptions.1 v (omega arith),
    )

-- The gate is present and code in ring 3 may enter it.
abbrev pub for_users : IdtEntry → Bool
for_users e = present e && (ring e == 3)

-- What the gate of a vector is after start: it leads to the vector's stub, or it is not present.
pub data GateOf (isr : ℕ → ℕ) (irq0 irq1 syscall_stub v : ℕ) (e : IdtEntry) : Type 0 where
  exception : v < 32 → LeadsTo e (isr v) 0x8e → GateOf isr irq0 irq1 syscall_stub v e
  timer : v ≡ 0x20 → LeadsTo e irq0 0x8e → GateOf isr irq0 irq1 syscall_stub v e
  keyboard : v ≡ 0x21 → LeadsTo e irq1 0x8e → GateOf isr irq0 irq1 syscall_stub v e
  syscall : v ≡ 0x80 → LeadsTo e syscall_stub 0xee → GateOf isr irq0 irq1 syscall_stub v e
  unused : 34 ≤ v → v ≢ 0x80 → e.type_attr ≡ 0 → GateOf isr irq0 irq1 syscall_stub v e

closed : (e : IdtEntry) → (e.type_attr ≡ 0x8e) ⊎ (e.type_attr ≡ 0) → ¬ (for_users e ≡ true)
closed e (inl a) = rw a (λ k. cc)
closed e (inr a) = rw a (λ k. cc)

open_gate : (e : IdtEntry) → e.type_attr ≡ 0xee → for_users e ≡ true
open_gate e a = rw a refl

for_users-GateOf :
    {isr : ℕ → ℕ} {irq0 irq1 syscall_stub v : ℕ} (e : IdtEntry)
    → GateOf isr irq0 irq1 syscall_stub v e
    → (for_users e ≡ true) ↔ (v ≡ 0x80)
for_users-GateOf e (exception l k) =
    (λ u. absurd (closed e (inl k.attributes) u), λ z. absurd (omega arith))
for_users-GateOf e (timer l k) =
    (λ u. absurd (closed e (inl k.attributes) u), λ z. absurd (omega arith))
for_users-GateOf e (keyboard l k) =
    (λ u. absurd (closed e (inl k.attributes) u), λ z. absurd (omega arith))
for_users-GateOf e (syscall l k) = (λ u. l, λ z. open_gate e k.attributes)
for_users-GateOf e (unused l ne a) = (λ u. absurd (closed e (inr a) u), λ z. absurd (ne z))

gate_of :
    (idt_addr : ℕ) (isr : ℕ → ℕ) (irq0 irq1 syscall_stub : ℕ) (t : Tables) (v : ℕ)
    → Small isr
    → irq0 < 2 ^ 64
    → irq1 < 2 ^ 64
    → syscall_stub < 2 ^ 64
    → ((i : ℕ) → i < 256 → (t.idt i).type_attr ≡ 0)
    → v < 256
    → GateOf isr irq0 irq1 syscall_stub v
        ((syscall_init syscall_stub (idt_init idt_addr isr irq0 irq1 t)).idt v)
gate_of idt_addr isr irq0 irq1 syscall_stub t v small h0 h1 h2 empty h =
    let all = idt_init_lem idt_addr isr irq0 irq1 syscall_stub t small h0 h1 h2 in
    elim (ℕ_discrete v 0x80) [
      | yes e ↦ syscall e (rw e (all.3))
      | no ne ↦ elim (dec_lt v 32) [
        | yes l ↦ exception l (all.0 v l)
        | no above ↦ elim (ℕ_discrete v 0x20) [
          | yes e ↦ timer e (rw e (all.1))
          | no no_timer ↦ elim (ℕ_discrete v 0x21) [
            | yes e ↦ keyboard e (rw e (all.2))
            | no no_keyboard ↦
                unused (omega arith) ne
                  (ap (λ g. g.type_attr) (all.4 v (omega arith) ne) ∙ empty v h)
          ]
        ]
      ]
    ]

-- On a table that was empty, after `idt_init` and `syscall_init` with entry points at 64-bit
-- addresses, each gate below 256 is what it should be: those of the exceptions, the timer, the
-- keyboard and the system calls lead to their own stub in the kernel's code segment, and every other
-- one is empty; and the system calls' vector 0x80 is the only one whose gate is present and that code
-- in ring 3 may name in an `int` instruction.
pub user_gate_lem :
    (idt_addr : ℕ) (isr : ℕ → ℕ) (irq0 irq1 syscall_stub : ℕ) (t : Tables) (v : ℕ)
    → Small isr
    → irq0 < 2 ^ 64
    → irq1 < 2 ^ 64
    → syscall_stub < 2 ^ 64
    → ((i : ℕ) → i < 256 → (t.idt i).type_attr ≡ 0)
    → v < 256
    → let e = (syscall_init syscall_stub (idt_init idt_addr isr irq0 irq1 t)).idt v in
      GateOf isr irq0 irq1 syscall_stub v e × ((for_users e ≡ true) ↔ (v ≡ 0x80))
user_gate_lem idt_addr isr irq0 irq1 syscall_stub t v small h0 h1 h2 empty h =
    let g = gate_of idt_addr isr irq0 irq1 syscall_stub t v small h0 h1 h2 empty h in
    (g, for_users-GateOf _ g)
