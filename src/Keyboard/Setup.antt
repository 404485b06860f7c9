-- ===== src/Keyboard/Setup.antt =====
-- `keyboard_init` and `wait_for_input_buffer_empty`. `status n` is what the status port reads the
-- `n`-th time, from 0 on; a result counts the reads of it so far. What the data port reads is not
-- used. The first loop has no bound in the source, so it runs on fuel.
use operatingsystem.Common.{ℕ, zero, suc, ◌+◌, ◌≤◌, ◌<◌, ◌≡◌, refl, sym, ap, ◌∙◌, arith}
use operatingsystem.Common.{[], ◌∷◌, ◌++◌, Option, none, some, bit_and}
use operatingsystem.Common.{◌==◌, Bool-cases, inl, inr, if◌then◌else◌}
use operatingsystem.Ports.{Writes, pic_clear_mask}
use operatingsystem.Keyboard.{ps2_status_output_full}

abbrev pub ps2_data_port : ℕ
ps2_data_port = 0x60

abbrev pub ps2_command_port : ℕ
ps2_command_port = 0x64

abbrev pub ps2_status_input_full : ℕ
ps2_status_input_full = 2

abbrev pub keyboard_enable_scanning : ℕ
keyboard_enable_scanning = 0xf4

abbrev pub ps2_enable_first_port : ℕ
ps2_enable_first_port = 0xae

-- The loop with `left` rounds before the timeout.
unfoldable pub wait_for_input : ℕ → (ℕ → ℕ) → ℕ → ℕ
wait_for_input zero status n = n
wait_for_input (suc left) status n =
    let rest = wait_for_input left status (n + 1) in
    if bit_and (status n) ps2_status_input_full == 0 then n + 1 else rest

unfoldable pub wait_for_input_buffer_empty : (ℕ → ℕ) → ℕ → ℕ
wait_for_input_buffer_empty status n = wait_for_input 100000 status n

-- `while (inb(PS2_STATUS_PORT) & PS2_STATUS_OUTPUT_FULL)`, `none` when the fuel is spent.
unfoldable pub discard_output : ℕ → (ℕ → ℕ) → ℕ → Option ℕ
discard_output zero status n = none
discard_output (suc fuel) status n =
    let rest = discard_output fuel status (n + 1) in
    if bit_and (status n) ps2_status_output_full == 0 then some (n + 1) else rest

-- `mask` is what the data port of the first interrupt controller reads.
unfoldable pub keyboard_init : ℕ → (ℕ → ℕ) → ℕ → Option (ℕ × Writes)
keyboard_init fuel status mask = elim (discard_output fuel status 0) [
  | none ↦ none
  | some n ↦ some (
    wait_for_input_buffer_empty status (wait_for_input_buffer_empty status n),
    ((ps2_command_port, ps2_enable_first_port) ∷ (ps2_data_port, keyboard_enable_scanning) ∷ [])
        ++ pic_clear_mask 1 mask,
  )
]

wait_for_input-bound :
    (left : ℕ) (status : ℕ → ℕ) (n : ℕ)
    → (n ≤ wait_for_input left status n) × (wait_for_input left status n ≤ n + left)
unfolding wait_for_input
wait_for_input-bound zero status n = omega arith
wait_for_input-bound (suc left) status n = ground (arith, wait_for_input-bound left status (n + 1))

discard_output-suc :
    (fuel : ℕ) (status : ℕ → ℕ) (n : ℕ)
    → discard_output (suc fuel) status n
      ≡ (if bit_and (status n) 1 == 0 then some (n + 1) else discard_output fuel status (n + 1))
unfolding discard_output
discard_output-suc fuel status n = refl

start : (n : ℕ) → n + 0 ≡ n
start n = omega arith

-- The loop at read `n` ends if the output buffer is empty `k` reads later.
discard_output-ends :
    (fuel k : ℕ) (status : ℕ → ℕ) (n : ℕ)
    → k < fuel
    → bit_and (status (n + k)) 1 ≡ 0
    → (m : ℕ) × (discard_output fuel status n ≡ some m) × (m ≤ n + k + 1)
discard_output-ends zero k status n l h = absurd (omega arith)
discard_output-ends (suc fuel) zero status n l h =
    rw (discard_output-suc fuel status n) (elim (Bool-cases (bit_and (status n) 1 == 0)) [
      | inl empty ↦ rw empty (n + 1, refl, omega arith)
      | inr full ↦
          absurd (ground (arith, (ap (λ i. bit_and (status i) 1) (sym (start n)) ∙ h), full))
    ])
discard_output-ends (suc fuel) (suc k) status n l h =
    let place : n + suc k ≡ n + 1 + k = omega arith in
    let (m, e, b) =
      discard_output-ends fuel k status (n + 1) (omega arith)
        (ap (λ i. bit_and (status i) 1) (sym place) ∙ h) in
    rw (discard_output-suc fuel status n) (elim (Bool-cases (bit_and (status n) 1 == 0)) [
      | inl empty ↦ rw empty (n + 1, refl, omega arith)
      | inr full ↦ rw full (m, e, omega (arith, b))
    ])

init-eq :
    (fuel m : ℕ) (status : ℕ → ℕ) (mask : ℕ)
    → discard_output fuel status 0 ≡ some m
    → keyboard_init fuel status mask
      ≡ some (
        wait_for_input_buffer_empty status (wait_for_input_buffer_empty status m),
        (0x64, 0xae) ∷ (0x60, 0xf4) ∷ pic_clear_mask 1 mask,
      )
unfolding keyboard_init
init-eq fuel m status mask e = rw (keyboard_init, e) refl

-- If the controller ever reports an empty output buffer, say at the `k`-th read of its status from
-- 0 on, `keyboard_init` returns, whatever the controller reports after that: it reads the status at
-- most `k + 1` times for that and 100000 times for each of the two waits, and then has enabled the
-- first port and scanning and cleared the mask of line 1, with these writes in this order.
pub keyboard_init_lem :
    (fuel k : ℕ) (status : ℕ → ℕ) (mask : ℕ)
    → k < fuel
    → bit_and (status k) 1 ≡ 0
    → (reads : ℕ) × (keyboard_init fuel status mask
        ≡ some (reads, (0x64, 0xae) ∷ (0x60, 0xf4) ∷ pic_clear_mask 1 mask))
      × (reads ≤ k + 1 + 200000)
keyboard_init_lem fuel k status mask l h =
    let (m, e, b) =
      discard_output-ends fuel k status 0 l (ap (λ i. bit_and (status i) 1) (from_zero k) ∙ h) in
    let first = wait_for_input_buffer_empty status m in
    let second = wait_for_input_buffer_empty status first in
    (
      second,
      init-eq fuel m status mask e,
      omega (arith, wait-bound status m, wait-bound status first, b),
    )
  where
    from_zero : (k : ℕ) → 0 + k ≡ k
    from_zero k = omega arith

    wait-bound : (status : ℕ → ℕ) (n : ℕ) → wait_for_input_buffer_empty status n ≤ n + 100000
    wait-bound status n =
        unfold wait_for_input_buffer_empty in (wait_for_input-bound 100000 status n).1
