-- ===== src/Kernel/Boot/Threads.antt =====
-- The threads that `kernel_main` creates: in the slots 0, 1, 2, with the stacks one after the other
-- from page 1 on.
use operatingsystem.Common.{ℕ, ◌+◌, ◌*◌, ◌≤◌, ◌<◌, ◌≡◌, ◌∙◌, arith}
use operatingsystem.Common.{inl, inr, Option, List, true, false, ltb}
use operatingsystem.Common.{dec_lt}
use operatingsystem.Pmm.{test_bit}
use operatingsystem.Pmm.Runs.{IsBlocked}
use operatingsystem.Task.{TaskPool, create_kernel_thread}
use operatingsystem.Task.Create.{Created, create_lem}
use operatingsystem.Kernel.Boot.Pages.{TakenBelow}

-- The pool after `n` threads and no other use of the pages.
pub record Spawned (n : ℕ) (s : TaskPool) : Type 0 where
  pub pages : TakenBelow (1 + 4 * n) s.pmm
  pub slots : (j : ℕ) → j < 64 → s.task_slot_used j ≡ ltb j n
  pub pid : s.next_pid ≡ n + 1

module _ {n : ℕ} {s : TaskPool} (w : Spawned n s) (few : n < 32) where
  free_run : (q : ℕ) → 1 + 4 * n ≤ q → q < 1 + 4 * n + 4 → test_bit s.pmm.bitmap q ≡ false
  free_run q p l = w.pages.bits q (omega arith) ∙ ground arith

  not-IsBlocked : ¬ IsBlocked s.pmm 4 (1 + 4 * n)
  not-IsBlocked (q, p, l, e) = cc (free_run q p l, e)

  at_slot :
      (i : ℕ)
      → i < 64
      → s.task_slot_used i ≡ false
      → ((j : ℕ) → j < i → s.task_slot_used j ≡ true)
      → i ≡ n
  at_slot i h f before = ground (arith, w.slots i h, before n, w.slots n)

  at_page : {ep i first : ℕ} {r : Option ℕ × TaskPool} → Created s ep i first r → first ≡ 1 + 4 * n
  at_page {ep} {i} {first} c = elim (dec_lt (1 + 4 * n) first) [
    | yes late ↦ absurd (not-IsBlocked (c.pages_before (1 + 4 * n) late))
    | no here ↦ ground (
      arith,
      c.pages.nonzero,
      c.pages.was_free first (omega arith) (omega arith),
      w.pages.bits first,
    )
  ]

  -- The next thread is made, in slot `n` and with the next four pages.
  pub create-next :
      (entry_point : ℕ) (name : List ℕ)
      → Created s entry_point n (1 + 4 * n) (create_kernel_thread entry_point name s)
  create-next entry_point name = elim (create_lem s entry_point name w.pages.valid) [
    | inl (i, first, c) ↦ rw (← at_page c, ← at_slot i c.in_pool c.was_free c.slots_before) c
    | inr (inl (i, f)) ↦
        absurd (not-IsBlocked (f.no_run (1 + 4 * n) (omega (arith, w.pages.total))))
    | inr (inr (e, all)) ↦ ground (arith, all n, w.slots n)
  ]

  pub create-Spawned :
      (entry_point : ℕ) (name : List ℕ)
      → Spawned (n + 1) (create_kernel_thread entry_point name s).1
  create-Spawned entry_point name =
      let c = create-next entry_point name in
      record {
        pages = record {
          valid = c.pages.valid;
          total = c.pages.same_total ∙ w.pages.total;
          bits = λ q h. c.pages.after q ∙ ground (arith, w.pages.bits q h);
        };
        slots = λ j h. c.slots j ∙ ground (arith, w.slots j h);
        pid = omega (arith, c.pid_after, w.pid);
      }
