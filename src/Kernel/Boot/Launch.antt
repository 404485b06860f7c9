-- ===== src/Kernel/Boot/Launch.antt =====
-- `scheduler_start` as `kernel_main` calls it.
use operatingsystem.Common.{
  ℕ, zero, suc, ◌*◌, ◌≡◌, refl, ap, ◌∙◌, Option, none, List, [], ◌∷◌, ◌++◌, true, arith,
}
use operatingsystem.Scheduler.{Scheduler, start}
use operatingsystem.Scheduler.Fair.{ticks}
use operatingsystem.Interrupts.Dispatch.{
  Irq, AreRaised, timer_count, keyboard_after, all_effects, irqs_lem,
}
use operatingsystem.Scheduler.RoundRobin.{Runs}
use operatingsystem.Scheduler.Calls.{Started, start-Started}
use operatingsystem.Pmm.Valid.{IsValid}
use operatingsystem.Kernel.Start.{
  Image, System, machine, scheduler, with_scheduler, user_mode, port_writes, launch,
}
use operatingsystem.Kernel.Boot.Contexts.{IsThread, IsThread-ext}
use operatingsystem.Kernel.Boot.Queue.{start-SameThread, start-rest}
use operatingsystem.Kernel.Boot.Tasks.{SetUp, SameRest}
use operatingsystem.Kernel.Boot.UserSpace.{UserSpace, UserSpace-ext}

-- `t` with the first thread running, from the kernel's root `cr3` and after these switches.
pub record IsRunning (image : Image) (cr3 : ℕ) (switches : List (Option ℕ × ℕ)) (t : System)
    : Type 0 where
  pub runs : Runs (scheduler t) 0 (1 ∷ 2 ∷ [])
  pub switched : t.switches ≡ (none, 0) ∷ switches
  pub stack : t.tables.tss.rsp0 ≡ 5 * 4096
  pub space : t.cr3 ≡ cr3
  pub kernel_space : t.kernel_pml4_phys ≡ cr3
  pub enabled : t.interrupts_enabled ≡ true
  pub valid : IsValid t.pmm
  pub thread_a : IsThread t.tasks t.memory 0 image.thread_a_entry
  pub thread_b : IsThread t.tasks t.memory 1 image.thread_b_entry
  pub user_demo : IsThread t.tasks t.memory 2 image.user_mode_demo_thread
  pub user_space :
      UserSpace image.user_program_start
        (user_mode t).vmm
        cr3
        (t.tasks 2).pml4_phys
        t.demo_entry_address

-- What `launch` leaves if no timer interrupt is among the early ones.
abbrev pub launched : List Irq → System → System
launched early t = with_scheduler (start (scheduler t)) (record t {
  keyboard = keyboard_after early t.keyboard;
  writes = t.writes ++ port_writes (all_effects early);
  interrupts_enabled = true;
})

no_ticks : (n : ℕ) (s : Scheduler) → n ≡ 0 → ticks n s ≡ s
unfolding ticks
no_ticks zero s e = refl
no_ticks (suc n) s e = absurd (omega arith)

pub launch-launched :
    (early : List Irq) (t : System)
    → AreRaised early
    → timer_count early ≡ 0
    → launch early t ≡ launched early t
unfolding launch
launch-launched early t raised quiet =
    rw
      (
        irqs_lem early (machine (record t { interrupts_enabled = true })) raised,
        no_ticks (timer_count early) (scheduler t) quiet,
      )
      refl

pub launched-IsRunning :
    (early : List Irq) (image : Image) (s t : System)
    → SetUp image s t
    → IsRunning image s.cr3 s.switches (launched early t)
launched-IsRunning early image s t u =
    let r : Started 0 (1 ∷ 2 ∷ []) (scheduler t) (start (scheduler t)) =
      start-Started u.idle u.queue in
    let same = start-SameThread (scheduler t) 0 u.idle u.queue.chain.0 in
    let rest = start-rest (scheduler t) 0 u.idle u.queue.chain.0 in
    record {
      runs = r.runs;
      switched = r.switched ∙ ap (λ l. (none, 0) ∷ l) u.same_switches;
      stack = r.stack ∙ u.thread_a.top;
      space = r.space ∙ rw u.own_space u.same_cr3;
      kernel_space = rest.0 ∙ u.kernel;
      enabled = refl;
      valid = u.valid;
      thread_a = IsThread-ext u.thread_a (same 0) (λ a p l. refl);
      thread_b = IsThread-ext u.thread_b (same 1) (λ a p l. refl);
      user_demo = IsThread-ext u.user_demo (same 2) (λ a p l. refl);
      user_space = UserSpace-ext (user_mode (launched early t)).vmm (rest.1 2) u.user_space refl;
    }

-- The rest of the state is the same.
pub launched-SameRest :
    (early : List Irq) (s t : System) → SameRest s t → SameRest s (launched early t)
launched-SameRest early s t u = u
