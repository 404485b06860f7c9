-- ===== src/Scheduler/Tests.antt =====
-- Three tasks on the scheduler: 1 and 2 share the kernel's address space, 3 has its own.
use operatingsystem.Common.{ℕ, ◌+◌, ◌*◌, ◌≡◌, refl, arith, ◌==◌, if◌then◌else◌, write}
use operatingsystem.Common.{[], ◌∷◌, none, some}
use operatingsystem.Scheduler.{Task, new, Scheduler, mark, set_state}
use operatingsystem.Scheduler.{init, enqueue, dequeue, add_task, start, start_task, requeue, tick}
use operatingsystem.Scheduler.{tick_next, switch_to, set_next, scheduler_current_task}
use operatingsystem.Scheduler.Queue.{IsQueue}
use operatingsystem.Scheduler.RoundRobin.{Runs, Ticked, tick_lem}
use operatingsystem.Scheduler.Fair.{ticks, ticks-fair}
use operatingsystem.Scheduler.Calls.{init_lem, add_task-IsQueue, start-Started}

abbrev pool : ℕ → Task
pool t = record {
  pid = t;
  state = new;
  kernel_stack_base = t * 0x4000;
  kernel_stack_top = t * 0x4000 + 0x4000;
  saved_rsp = t * 0x4000 + 0x3fc8;
  pml4_phys = if t == 3 then 0x9000 else 0;
  next = none;
  name = [];
}

abbrev machine : Scheduler
machine = record {
  tasks = pool;
  current_task = none;
  ready_head = none;
  ready_tail = none;
  kernel_pml4_phys = 0;
  cr3 = 0x1000;
  rsp0 = 0;
  switches = [];
}

abbrev three : Scheduler
three = add_task (some 3) (add_task (some 2) (add_task (some 1) (init machine)))

abbrev begun : Scheduler
begun = start three

three-IsQueue : IsQueue three (1 ∷ 2 ∷ 3 ∷ [])
three-IsQueue =
    add_task-IsQueue 3
      (add_task-IsQueue 2 (add_task-IsQueue 1 (init_lem machine).0 tt) (omega arith)) (omega arith)

begun-Runs : Runs begun 1 (2 ∷ 3 ∷ [])
begun-Runs = (start-Started no_task three-IsQueue).runs
  where
    no_task : three.current_task ≡ none
    no_task = unfold add_task enqueue init set_next mark write in refl

turns :
    (scheduler_current_task (tick begun) ≡ some 2)
    × ((tick begun).cr3 ≡ 0x1000)
    × (scheduler_current_task (tick (tick begun)) ≡ some 3)
    × ((tick (tick begun)).cr3 ≡ 0x9000)
    × ((tick (tick begun)).rsp0 ≡ 0x10000)
unfolding scheduler_current_task tick tick_next requeue switch_to start start_task add_task enqueue
    dequeue init set_next set_state mark write
turns = (refl, refl, refl, refl, refl)

tick_lem_example : Ticked 1 2 (3 ∷ []) begun (tick begun)
tick_lem_example = tick_lem begun-Runs

ticks-fair_example : Runs (ticks 2 begun) 3 (1 ∷ 2 ∷ [])
ticks-fair_example = ticks-fair (1 ∷ 2 ∷ []) 3 [] begun-Runs refl
