-- ===== src/Scheduler.antt =====
-- The round-robin scheduler, kernel_os/src/scheduler.cpp, over the task pool of
-- kernel_os/src/task.cpp. A `Task*` is an index into the pool. `rsp0` is the field that
-- `tss_set_kernel_stack` of gdt.cpp writes, `cr3` the register that `vmm_switch_address_space` of
-- vmm.cpp loads, and `switches` lists the calls of `context_switch`, latest first.
pub mod Queue
pub mod RoundRobin
pub mod Fair
pub mod Calls
mod Tests
use operatingsystem.Common.{ℕ, ◌==◌, if◌then◌else◌, Bool, not, List, [], ◌∷◌, write}
use operatingsystem.Common.{Option, none, some}

pub data TaskState : Type 0 where
  new ready running blocked terminated : TaskState

pub record Task : Type 0 where
  pub pid : ℕ
  pub state : TaskState
  pub kernel_stack_base : ℕ
  pub kernel_stack_top : ℕ
  pub saved_rsp : ℕ
  pub pml4_phys : ℕ
  pub next : Option ℕ
  pub name : List ℕ

pub record Scheduler : Type 0 where
  pub tasks : ℕ → Task
  pub current_task : Option ℕ
  pub ready_head : Option ℕ
  pub ready_tail : Option ℕ
  pub kernel_pml4_phys : ℕ
  pub cr3 : ℕ
  pub rsp0 : ℕ
  pub switches : List (Option ℕ × ℕ)

unfoldable pub init : Scheduler → Scheduler
init s = record s {
  current_task = none;
  ready_head = none;
  ready_tail = none;
  kernel_pml4_phys = s.cr3;
}

-- `task->state = state; task->next = next`
unfoldable pub mark : (ℕ → Task) → ℕ → TaskState → Option ℕ → ℕ → Task
mark tasks t state next = write tasks t (record (tasks t) { state = state; next = next })

unfoldable pub set_state : (ℕ → Task) → ℕ → TaskState → ℕ → Task
set_state tasks t state = write tasks t (record (tasks t) { state = state })

unfoldable pub set_next : (ℕ → Task) → ℕ → Option ℕ → ℕ → Task
set_next tasks t next = write tasks t (record (tasks t) { next = next })

-- Appends `t` to the ready queue: the two lines that `scheduler_add_task` and `scheduler_tick`
-- share.
unfoldable pub enqueue : ℕ → Scheduler → Scheduler
enqueue t s = elim s.ready_head [
  | none ↦ record s { ready_head = some t; ready_tail = some t }
  | some h ↦ elim s.ready_tail [
    | none ↦ s
    | some last ↦ record s { tasks = set_next s.tasks last (some t); ready_tail = some t }
  ]
]

-- `ready_head = ready_head->next; if (!ready_head) ready_tail = nullptr;` at the head `h`.
unfoldable pub dequeue : ℕ → Scheduler → Scheduler
dequeue h s = elim (s.tasks h).next [
  | none ↦ record s { ready_head = none; ready_tail = none }
  | some n ↦ record s { ready_head = some n }
]

unfoldable pub add_task : Option ℕ → Scheduler → Scheduler
unfolding mark
add_task none s = s
add_task (some t) s = enqueue t (record s { tasks = mark s.tasks t ready none })

-- `tss_set_kernel_stack(task->kernel_stack_top)`
unfoldable pub tss_set_kernel_stack : ℕ → Scheduler → Scheduler
tss_set_kernel_stack rsp s = record s { rsp0 = rsp }

unfoldable pub switch_address_space : ℕ → Scheduler → Scheduler
switch_address_space pml4_phys s = record s { cr3 = pml4_phys }

unfoldable pub context_switch : Option ℕ → ℕ → Scheduler → Scheduler
context_switch old_task new_task s = record s { switches = (old_task, new_task) ∷ s.switches }

-- From the choice of the head `h` on, in `scheduler_start`.
unfoldable pub start_task : ℕ → Scheduler → Scheduler
unfolding tss_set_kernel_stack switch_address_space context_switch mark
start_task h s =
    let taken = dequeue h s in
    let marked = record taken { tasks = mark taken.tasks h running none; current_task = some h } in
    let stacked = tss_set_kernel_stack (s.tasks h).kernel_stack_top marked in
    let pml4_phys = (s.tasks h).pml4_phys in
    context_switch none h
      (if not (pml4_phys == 0) then switch_address_space pml4_phys stacked else stacked)

unfoldable pub start : Scheduler → Scheduler
start s = elim s.current_task [
  | some c ↦ s
  | none ↦ elim s.ready_head [ none ↦ s | some h ↦ start_task h s ]
]

unfoldable pub is_running : TaskState → Bool
is_running running = Bool.true
is_running _ = Bool.false

-- The first branch of `scheduler_tick`: no task runs yet, `h` is the head of the queue.
unfoldable pub tick_first : ℕ → Scheduler → Scheduler
unfolding set_state tss_set_kernel_stack
tick_first h s =
    let taken = dequeue h (record s { current_task = some h }) in
    tss_set_kernel_stack (s.tasks h).kernel_stack_top
      (record taken { tasks = set_state taken.tasks h running })

-- `if (prev_task->state == RUNNING) { ... }`
unfoldable pub requeue : ℕ → Scheduler → Scheduler
unfolding mark is_running
requeue prev s =
    if is_running (s.tasks prev).state
    then enqueue prev (record s { tasks = mark s.tasks prev ready none })
    else s

-- From the choice of the head `h` on, in `scheduler_tick`.
unfoldable pub switch_to : ℕ → ℕ → Scheduler → Scheduler
unfolding set_state tss_set_kernel_stack switch_address_space context_switch
switch_to prev h s =
    let taken = dequeue h s in
    let marked = record taken { tasks = set_state taken.tasks h running; current_task = some h } in
    let stacked = tss_set_kernel_stack (s.tasks h).kernel_stack_top marked in
    let pml4_phys = (s.tasks h).pml4_phys in
    context_switch (some prev) h (
      switch_address_space (if not (pml4_phys == 0) then pml4_phys else s.kernel_pml4_phys) stacked)

unfoldable pub tick_next : ℕ → Scheduler → Scheduler
tick_next prev s = elim s.ready_head [ none ↦ s | some h ↦ switch_to prev h s ]

unfoldable pub tick : Scheduler → Scheduler
tick s = elim s.current_task [
  | none ↦ elim s.ready_head [ none ↦ s | some h ↦ tick_first h s ]
  | some prev ↦ elim s.ready_head [ none ↦ s | some h ↦ tick_next prev (requeue prev s) ]
]

unfoldable pub task_yield : Scheduler → Scheduler
unfolding tick
task_yield s = tick s

unfoldable pub scheduler_current_task : Scheduler → Option ℕ
scheduler_current_task s = s.current_task
