-- ===== src/Kernel/Boot/Queue.antt =====
-- The ready queue when `kernel_main` calls `scheduler_start`, and what queueing and starting leave of
-- a task.
use operatingsystem.Common.{ℕ, ◌≡◌, ◌≢◌, refl, sym, ◌∙◌, fun_ext, subst, arith}
use operatingsystem.Common.{List, none, some, write, write_lem, ℕ_discrete}
use operatingsystem.Common.{==-eq-false, ==_refl}
use operatingsystem.Scheduler.{
  Scheduler, Task, ready, set_next, enqueue, dequeue, mark, add_task, start, start_task,
}
use operatingsystem.Scheduler.Calls.{start_first}
use operatingsystem.Scheduler.Queue.{IsQueue, IsAbsent, enqueue-rest}
use operatingsystem.Scheduler.RoundRobin.{IsQueue-write, IsQueue-ext}
use operatingsystem.Kernel.Boot.Contexts.{SameThread, SameThread-refl, SameThread-trans}

pub SameThread-write :
    (tasks : ℕ → Task) (t : ℕ) (v : Task)
    → SameThread (tasks t) v
    → (j : ℕ) → SameThread (tasks j) (write tasks t v j)
SameThread-write tasks t v same j = elim (ℕ_discrete j t) [
  | yes e ↦ rw (write_lem tasks t v j, e, ==_refl t) same
  | no ne ↦ rw (write_lem tasks t v j, ==-eq-false ne) (SameThread-refl (tasks j))
]

enqueue-SameThread :
    (t : ℕ) (s : Scheduler) (j : ℕ) → SameThread (s.tasks j) ((enqueue t s).tasks j)
unfolding enqueue set_next write
enqueue-SameThread t s j = ground arith

-- What `scheduler_add_task` leaves as it is.
pub record Added (s s' : Scheduler) : Type 0 where
  pub current : s'.current_task ≡ s.current_task
  pub kernel : s'.kernel_pml4_phys ≡ s.kernel_pml4_phys
  pub cr3 : s'.cr3 ≡ s.cr3
  pub switches : s'.switches ≡ s.switches
  pub thread : (j : ℕ) → SameThread (s.tasks j) (s'.tasks j)
  pub space : (j : ℕ) → (s'.tasks j).pml4_phys ≡ (s.tasks j).pml4_phys

pub add_task-Added : (t : ℕ) (s : Scheduler) → Added s (add_task (some t) s)
unfolding add_task mark
add_task-Added t s =
    let v = record (s.tasks t) { state = ready; next = none } in
    let rest = enqueue-rest (record s { tasks = mark s.tasks t ready none }) t in
    record {
      current = rest.0;
      kernel = rest.1;
      cr3 = rest.2;
      switches = rest.4;
      thread = λ j.
          SameThread-trans
            (SameThread-write s.tasks t v
              (record { pid = refl; base = refl; top = refl; rsp = refl }) j)
            (enqueue-SameThread t (record s { tasks = mark s.tasks t ready none }) j);
      space = λ j. rest.7 j ∙ ground (arith, write_lem s.tasks t v j);
    }

pub Added-trans : {s s' s'' : Scheduler} → Added s s' → Added s' s'' → Added s s''
Added-trans a b = record {
  current = b.current ∙ a.current;
  kernel = b.kernel ∙ a.kernel;
  cr3 = b.cr3 ∙ a.cr3;
  switches = b.switches ∙ a.switches;
  thread = λ j. SameThread-trans (a.thread j) (b.thread j);
  space = λ j. b.space j ∙ a.space j;
}

start_task-SameThread :
    (h : ℕ) (s : Scheduler) (j : ℕ) → SameThread (s.tasks j) ((start_task h s).tasks j)
unfolding start_task mark dequeue write
start_task-SameThread h s j = ground arith

pub start-SameThread :
    (s : Scheduler) (h : ℕ)
    → s.current_task ≡ none
    → s.ready_head ≡ some h
    → (j : ℕ) → SameThread (s.tasks j) ((start s).tasks j)
start-SameThread s h idle first j =
    subst (λ (t : Scheduler). SameThread (s.tasks j) (t.tasks j)) (sym (start_first s h idle first))
      (start_task-SameThread h s j)

start_task-rest :
    (h : ℕ) (s : Scheduler)
    → ((start_task h s).kernel_pml4_phys ≡ s.kernel_pml4_phys)
      × ((j : ℕ) → ((start_task h s).tasks j).pml4_phys ≡ (s.tasks j).pml4_phys)
unfolding start_task mark dequeue write
start_task-rest h s = ground arith

-- It leaves the address spaces of the tasks, too, and the kernel's.
pub start-rest :
    (s : Scheduler) (h : ℕ)
    → s.current_task ≡ none
    → s.ready_head ≡ some h
    → ((start s).kernel_pml4_phys ≡ s.kernel_pml4_phys)
      × ((j : ℕ) → ((start s).tasks j).pml4_phys ≡ (s.tasks j).pml4_phys)
start-rest s h idle first = rw (start_first s h idle first) (start_task-rest h s)

-- Other tasks than those that wait do not matter.
pub IsQueue-others :
    {s : Scheduler} {q : List ℕ} (tasks : ℕ → Task) (t : ℕ)
    → IsQueue s q
    → IsAbsent t q
    → ((j : ℕ) → j ≢ t → tasks j ≡ s.tasks j)
    → IsQueue (record s { tasks = tasks }) q
IsQueue-others {s} {q} tasks t i a same =
    IsQueue-ext (IsQueue-write s t (tasks t) q a i) written refl refl
  where
    written : write s.tasks t (tasks t) ≡ tasks
    written = fun_ext (λ j. elim (ℕ_discrete j t) [
      | yes e ↦ rw (write_lem s.tasks t (tasks t) j, e, ==_refl t) refl
      | no ne ↦ rw (write_lem s.tasks t (tasks t) j, ==-eq-false ne, same j ne) refl
    ])
