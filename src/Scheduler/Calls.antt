-- ===== src/Scheduler/Calls.antt =====
-- `scheduler_add_task`, `scheduler_start` and the first tick.
use operatingsystem.Common.{
  ℕ, ◌≡◌, ◌≢◌, refl, sym, ◌∙◌, ap, arith, ◌==◌, if◌then◌else◌, not, Bool-cases, inl, inr, ◌⊎◌,
}
use operatingsystem.Common.{List, [], ◌∷◌, ◌++◌, none, some, write_lem, subst}
use operatingsystem.Scheduler.{ready, running, Scheduler, mark, init}
use operatingsystem.Scheduler.{dequeue, add_task, start, start_task}
use operatingsystem.Scheduler.Queue.{
  IsAbsent, IsAbsent-append, IsQueue, enqueue-IsQueue, dequeue-IsQueue, dequeue-rest, enqueue-rest,
}
use operatingsystem.Scheduler.RoundRobin.{Runs, IsQueue-write, IsQueue-ext}

-- `scheduler_init` leaves an empty queue and no running task, and records the address space that
-- is loaded as the kernel's.
pub init_lem :
    (s : Scheduler)
    → IsQueue (init s) [] × ((init s).current_task ≡ none) × ((init s).kernel_pml4_phys ≡ s.cr3)
unfolding init
init_lem s = (record { chain = refl; tail = refl; distinct = tt; all_ready = tt }, refl, refl)

-- `scheduler_add_task` of a task that does not wait yet puts it last in the queue, in state READY.
pub add_task-IsQueue :
    {s : Scheduler} {q : List ℕ} (t : ℕ)
    → IsQueue s q
    → IsAbsent t q
    → IsQueue (add_task (some t) s) (q ++ (t ∷ []))
unfolding add_task
add_task-IsQueue {s} {q} t i a =
    enqueue-IsQueue (record s { tasks = mark s.tasks t ready none }) t q
      (IsQueue-write s t (record (s.tasks t) { state = ready; next = none }) q a i) a
      (ground (arith, write_lem s.tasks t (record (s.tasks t) { state = ready; next = none }) t))
      (ground (arith, write_lem s.tasks t (record (s.tasks t) { state = ready; next = none }) t))

-- A null task is ignored, and a task that is added while another runs leaves that one running.
pub add_task-Runs :
    {s : Scheduler} {c : ℕ} {q : List ℕ} (t : ℕ)
    → Runs s c q
    → IsAbsent t q
    → t ≢ c
    → Runs (add_task (some t) s) c (q ++ (t ∷ []))
unfolding add_task mark
add_task-Runs {s} {c} {q} t r a ne =
    let rest = enqueue-rest (record s { tasks = mark s.tasks t ready none }) t in
    record {
      queue = add_task-IsQueue t r.queue a;
      absent = IsAbsent-append c t q r.absent (λ e. ne (sym e));
      current = rest.0 ∙ r.current;
      is_running =
          rest.5 c
          ∙ ground (
            arith,
            write_lem s.tasks t (record (s.tasks t) { state = ready; next = none }) c,
            r.is_running,
          );
    }

-- What starting the head `x` leaves.
pub record Started (x : ℕ) (xs : List ℕ) (s t : Scheduler) : Type 0 where
  pub runs : Runs t x xs
  pub stack : t.rsp0 ≡ (s.tasks x).kernel_stack_top
  pub space : t.cr3 ≡ (if not ((s.tasks x).pml4_phys == 0) then (s.tasks x).pml4_phys else s.cr3)
  pub switched : t.switches ≡ (none, x) ∷ s.switches

start_task-Started :
    (s : Scheduler) (x : ℕ) (xs : List ℕ) → IsQueue s (x ∷ xs) → Started x xs s (start_task x s)
unfolding start_task
start_task-Started s x xs i = elim (Bool-cases (not ((s.tasks x).pml4_phys == 0))) [
  | inl own ↦ rw own (record {
    runs = runs refl refl refl refl;
    stack = refl;
    space = rw own;
    switched = ap (λ l. (none, x) ∷ l) (dequeue-rest s x).5;
  })
  | inr shared ↦ rw shared (record {
    runs = runs refl refl refl refl;
    stack = refl;
    space = rw shared (dequeue-rest s x).3;
    switched = ap (λ l. (none, x) ∷ l) (dequeue-rest s x).5;
  })
]
  where
    runs :
        {t : Scheduler}
        → mark (dequeue x s).tasks x running none ≡ t.tasks
        → (dequeue x s).ready_head ≡ t.ready_head
        → (dequeue x s).ready_tail ≡ t.ready_tail
        → t.current_task ≡ some x
        → Runs t x xs
    runs e h l c = record {
      queue =
          IsQueue-ext
            (IsQueue-write (dequeue x s) x
              (record ((dequeue x s).tasks x) { state = running; next = none }) xs i.distinct.0
              (dequeue-IsQueue s x xs i))
            e h l;
      absent = i.distinct.0;
      current = c;
      is_running = rw (← e) (
          ground (
            arith,
            write_lem (dequeue x s).tasks x
                (record ((dequeue x s).tasks x) { state = running; next = none }) x,
          ));
    }

pub start_first :
    (s : Scheduler) (x : ℕ)
    → s.current_task ≡ none
    → s.ready_head ≡ some x
    → start s ≡ start_task x s
unfolding start
start_first s x e h = ground (arith, e, h)

-- `scheduler_start`, when no task runs and `x` is the first that waits, makes `x` the running
-- task, sets its kernel stack, loads its address space if it has one of its own and keeps the
-- loaded one if not, and switches to its context with no context to save.
pub start-Started :
    {s : Scheduler} {x : ℕ} {xs : List ℕ}
    → s.current_task ≡ none
    → IsQueue s (x ∷ xs)
    → Started x xs s (start s)
start-Started {s} {x} {xs} e i =
    subst (Started x xs s) (sym (start_first s x e i.chain.0)) (start_task-Started s x xs i)

-- Once a task runs, or with an empty queue, `scheduler_start` does nothing.
pub start_nothing : (s : Scheduler) → (s.current_task ≢ none) ⊎ (s.ready_head ≡ none) → start s ≡ s
unfolding start
start_nothing s h = ground arith
