-- ===== src/Scheduler/RoundRobin.antt =====
-- What a tick does to the running task and the ready queue, and that it goes round fairly.
use operatingsystem.Common.{ℕ, ◌≡◌, refl, sym, ◌∙◌, ap, arith}
use operatingsystem.Common.{◌==◌, if◌then◌else◌, not}
use operatingsystem.Common.{List, [], ◌∷◌, ◌++◌, Option, none, some, write, write_lem}
use operatingsystem.Scheduler.{Task, TaskState, ready, running, Scheduler, mark, set_state}
use operatingsystem.Scheduler.{enqueue, dequeue, requeue, switch_to}
use operatingsystem.Scheduler.{tick, tick_next}
use operatingsystem.Scheduler.Queue.{
  IsChain, IsAbsent, IsQueue, IsChain-write, AllReady-write, IsAbsent-append, enqueue-IsQueue,
  dequeue-IsQueue, dequeue-rest, enqueue-rest,
}

-- `c` runs, and the ready queue holds `q`, without `c`.
pub record Runs (s : Scheduler) (c : ℕ) (q : List ℕ) : Type 0 where
  pub queue : IsQueue s q
  pub absent : IsAbsent c q
  pub current : s.current_task ≡ some c
  pub is_running : (s.tasks c).state ≡ running

pub IsQueue-write :
    (s : Scheduler) (t : ℕ) (v : Task) (q : List ℕ)
    → IsAbsent t q
    → IsQueue s q
    → IsQueue (record s { tasks = write s.tasks t v }) q
IsQueue-write s t v q a i = record {
  chain = IsChain-write s.tasks t v s.ready_head q a i.chain;
  tail = i.tail;
  distinct = i.distinct;
  all_ready = AllReady-write s.tasks t v q a i.all_ready;
}

-- The queue is told by three fields.
pub IsQueue-ext :
    {s t : Scheduler} {q : List ℕ}
    → IsQueue s q
    → s.tasks ≡ t.tasks
    → s.ready_head ≡ t.ready_head
    → s.ready_tail ≡ t.ready_tail
    → IsQueue t q
IsQueue-ext {q} i e h l = record {
  chain = rw (← e, ← h) i.chain;
  tail = rw (← l) i.tail;
  distinct = i.distinct;
  all_ready = rw (← e) i.all_ready;
}

-- What a switch from `prev` to the head `x` leaves.
record Switched (prev x : ℕ) (xs : List ℕ) (s t : Scheduler) : Type 0 where
  queue : IsQueue t xs
  current : t.current_task ≡ some x
  tasks : t.tasks ≡ set_state s.tasks x running
  stack : t.rsp0 ≡ (s.tasks x).kernel_stack_top
  space :
      t.cr3
      ≡ (if not ((s.tasks x).pml4_phys == 0) then (s.tasks x).pml4_phys else s.kernel_pml4_phys)
  switched : t.switches ≡ (some prev, x) ∷ s.switches
  kernel : t.kernel_pml4_phys ≡ s.kernel_pml4_phys

switch_to-Switched :
    (s : Scheduler) (prev x : ℕ) (xs : List ℕ)
    → IsQueue s (x ∷ xs)
    → Switched prev x xs s (switch_to prev x s)
unfolding switch_to
switch_to-Switched s prev x xs i =
    let rest = dequeue-rest s x in
    record {
      queue =
          IsQueue-ext
            (IsQueue-write (dequeue x s) x (record ((dequeue x s).tasks x) { state = running }) xs
              i.distinct.0 (dequeue-IsQueue s x xs i))
            refl refl refl;
      current = refl;
      tasks = ap (λ m. set_state m x running) rest.0;
      stack = refl;
      space = refl;
      switched = ap (λ l. (some prev, x) ∷ l) rest.5;
      kernel = rest.2;
    }

-- The running task marked ready and unlinked, as `scheduler_tick` does before it appends it.
abbrev parked : Scheduler → ℕ → Scheduler
parked s c = record s { tasks = mark s.tasks c ready none }

requeue-eq :
    (s : Scheduler) (c : ℕ) → (s.tasks c).state ≡ running → requeue c s ≡ enqueue c (parked s c)
unfolding requeue
requeue-eq s c e = rw e

requeue-IsQueue :
    {s : Scheduler} {c : ℕ} {q : List ℕ} → Runs s c q → IsQueue (requeue c s) (q ++ (c ∷ []))
unfolding mark
requeue-IsQueue {s} {c} {q} r = rw (requeue-eq s c r.is_running) (
    enqueue-IsQueue (parked s c) c q
      (IsQueue-write s c (record (s.tasks c) { state = ready; next = none }) q r.absent r.queue)
      r.absent
      (ground (arith, write_lem s.tasks c (record (s.tasks c) { state = ready; next = none }) c))
      (ground (arith, write_lem s.tasks c (record (s.tasks c) { state = ready; next = none }) c)))

-- What requeueing keeps of the other tasks and of the machine.
requeue-rest :
    (s : Scheduler) (c : ℕ)
    → (s.tasks c).state ≡ running
    → ((requeue c s).kernel_pml4_phys ≡ s.kernel_pml4_phys)
      × ((requeue c s).switches ≡ s.switches)
      × ((u : ℕ) → ((requeue c s).tasks u).kernel_stack_top ≡ (s.tasks u).kernel_stack_top)
      × ((u : ℕ) → ((requeue c s).tasks u).pml4_phys ≡ (s.tasks u).pml4_phys)
unfolding mark write
requeue-rest s c e = rw (requeue-eq s c e) (
    let rest = enqueue-rest (parked s c) c in
    (rest.1, rest.4, λ u. rest.6 u ∙ ground arith, λ u. rest.7 u ∙ ground arith))

tick-eq :
    (s : Scheduler) (c x : ℕ)
    → s.current_task ≡ some c
    → s.ready_head ≡ some x
    → (requeue c s).ready_head ≡ some x
    → tick s ≡ switch_to c x (requeue c s)
unfolding tick tick_next
tick-eq s c x e h h' = ground arith

head_of-append :
    (tasks : ℕ → Task) (p : Option ℕ) (x : ℕ) (xs ys : List ℕ)
    → IsChain tasks p ((x ∷ xs) ++ ys)
    → p ≡ some x
head_of-append tasks p x xs ys c = c.0

pub state-set_state : (tasks : ℕ → Task) (t : ℕ) (v : TaskState) → (set_state tasks t v t).state ≡ v
unfolding set_state write
state-set_state tasks t v = ground arith

-- What a tick leaves when `c` runs and `x` is the first that waits.
pub record Ticked (c x : ℕ) (xs : List ℕ) (s t : Scheduler) : Type 0 where
  pub runs : Runs t x (xs ++ (c ∷ []))
  pub stack : t.rsp0 ≡ (s.tasks x).kernel_stack_top
  pub space :
      t.cr3
      ≡ (if not ((s.tasks x).pml4_phys == 0) then (s.tasks x).pml4_phys else s.kernel_pml4_phys)
  pub switched : t.switches ≡ (some c, x) ∷ s.switches

-- A tick while `c` runs and `x` is the first of the waiting tasks makes `x` the running task and
-- puts `c` last, in state READY; it sets the kernel stack of `x` for traps from ring 3, loads the
-- address space of `x`, or the kernel's if `x` has none, and switches context from `c` to `x`.
pub tick_lem :
    {s : Scheduler} {c x : ℕ} {xs : List ℕ} → Runs s c (x ∷ xs) → Ticked c x xs s (tick s)
tick_lem {s} {c} {x} {xs} r =
    let i = requeue-IsQueue r in
    let h = head_of-append (requeue c s).tasks (requeue c s).ready_head x xs (c ∷ []) i.chain in
    let rest = requeue-rest s c r.is_running in
    let sw = switch_to-Switched (requeue c s) c x (xs ++ (c ∷ [])) i in
    rw (tick-eq s c x r.current r.queue.chain.0 h) (record {
      runs = record {
        queue = sw.queue;
        absent = IsAbsent-append x c xs r.queue.distinct.0 (λ e. r.absent.0 (sym e));
        current = sw.current;
        is_running = rw sw.tasks (state-set_state (requeue c s).tasks x running);
      };
      stack = sw.stack ∙ rest.2 x;
      space = sw.space ∙ rw (rest.3 x, rest.0);
      switched = sw.switched ∙ rw rest.1;
    })

-- With nobody waiting the running task goes on: the tick changes nothing.
pub tick_alone : {s : Scheduler} {c : ℕ} → Runs s c [] → tick s ≡ s
unfolding tick
tick_alone {s} {c} r = ground (arith, r.current, r.queue.chain)
