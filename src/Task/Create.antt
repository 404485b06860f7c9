-- ===== src/Task/Create.antt =====
-- `task_create_kernel_thread`: the thread it makes, and what a failure leaves.
use operatingsystem.Common.{
  ℕ, zero, suc, ◌+◌, ◌-◌, ◌*◌, ◌≤◌, ◌<◌, ◌≡◌, ◌≢◌, refl, ap, ◌∙◌, subst, arith, u32,
}
use operatingsystem.Common.{◌⊎◌, inl, inr, Option, none, some, List, write, write_lem}
use operatingsystem.Common.{Bool, true, false, ◌==◌, ==-eq-false, if◌then◌else◌, Bool-cases}
use native.Mathlib.Decide.{ℕ_discrete}
use operatingsystem.Pmm.{Pmm, alloc_pages}
use operatingsystem.Pmm.Valid.{IsValid}
use operatingsystem.Pmm.Alloc.{Granted}
use operatingsystem.Pmm.Runs.{IsBlocked, alloc_pages_lem}
use operatingsystem.Scheduler.{Task, ready}
use operatingsystem.Task.{
  TaskPool, slot_from, allocate_task_slot, write_context, set_up, give_stack, create_kernel_thread,
  copy_name,
}

slot_from-suc :
    (left i : ℕ) (used : ℕ → Bool)
    → slot_from (suc left) i used ≡ (if used i then slot_from left (i + 1) used else some i)
unfolding slot_from
slot_from-suc left i used = ground arith

-- The first free slot in a range, or none.
abbrev Slots : ℕ → ℕ → (ℕ → Bool) → Option ℕ → Type 0
Slots i left used r =
    ((j : ℕ) × (r ≡ some j)
      × (j < i + left)
      × (used j ≡ false)
      × ((k : ℕ) → i ≤ k → k < j → used k ≡ true))
    ⊎ ((r ≡ none) × ((j : ℕ) → i ≤ j → j < i + left → used j ≡ true))

slot_from_lem : (left i : ℕ) (used : ℕ → Bool) → Slots i left used (slot_from left i used)
slot_from_lem zero i used = inr (unfold slot_from in refl, λ j p l. absurd (omega arith))
slot_from_lem (suc left) i used = rw (slot_from-suc left i used) (elim (Bool-cases (used i)) [
  | inl taken ↦ rw taken (elim (slot_from_lem left (i + 1) used) [
    | inl (j, e, l, f, before) ↦
        inl (j, e, omega arith, f, λ k p m. here_or_later taken k p (λ q. before k q m))
    | inr (e, all) ↦ inr (e, λ j p l. here_or_later taken j p (λ q. all j q (omega arith)))
  ])
  | inr free ↦ rw free (inl (i, refl, omega arith, free, λ k p m. absurd (omega arith)))
])
  where
    here_or_later : used i ≡ true → (k : ℕ) → i ≤ k → (i + 1 ≤ k → used k ≡ true) → used k ≡ true
    here_or_later taken k p later = elim (ℕ_discrete i k) [
      | yes same ↦ rw (← same) taken
      | no other ↦ later (omega arith)
    ]

write_context_rip :
    (sp entry_point : ℕ) (memory : ℕ → ℕ)
    → write_context sp entry_point memory (sp + 48) ≡ entry_point
unfolding write_context write
write_context_rip sp entry_point memory = ground arith

write_context_zero :
    (sp entry_point : ℕ) (memory : ℕ → ℕ) (k : ℕ)
    → k < 6
    → write_context sp entry_point memory (sp + 8 * k) ≡ 0
unfolding write_context write
write_context_zero sp entry_point memory k h = ground arith

write_context_outside :
    (sp entry_point : ℕ) (memory : ℕ → ℕ) (a : ℕ)
    → (a < sp) ⊎ (sp + 56 ≤ a)
    → write_context sp entry_point memory a ≡ memory a
unfolding write_context write
write_context_outside sp entry_point memory a h = ground arith

-- The thread in slot `i` with the stack from `first` on: the slot, the first free one, and four
-- pages, the first four free ones in a row, are taken, the task is READY, and its first context, at the top of the stack, returns to `entry_point`.
pub record Created (s : TaskPool) (entry_point i first : ℕ) (r : Option ℕ × TaskPool) : Type 0 where
  pub returns : r.0 ≡ some i
  pub in_pool : i < 64
  pub was_free : s.task_slot_used i ≡ false
  pub slots : (j : ℕ) → r.1.task_slot_used j ≡ (if j == i then true else s.task_slot_used j)
  pub others : (j : ℕ) → j ≢ i → r.1.tasks j ≡ s.tasks j
  pub slots_before : (j : ℕ) → j < i → s.task_slot_used j ≡ true
  pub pages : Granted s.pmm first 4 (first * 4096, r.1.pmm)
  pub pages_before : (other : ℕ) → other < first → IsBlocked s.pmm 4 other
  pub pid_after : r.1.next_pid ≡ u32 (s.next_pid + 1)
  pub shared_space : (r.1.tasks i).pml4_phys ≡ 0
  pub is_ready : (r.1.tasks i).state ≡ ready
  pub pid : (r.1.tasks i).pid ≡ s.next_pid
  pub stack : (r.1.tasks i).kernel_stack_base ≡ first * 4096
  pub top : (r.1.tasks i).kernel_stack_top ≡ (first + 4) * 4096
  pub context : (r.1.tasks i).saved_rsp + 56 ≡ (first + 4) * 4096
  pub rip : r.1.memory ((r.1.tasks i).saved_rsp + 48) ≡ entry_point
  pub registers : (k : ℕ) → k < 6 → r.1.memory ((r.1.tasks i).saved_rsp + 8 * k) ≡ 0
  pub elsewhere :
      (a : ℕ) → (a < (r.1.tasks i).saved_rsp) ⊎ ((first + 4) * 4096 ≤ a) → r.1.memory a ≡ s.memory a

-- A call that failed for want of a stack has taken slot `i` all the same.
pub record NoStack (s : TaskPool) (i : ℕ) (r : Option ℕ × TaskPool) : Type 0 where
  pub returns : r.0 ≡ none
  pub in_pool : i < 64
  pub was_free : s.task_slot_used i ≡ false
  pub slots : (j : ℕ) → r.1.task_slot_used j ≡ (if j == i then true else s.task_slot_used j)
  pub same_tasks : r.1.tasks ≡ s.tasks
  pub same_pages : r.1.pmm ≡ s.pmm
  pub no_run : (first : ℕ) → first + 4 ≤ s.pmm.total_pages → IsBlocked s.pmm 4 first

-- The pool with slot `i` taken.
abbrev taken : ℕ → TaskPool → TaskPool
taken i s = record s { task_slot_used = write s.task_slot_used i true }

create-none :
    (entry_point : ℕ) (name : List ℕ) (s : TaskPool)
    → slot_from 64 0 s.task_slot_used ≡ none
    → create_kernel_thread entry_point name s ≡ (none, s)
unfolding create_kernel_thread allocate_task_slot
create-none entry_point name s e = rw (create_kernel_thread, allocate_task_slot, e) refl

create-some :
    (entry_point : ℕ) (name : List ℕ) (s : TaskPool) (i : ℕ)
    → slot_from 64 0 s.task_slot_used ≡ some i
    → create_kernel_thread entry_point name s ≡ give_stack i entry_point name (taken i s)
unfolding create_kernel_thread allocate_task_slot
create-some entry_point name s i e = rw (create_kernel_thread, allocate_task_slot, e) refl

give_stack-NoStack :
    (entry_point : ℕ) (name : List ℕ) (s : TaskPool) (i : ℕ)
    → i < 64
    → s.task_slot_used i ≡ false
    → alloc_pages 4 s.pmm ≡ (0, s.pmm)
    → ((first : ℕ) → first + 4 ≤ s.pmm.total_pages → IsBlocked s.pmm 4 first)
    → NoStack s i (give_stack i entry_point name (taken i s))
unfolding give_stack
give_stack-NoStack entry_point name s i h f e no_run = rw e (record {
  returns = refl;
  in_pool = h;
  was_free = f;
  slots = write_lem s.task_slot_used i true;
  same_tasks = refl;
  same_pages = refl;
  no_run = no_run;
})

-- The task that `set_up` stores, and the memory it leaves.
abbrev thread : ℕ → ℕ → List ℕ → TaskPool → Task
thread first sp name s = record {
  pid = s.next_pid;
  state = ready;
  kernel_stack_base = first * 4096;
  kernel_stack_top = first * 4096 + 16384;
  saved_rsp = sp;
  pml4_phys = 0;
  next = none;
  name = copy_name 0 32 name;
}

write-same : (tasks : ℕ → Task) (i : ℕ) (t : Task) → write tasks i t i ≡ t
write-same tasks i t = ground (arith, write_lem tasks i t i)

write-other : (tasks : ℕ → Task) (i : ℕ) (t : Task) (j : ℕ) → j ≢ i → write tasks i t j ≡ tasks j
write-other tasks i t j ne = ground (arith, write_lem tasks i t j)

set_up-Created :
    (entry_point : ℕ) (name : List ℕ) (s : TaskPool) (i first : ℕ) (pmm : Pmm)
    → i < 64
    → s.task_slot_used i ≡ false
    → ((j : ℕ) → j < i → s.task_slot_used j ≡ true)
    → Granted s.pmm first 4 (first * 4096, pmm)
    → ((other : ℕ) → other < first → IsBlocked s.pmm 4 other)
    → Created s entry_point i first
        (some i, set_up i (first * 4096) entry_point name (record (taken i s) { pmm = pmm }))
unfolding set_up
set_up-Created entry_point name s i first pmm h f used g blocked =
    let sp = first * 4096 + 16384 - 56 in
    let t = thread first sp name s in
    let same = write-same s.tasks i t in
    let rsp : (write s.tasks i t i).saved_rsp ≡ sp = ap (λ u. u.saved_rsp) same in
    let memory = write_context sp entry_point s.memory in
    record {
      returns = refl;
      in_pool = h;
      was_free = f;
      slots = write_lem s.task_slot_used i true;
      others = write-other s.tasks i t;
      slots_before = used;
      pages = g;
      pages_before = blocked;
      pid_after = refl;
      shared_space = ap (λ u. u.pml4_phys) same;
      is_ready = ap (λ u. u.state) same;
      pid = ap (λ u. u.pid) same;
      stack = ap (λ u. u.kernel_stack_base) same;
      top = ap (λ u. u.kernel_stack_top) same ∙ omega arith;
      context = omega (arith, rsp);
      rip = ap (λ a. memory (a + 48)) rsp ∙ write_context_rip sp entry_point s.memory;
      registers =
          λ k l. ap (λ a. memory (a + 8 * k)) rsp ∙ write_context_zero sp entry_point s.memory k l;
      elsewhere = λ a l. write_context_outside sp entry_point s.memory a (omega (arith, rsp));
    }

give_stack-Created :
    (entry_point : ℕ) (name : List ℕ) (s : TaskPool) (i first : ℕ)
    → i < 64
    → s.task_slot_used i ≡ false
    → ((j : ℕ) → j < i → s.task_slot_used j ≡ true)
    → Granted s.pmm first 4 (alloc_pages 4 s.pmm)
    → ((other : ℕ) → other < first → IsBlocked s.pmm 4 other)
    → Created s entry_point i first (give_stack i entry_point name (taken i s))
unfolding give_stack
give_stack-Created entry_point name s i first h f used g blocked =
    rw (==-eq-false nonzero, g.address)
      (set_up-Created entry_point name s i first (alloc_pages 4 s.pmm).1 h f used
        (subst (λ a. Granted s.pmm first 4 (a, (alloc_pages 4 s.pmm).1)) g.address g) blocked)
  where
    nonzero : (alloc_pages 4 s.pmm).0 ≢ 0
    nonzero = λ e. omega (arith, g.nonzero, g.address)

-- On a pool whose page allocator is valid, `task_create_kernel_thread` either makes a thread: it
-- takes the first free slot and the first four free pages in a row, leaves every other task as it
-- was, and stores a READY task with the next pid whose saved stack pointer has a context of seven
-- words above it, six of them 0 and the last the entry point, at the very top of the stack, and
-- writes nothing else; or it returns null with every run of four pages blocked, tasks and pages
-- unchanged, but a free slot taken; or all 64 slots are taken, and it returns null and changes
-- nothing.
pub create_lem :
    (s : TaskPool) (entry_point : ℕ) (name : List ℕ)
    → IsValid s.pmm
    → ((i first : ℕ) × Created s entry_point i first (create_kernel_thread entry_point name s))
      ⊎ ((i : ℕ) × NoStack s i (create_kernel_thread entry_point name s))
      ⊎ ((create_kernel_thread entry_point name s ≡ (none, s))
          × ((j : ℕ) → j < 64 → s.task_slot_used j ≡ true))
create_lem s entry_point name v = elim (slot_from_lem 64 0 s.task_slot_used) [
  | inr (e, all) ↦ inr (inr (create-none entry_point name s e, λ j l. all j (omega arith) l))
  | inl (i, e, l, f, used) ↦
      rw (create-some entry_point name s i e) (elim (alloc_pages_lem s.pmm 4 v (omega arith)) [
        | inr (none_left, no_run) ↦
            inr (inl (i, give_stack-NoStack entry_point name s i l f none_left no_run))
        | inl (first, g, earliest) ↦ inl (
          i,
          first,
          give_stack-Created entry_point name s i first l f (λ j m. used j (omega arith) m) g
              earliest,
        )
      ])
]
