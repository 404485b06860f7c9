-- ===== src/Task.antt =====
-- The task pool, kernel_os/src/task.cpp and kernel_os/include/task.h: creating a kernel thread.
-- The tasks are those of `Scheduler`; `memory` is the 64-bit word at each address, into which the
-- first context is written.
pub mod Create
mod Tests
use operatingsystem.Common.{ℕ, zero, suc, ◌+◌, ◌-◌, ◌*◌, u32, List, [], ◌∷◌, Option, none, some}
use operatingsystem.Common.{Bool, true, ◌&&◌, not, ◌==◌, ltb, if◌then◌else◌, write}
use operatingsystem.Pmm.{Pmm, page_size, alloc_pages}
use operatingsystem.Scheduler.{Task, ready}

abbrev pub max_tasks : ℕ
max_tasks = 64

abbrev pub kernel_stack_pages : ℕ
kernel_stack_pages = 4

-- `sizeof(CpuContext)`: seven registers.
abbrev pub context_size : ℕ
context_size = 56

pub record TaskPool : Type 0 where
  pub tasks : ℕ → Task
  pub task_slot_used : ℕ → Bool
  pub next_pid : ℕ
  pub pmm : Pmm
  pub memory : ℕ → ℕ

-- The loop of `allocate_task_slot` at `i`, with `max_tasks - i` rounds left.
unfoldable pub slot_from : ℕ → ℕ → (ℕ → Bool) → Option ℕ
slot_from zero i used = none
slot_from (suc left) i used =
    let rest = slot_from left (i + 1) used in if not (used i) then some i else rest

unfoldable pub allocate_task_slot : TaskPool → Option (ℕ × TaskPool)
allocate_task_slot s = elim (slot_from max_tasks 0 s.task_slot_used) [
  | none ↦ none
  | some i ↦ some (i, record s { task_slot_used = write s.task_slot_used i true })
]

-- `copy_name` into an array of `max_len` bytes at index `i`, from the bytes of the source and its
-- terminator: the bytes stored. Without a terminator, which no caller of the kernel passes, it gives
-- the bytes that there are.
unfoldable pub copy_name : ℕ → ℕ → List ℕ → List ℕ
copy_name i max_len [] = []
copy_name i max_len (c ∷ src) =
    let rest = copy_name (i + 1) max_len src in
    if not (c == 0) && ltb i (max_len - 1) then c ∷ rest else 0 ∷ []

-- The seven words of the first context at `sp`: all 0 but the last, `rip`.
unfoldable pub write_context : ℕ → ℕ → (ℕ → ℕ) → ℕ → ℕ
write_context sp entry_point memory =
    let m0 = write memory sp 0 in
    let m1 = write m0 (sp + 8) 0 in
    let m2 = write m1 (sp + 16) 0 in
    let m3 = write m2 (sp + 24) 0 in
    let m4 = write m3 (sp + 32) 0 in let m5 = write m4 (sp + 40) 0 in write m5 (sp + 48) entry_point

-- A task in slot `i` whose stack starts at `stack_base`.
unfoldable pub set_up : ℕ → ℕ → ℕ → List ℕ → TaskPool → TaskPool
set_up i stack_base entry_point name s =
    let stack_top = stack_base + kernel_stack_pages * page_size in
    let sp = stack_top - context_size in
    record s {
      memory = write_context sp entry_point s.memory;
      tasks = write s.tasks i (record {
        pid = s.next_pid;
        state = ready;
        kernel_stack_base = stack_base;
        kernel_stack_top = stack_top;
        saved_rsp = sp;
        pml4_phys = 0;
        next = none;
        name = copy_name 0 32 name;
      });
      next_pid = u32 (s.next_pid + 1);
    }

-- The stack, for the slot `i` that has been taken.
unfoldable pub give_stack : ℕ → ℕ → List ℕ → TaskPool → Option ℕ × TaskPool
unfolding set_up
give_stack i entry_point name s =
    let (stack_base, pmm) = alloc_pages kernel_stack_pages s.pmm in
    let s' = record s { pmm = pmm } in
    if stack_base == 0 then (none, s') else (some i, set_up i stack_base entry_point name s')

unfoldable pub create_kernel_thread : ℕ → List ℕ → TaskPool → Option ℕ × TaskPool
create_kernel_thread entry_point name s = elim (allocate_task_slot s) [
  | none ↦ (none, s)
  | some (i, s') ↦ give_stack i entry_point name s'
]
