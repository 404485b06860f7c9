-- ===== src/Task/Tests.antt =====
-- A thread on a machine of 24 pages, all but pages 0 and 2 free, with a pool of 64 free slots; and
-- a call on a machine of 3 pages, which fails and keeps its slot.
use operatingsystem.Common.{ℕ, ◌<◌, ◌≡◌, ◌⊎◌, refl, arith, none, List, [], ◌∷◌, true, false}
use operatingsystem.Pmm.{Pmm, init, mark_reserved}
use operatingsystem.Pmm.Reserve.{init_lem}
use operatingsystem.Pmm.Valid.{IsValid}
use operatingsystem.Scheduler.{Task, new}
use operatingsystem.Pmm.{set_bit, test_bit, take_page, alloc_run, alloc_pages}
use operatingsystem.Common.{write}
use operatingsystem.Task.{allocate_task_slot, slot_from, give_stack, TaskPool, create_kernel_thread}
use operatingsystem.Task.Create.{Created, NoStack, create_lem}

abbrev machine : Pmm
machine = init (λ i. 0xff) 0x2000 24

abbrev no_task : Task
no_task = record {
  pid = 0;
  state = new;
  kernel_stack_base = 0;
  kernel_stack_top = 0;
  saved_rsp = 0;
  pml4_phys = 0;
  next = none;
  name = [];
}

abbrev pool : TaskPool
pool = record {
  tasks = λ i. no_task;
  task_slot_used = λ i. false;
  next_pid = 1;
  pmm = machine;
  memory = λ a. 7;
}

abbrev idle : List ℕ
idle = b'i' ∷ b'd' ∷ b'l' ∷ b'e' ∷ 0 ∷ []

machine-IsValid : IsValid machine
machine-IsValid = (init_lem (λ i. 0xff) 0x2000 24 (omega arith) (omega arith) (omega arith)).0

create_lem_example :
    ((i first : ℕ) × Created pool 0x10_1000 i first (create_kernel_thread 0x10_1000 idle pool))
    ⊎ ((i : ℕ) × NoStack pool i (create_kernel_thread 0x10_1000 idle pool))
    ⊎ ((create_kernel_thread 0x10_1000 idle pool ≡ (none, pool))
        × ((j : ℕ) → j < 64 → pool.task_slot_used j ≡ true))
create_lem_example = create_lem pool 0x10_1000 idle machine-IsValid

abbrev small_pool : TaskPool
small_pool = record pool { pmm = init (λ i. 0xff) 0x1000 3 }

slot_lost :
    ((create_kernel_thread 0x10_1000 idle small_pool).0 ≡ none)
    × ((create_kernel_thread 0x10_1000 idle small_pool).1.task_slot_used 0 ≡ true)
unfolding create_kernel_thread allocate_task_slot slot_from give_stack alloc_pages init write
    set_bit test_bit take_page alloc_run mark_reserved
slot_lost = (refl, refl)
