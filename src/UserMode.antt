-- ===== src/UserMode.antt =====
-- The set-up of the demonstration in ring 3, kernel_os/src/user_mode.cpp. A `Task*` is an index into
-- the task pool; `program_phys` is the address of `user_program_start`, which is assembly.
pub mod Share
pub mod Pages
pub mod Program
pub mod Prepare
mod Tests
use operatingsystem.Common.{ℕ, ◌+◌, ◌-◌, ◌^◌, bit_and, bit_or, write, Option, none, some}
use operatingsystem.Common.{Bool, true, false, ◌||◌, ◌==◌, if◌then◌else◌}
use operatingsystem.Pmm.{page_size, alloc_page}
use operatingsystem.Vmm.{
  Vmm, pte_user, pte_writable, pte_nx, entry_at, create_address_space, map_page,
}
use operatingsystem.Scheduler.{Task}

abbrev pub user_code_address : ℕ
user_code_address = 0x40_0000_0000

abbrev pub user_stack_address : ℕ
user_stack_address = user_code_address + page_size

pub record UserMode : Type 0 where
  pub vmm : Vmm
  pub tasks : ℕ → Task
  pub demo_entry_address : ℕ
  pub demo_stack_top : ℕ

-- `user_pml4->entries[0] = kernel_pml4->entries[0]`, the kernel's table being the one loaded.
unfoldable pub share_kernel : ℕ → Vmm → Vmm
share_kernel pml4_phys v = record v {
  memory = write v.memory (entry_at pml4_phys 0) (v.memory (entry_at v.cr3 0));
}

-- From `program_page` on, without the assignment to the task.
unfoldable pub map_program : ℕ → ℕ → ℕ → Vmm → Vmm
map_program program_phys pml4_phys user_stack_phys v =
    let program_page = bit_and program_phys (2 ^ 64 - page_size) in
    let coded = map_page pml4_phys user_code_address program_page pte_user v in
    map_page pml4_phys user_stack_address user_stack_phys
      (bit_or (bit_or pte_user pte_writable) pte_nx) coded

unfoldable pub prepare_demo_task : ℕ → Option ℕ → UserMode → Bool × UserMode
unfolding share_kernel map_program
prepare_demo_task program_phys none s = (false, s)
prepare_demo_task program_phys (some task) s =
    let (pml4_phys, spaced) = create_address_space s.vmm in
    let (user_stack_phys, pmm) = alloc_page spaced.pmm in
    let stacked = record spaced { pmm = pmm } in
    if (pml4_phys == 0) || (user_stack_phys == 0) then (false, record s { vmm = stacked }) else (
      true,
      record s {
        vmm = map_program program_phys pml4_phys user_stack_phys (share_kernel pml4_phys stacked);
        tasks = write s.tasks task (record (s.tasks task) { pml4_phys = pml4_phys });
        demo_entry_address = user_code_address + bit_and program_phys (page_size - 1);
        demo_stack_top = user_stack_address + page_size;
      },
    )
