-- ===== src/UserMode/Tests.antt =====
-- The demo program at 1 MiB, on the example machine of the page tables.
use operatingsystem.Common.{◌⊎◌, arith, none, some, []}
use operatingsystem.Scheduler.{new}
use operatingsystem.UserMode.{UserMode, prepare_demo_task}
use operatingsystem.UserMode.Prepare.{Refused, Ready, prepare_demo_task_lem}
use operatingsystem.Vmm.Example.{start, one_root, one_root-here, start-IsTree}

abbrev system : UserMode
system = record {
  vmm = start;
  tasks = λ t. record {
    pid = t;
    state = new;
    kernel_stack_base = 0;
    kernel_stack_top = 0;
    saved_rsp = 0;
    pml4_phys = 0;
    next = none;
    name = [];
  };
  demo_entry_address = 0;
  demo_stack_top = 0;
}

prepare_demo_task_lem_example :
    Refused system one_root (prepare_demo_task 0x10_0123 (some 2) system)
    ⊎ Ready system one_root 0x10_0123 2 (prepare_demo_task 0x10_0123 (some 2) system)
prepare_demo_task_lem_example =
    prepare_demo_task_lem system one_root 0x10_0123 2 start-IsTree one_root-here (omega arith)
