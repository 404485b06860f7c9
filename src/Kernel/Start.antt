-- ===== src/Kernel/Start.antt =====
-- `kernel_main` of kernel_os/src/kernel_main.cpp, from its first line to `scheduler_start`: the
-- initialisations in their order, over the state of all the components together. The parts of the
-- state that components share are one field: the tasks, the pages, the memory and the registers.
use operatingsystem.Common.{
  ℕ, List, [], ◌∷◌, ◌++◌, Option, none, some, Bool, true, false, if◌then◌else◌,
}
use operatingsystem.Common.Int.{pos}
use operatingsystem.Console.{Console, put_at, printk}
use operatingsystem.Console
use operatingsystem.Descriptors.{Tables, gdt_init, idt_init, syscall_init}
use operatingsystem.Ports.{Writes, serial_init, pic_remap, pit_init}
use operatingsystem.Keyboard.{Keyboard}
use operatingsystem.Keyboard.Setup.{keyboard_init}
use operatingsystem.Interrupts.{Machine, Effect, wrote, ticked, typed}
use operatingsystem.Interrupts.Dispatch.{Irq, run_irqs}
use operatingsystem.Pmm.{Pmm, mark_reserved}
use operatingsystem.Pmm
use operatingsystem.Heap.{Heap}
use operatingsystem.Heap
use operatingsystem.Ramfs.{RamfsEntry}
use operatingsystem.Ramfs
use operatingsystem.Scheduler.{Scheduler, Task, add_task, start}
use operatingsystem.Scheduler
use operatingsystem.Task.{TaskPool, create_kernel_thread}
use operatingsystem.UserMode.{UserMode, prepare_demo_task}
use operatingsystem.Kernel.{keyboard_row}

-- The bytes written to ports are in `writes`, but for the characters that the console sends.
pub record System : Type 0 where
  pub console : Console
  pub keyboard_column : ℕ
  pub keyboard : Keyboard
  pub tables : Tables
  pub writes : Writes
  pub heap : Heap
  pub files : List RamfsEntry
  pub pmm : Pmm
  pub memory : ℕ → ℕ
  pub cr3 : ℕ
  pub flushed : List ℕ
  pub tasks : ℕ → Task
  pub task_slot_used : ℕ → Bool
  pub next_pid : ℕ
  pub current_task : Option ℕ
  pub ready_head : Option ℕ
  pub ready_tail : Option ℕ
  pub kernel_pml4_phys : ℕ
  pub switches : List (Option ℕ × ℕ)
  pub demo_entry_address : ℕ
  pub demo_stack_top : ℕ
  pub interrupts_enabled : Bool

-- What the linker chooses: the addresses of tables and of code.
pub record Image : Type 0 where
  pub gdt_addr : ℕ
  pub tss_addr : ℕ
  pub idt_addr : ℕ
  pub isr : ℕ → ℕ
  pub irq0 : ℕ
  pub irq1 : ℕ
  pub syscall_stub : ℕ
  pub thread_a_entry : ℕ
  pub thread_b_entry : ℕ
  pub user_mode_demo_thread : ℕ
  pub user_program_start : ℕ

-- What ports read: the masks of the two interrupt controllers when `pic_remap` reads them, the
-- keyboard's status each time, and the first controller's mask when `keyboard_init` reads it. And
-- what the bytes at the bitmap's address hold.
pub record Devices : Type 0 where
  pub mask1 : ℕ
  pub mask2 : ℕ
  pub keyboard_status : ℕ → ℕ
  pub keyboard_mask : ℕ
  pub bitmap_before : ℕ → ℕ

-- The part of the state that each component has.
abbrev pub pool : System → TaskPool
pool s = record {
  tasks = s.tasks;
  task_slot_used = s.task_slot_used;
  next_pid = s.next_pid;
  pmm = s.pmm;
  memory = s.memory;
}

abbrev pub scheduler : System → Scheduler
scheduler s = record {
  tasks = s.tasks;
  current_task = s.current_task;
  ready_head = s.ready_head;
  ready_tail = s.ready_tail;
  kernel_pml4_phys = s.kernel_pml4_phys;
  cr3 = s.cr3;
  rsp0 = s.tables.tss.rsp0;
  switches = s.switches;
}

abbrev pub user_mode : System → UserMode
user_mode s = record {
  vmm = record { pmm = s.pmm; memory = s.memory; cr3 = s.cr3; flushed = s.flushed };
  tasks = s.tasks;
  demo_entry_address = s.demo_entry_address;
  demo_stack_top = s.demo_stack_top;
}

abbrev pub machine : System → Machine
machine s = record {
  scheduler = scheduler s;
  keyboard = s.keyboard;
  console = s.console;
  effects = [];
  halted = false;
}

-- The state with a component's part replaced.
abbrev pub with_pool : TaskPool → System → System
with_pool p s = record s {
  tasks = p.tasks;
  task_slot_used = p.task_slot_used;
  next_pid = p.next_pid;
  pmm = p.pmm;
  memory = p.memory;
}

abbrev pub with_scheduler : Scheduler → System → System
with_scheduler c s = record s {
  tasks = c.tasks;
  current_task = c.current_task;
  ready_head = c.ready_head;
  ready_tail = c.ready_tail;
  kernel_pml4_phys = c.kernel_pml4_phys;
  cr3 = c.cr3;
  tables = record s.tables { tss = record s.tables.tss { rsp0 = c.rsp0 } };
  switches = c.switches;
}

abbrev pub with_user_mode : UserMode → System → System
with_user_mode u s = record s {
  pmm = u.vmm.pmm;
  memory = u.vmm.memory;
  cr3 = u.vmm.cr3;
  flushed = u.vmm.flushed;
  tasks = u.tasks;
  demo_entry_address = u.demo_entry_address;
  demo_stack_top = u.demo_stack_top;
}

-- `"Kernel gestartet - Long Mode aktiv!\n"`
abbrev pub started_text : List ℕ
started_text =
    b'K' ∷ b'e' ∷ b'r' ∷ b'n' ∷ b'e' ∷ b'l' ∷ b' ' ∷ b'g' ∷ b'e' ∷ b's' ∷ b't' ∷ b'a' ∷ b'r' ∷ b't'
    ∷ b'e' ∷ b't' ∷ b' ' ∷ b'-' ∷ b' ' ∷ b'L' ∷ b'o' ∷ b'n' ∷ b'g' ∷ b' ' ∷ b'M' ∷ b'o' ∷ b'd'
    ∷ b'e' ∷ b' ' ∷ b'a' ∷ b'k' ∷ b't' ∷ b'i' ∷ b'v' ∷ b'!' ∷ 10 ∷ 0 ∷ []

-- `"GDT+IDT+PIC+PIT+Keyboard initialisiert.\n"`
abbrev pub devices_text : List ℕ
devices_text =
    b'G' ∷ b'D' ∷ b'T' ∷ b'+' ∷ b'I' ∷ b'D' ∷ b'T' ∷ b'+' ∷ b'P' ∷ b'I' ∷ b'C' ∷ b'+' ∷ b'P' ∷ b'I'
    ∷ b'T' ∷ b'+' ∷ b'K' ∷ b'e' ∷ b'y' ∷ b'b' ∷ b'o' ∷ b'a' ∷ b'r' ∷ b'd' ∷ b' ' ∷ b'i' ∷ b'n'
    ∷ b'i' ∷ b't' ∷ b'i' ∷ b'a' ∷ b'l' ∷ b'i' ∷ b's' ∷ b'i' ∷ b'e' ∷ b'r' ∷ b't' ∷ b'.' ∷ 10 ∷ 0
    ∷ []

-- `"thread_a"`, `"thread_b"` and `"user_demo"`
abbrev pub thread_a_name : List ℕ
thread_a_name = b't' ∷ b'h' ∷ b'r' ∷ b'e' ∷ b'a' ∷ b'd' ∷ b'_' ∷ b'a' ∷ 0 ∷ []

abbrev pub thread_b_name : List ℕ
thread_b_name = b't' ∷ b'h' ∷ b'r' ∷ b'e' ∷ b'a' ∷ b'd' ∷ b'_' ∷ b'b' ∷ 0 ∷ []

abbrev pub user_demo_name : List ℕ
user_demo_name = b'u' ∷ b's' ∷ b'e' ∷ b'r' ∷ b'_' ∷ b'd' ∷ b'e' ∷ b'm' ∷ b'o' ∷ 0 ∷ []

-- `gdt_init(); idt_init(); syscall_init();`
unfoldable pub set_up_tables : Image → Tables → Tables
set_up_tables image t = syscall_init image.syscall_stub (
    idt_init image.idt_addr image.isr image.irq0 image.irq1
      (gdt_init image.gdt_addr image.tss_addr t))

-- `console_put_at(KEYBOARD_ROW, 0, '>', 0x0F); console_put_at(KEYBOARD_ROW, 1, ' ', 0x0F);`
unfoldable pub show_prompt : Console → Console
show_prompt c =
    put_at (pos keyboard_row) (pos 1) b' ' 0x0f (put_at (pos keyboard_row) (pos 0) b'>' 0x0f c)

-- From `console_init` to the prompt. `fuel` bounds the reads of a keyboard status that stays full;
-- `none` is a fault in `printk`, or that the fuel is spent.
unfoldable pub set_up_devices : ℕ → Image → Devices → System → Option System
unfolding set_up_tables show_prompt
set_up_devices fuel image devices s = elim (printk started_text [] (Console.init s.console)) [
  | none ↦ none
  | some greeted ↦ elim (keyboard_init fuel devices.keyboard_status devices.keyboard_mask) [
    | none ↦ none
    | some (reads, keyboard_writes) ↦ elim (printk devices_text [] greeted) [
      | none ↦ none
      | some ready ↦ some (record s {
        console = show_prompt ready;
        keyboard_column = 2;
        tables = set_up_tables image s.tables;
        writes =
            s.writes
            ++ serial_init
            ++ pic_remap devices.mask1 devices.mask2
            ++ pit_init 100
            ++ keyboard_writes;
      })
    ]
  ]
]

abbrev pub assumed_ram_pages : ℕ
assumed_ram_pages = 32768

abbrev pub bitmap_addr : ℕ
bitmap_addr = 0x200000

-- From `pmm_init` to `pmm_mark_reserved`.
unfoldable pub set_up_memory : Devices → System → System
set_up_memory devices s = record s {
  heap = Heap.init s.heap;
  files = Ramfs.init s.files;
  pmm =
      mark_reserved 0x100000 0x200000
        (Pmm.init devices.bitmap_before bitmap_addr assumed_ram_pages);
}

-- `task_create_kernel_thread(entry_point, name)`
unfoldable pub create_thread : ℕ → List ℕ → System → Option ℕ × System
create_thread entry_point name s =
    let (task, p) = create_kernel_thread entry_point name (pool s) in (task, with_pool p s)

unfoldable pub scheduler_add_task : Option ℕ → System → System
scheduler_add_task task s = with_scheduler (add_task task (scheduler s)) s

-- `if (user_mode_prepare_demo_task(user_task)) scheduler_add_task(user_task);`
unfoldable pub add_user_task : Image → Option ℕ → System → System
unfolding scheduler_add_task
add_user_task image user_task s =
    let (prepared, u) = prepare_demo_task image.user_program_start user_task (user_mode s) in
    let s' = with_user_mode u s in if prepared then scheduler_add_task user_task s' else s'

-- From `scheduler_init` to the last `scheduler_add_task`.
unfoldable pub set_up_tasks : Image → System → System
unfolding create_thread scheduler_add_task add_user_task
set_up_tasks image s0 =
    let s1 = with_scheduler (Scheduler.init (scheduler s0)) s0 in
    let (task_a, s2) = create_thread image.thread_a_entry thread_a_name s1 in
    let (task_b, s3) = create_thread image.thread_b_entry thread_b_name s2 in
    let (user_task, s4) = create_thread image.user_mode_demo_thread user_demo_name s3 in
    add_user_task image user_task (scheduler_add_task task_b (scheduler_add_task task_a s4))

-- `sti`
unfoldable pub enable_interrupts : System → System
enable_interrupts s = record s { interrupts_enabled = true }

-- What the effects of interrupts write to ports.
abbrev pub port_writes : List Effect → Writes
port_writes [] = []
port_writes (wrote port value ∷ effects) = (port, value) ∷ port_writes effects
port_writes (ticked ∷ effects) = port_writes effects
port_writes (typed ∷ effects) = port_writes effects

-- Interrupts that the processor takes, one after the other.
unfoldable pub take_irqs : List Irq → System → System
take_irqs irqs s =
    let m = run_irqs irqs (machine s) in
    with_scheduler m.scheduler (record s {
      keyboard = m.keyboard;
      console = m.console;
      writes = s.writes ++ port_writes m.effects;
    })

-- `sti`, the interrupts `early` that the processor takes at once, and `scheduler_start`.
unfoldable pub launch : List Irq → System → System
unfolding enable_interrupts take_irqs
launch early s =
    let ready = take_irqs early (enable_interrupts s) in
    with_scheduler (start (scheduler ready)) ready

-- `early` are the interrupts that come between `sti` and `scheduler_start`.
unfoldable pub kernel_start : ℕ → List Irq → Image → Devices → System → Option System
unfolding set_up_devices set_up_memory set_up_tasks launch
kernel_start fuel early image devices s = elim (set_up_devices fuel image devices s) [
  | none ↦ none
  | some s' ↦ some (launch early (set_up_tasks image (set_up_memory devices s')))
]
