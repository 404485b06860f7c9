-- ===== src/Kernel/Boot/Example.antt =====
-- A machine on which the kernel starts: its tables at 0x102000, 0x103000 and 0x104000, the rest of
-- the memory 0.
use operatingsystem.Common.{
  ℕ, zero, suc, List, ◌+◌, ◌-◌, ◌*◌, ◌/◌, ◌^◌, ◌<◌, ◌≡◌, refl, ap, ◌∙◌, arith,
}
use operatingsystem.Common.{bit, ◌⊎◌, [], ◌∷◌, none, false, ◌==◌, ◌&&◌, leb, ltb, if◌then◌else◌}
use operatingsystem.Descriptors.{GdtEntry, IdtEntry, zero_tss}
use operatingsystem.Keyboard.{boot}
use operatingsystem.Scheduler.{Task, new}
use operatingsystem.Vmm.{is_present, is_huge, entry_at}
use operatingsystem.Vmm.Entry.{is_huge_lem}
use operatingsystem.Kernel.Start.{Image, Devices, System}
use operatingsystem.Kernel.Boot.Space.{BootTables}
use operatingsystem.Kernel.Boot.Main.{IsReset, IsImage}

abbrev pub boot_memory : ℕ → ℕ
boot_memory a =
    if a == 0x102000
    then 0x103003
    else if a == 0x103000
    then 0x104003
    else if leb 0x104000 a && ltb a 0x105000
    then (a - 0x104000) / 8 * 2 ^ 21 + 0x83
    else 0

seventh : (i : ℕ) → bit 7 (i * 2 ^ 21 + 0x83) ≡ 1
unfolding bit
seventh i = omega arith

pub boot_memory-BootTables : BootTables boot_memory 0x102000 0x103000 0x104000
boot_memory-BootTables = record {
  at_pml4 = omega arith;
  at_pdpt = omega arith;
  at_pd = omega arith;
  distinct = omega arith;
  pml4_first = record { present = refl; no_huge = refl; address = refl };
  pml4_rest = λ i p h. ap is_present (empty (0x102000 + 8 * i) (omega arith));
  pdpt_first = record { present = refl; no_huge = refl; address = refl };
  pdpt_rest = λ i p h. ap is_present (empty (0x103000 + 8 * i) (omega arith));
  pd_huge = λ i h. ap is_huge (large i h) ∙ is_huge_lem (i * 2 ^ 21 + 0x83) ∙ rw (seventh i) refl;
}
  where
    empty :
        (a : ℕ)
        → ((0x102000 < a) × (a < 0x103000)) ⊎ ((0x103000 < a) × (a < 0x104000))
        → boot_memory a ≡ 0
    empty a h = ground arith

    large : (i : ℕ) → i < 512 → boot_memory (entry_at 0x104000 i) ≡ i * 2 ^ 21 + 0x83
    large i h = ground arith

abbrev no_entry : GdtEntry
no_entry = record {
  limit_low = 0;
  base_low = 0;
  base_middle = 0;
  access = 0;
  granularity = 0;
  base_high = 0;
}

abbrev no_gate : IdtEntry
no_gate = record {
  offset_low = 0;
  selector = 0;
  ist = 0;
  type_attr = 0;
  offset_mid = 0;
  offset_high = 0;
  reserved = 0;
}

abbrev no_task : Task
no_task = record {
  pid = 0;
  state = new;
  kernel_stack_base = 0;
  kernel_stack_top = 0;
  saved_rsp = 0;
  pml4_phys = 0;
  next = none;
  name = [];
}

abbrev zeros : ℕ → List ℕ
zeros zero = []
zeros (suc n) = 0 ∷ zeros n

abbrev no_name : List ℕ
no_name = zeros 32

abbrev pub image : Image
image = record {
  gdt_addr = 0x105000;
  tss_addr = 0x105100;
  idt_addr = 0x106000;
  isr = λ v. 0x110000 + v;
  irq0 = 0x110020;
  irq1 = 0x110021;
  syscall_stub = 0x110080;
  thread_a_entry = 0x111000;
  thread_b_entry = 0x112000;
  user_mode_demo_thread = 0x113000;
  user_program_start = 0x114010;
}

pub image-IsImage : IsImage image
image-IsImage = record {
  stubs = λ v h. omega arith;
  timer = omega arith;
  keyboard = omega arith;
  syscall = omega arith;
  program = omega arith;
}

-- The keyboard's buffer holds two bytes at the start.
abbrev pub devices : Devices
devices = record {
  mask1 = 0xb8;
  mask2 = 0x8e;
  keyboard_status = λ n. if ltb n 2 then 1 else 0;
  keyboard_mask = 0xb8;
  bitmap_before = λ i. 0xff;
}

abbrev pub loaded : System
loaded = record {
  console = record { vga_buffer = λ i. 0; cursor_row = 7; cursor_column = 7; serial = [] };
  keyboard_column = 0;
  keyboard = boot;
  tables = record {
    gdt = λ i. no_entry;
    gdt_ptr = record { limit = 0; base = 0 };
    tss = zero_tss;
    idt = λ i. no_gate;
    idt_ptr = record { limit = 0; base = 0 };
    gdtr = none;
    task_register = 0;
    idtr = none;
  };
  writes = [];
  heap = record {
    headers = λ a. record { size = 0; free = false; next = none };
    first_block = none;
    heap_initialized = false;
  };
  files =
      record { name = no_name; file = record { contents = 0; size = 0 }; used = false }
      ∷ record { name = no_name; file = record { contents = 0; size = 0 }; used = false }
      ∷ [];
  pmm = record { bitmap = λ i. 0; total_pages = 0; free_pages = 0; search_hint = 0 };
  memory = boot_memory;
  cr3 = 0x102000;
  flushed = [];
  tasks = λ i. no_task;
  task_slot_used = λ i. false;
  next_pid = 1;
  current_task = none;
  ready_head = none;
  ready_tail = none;
  kernel_pml4_phys = 0;
  switches = [];
  demo_entry_address = 0;
  demo_stack_top = 0;
  interrupts_enabled = false;
}

pub loaded-IsReset : IsReset loaded
loaded-IsReset = record { free_slots = λ j h. refl; first_pid = refl; arrays = (refl, (refl, tt)) }
