-- ===== src/Interrupts/Tests.antt =====
-- Interrupts on a machine with one running task, a page fault and two system calls.
use operatingsystem.Common.{
  ℕ, ◌+◌, ◌-◌, ◌^◌, ◌≤◌, ◌≡◌, arith, List, [], ◌∷◌, ◌++◌, get_or, none, some,
}
use operatingsystem.Common.{true, false, u8, ◌==◌, if◌then◌else◌}
use operatingsystem.Scheduler.{Scheduler, running}
use operatingsystem.Scheduler.Fair.{ticks}
use operatingsystem.Keyboard.{boot}
use operatingsystem.Console.{Console, put_char}
use operatingsystem.Console.Screen.{OnScreen}
use operatingsystem.Interrupts.{
  Machine, SyscallFrame, exception_names, exception_handler, syscall_handler,
}
use operatingsystem.Interrupts.Panic.{strlen, PanicRow, exception_handler_lem}
use operatingsystem.Interrupts.Dispatch.{
  Irq, run_irqs, timer_count, keyboard_after, all_effects, irqs_lem,
}
use operatingsystem.Interrupts.Syscall.{syscall_handler_lem}

abbrev one_task : Scheduler
one_task = record {
  tasks = λ t. record {
    pid = 1;
    state = running;
    kernel_stack_base = 0x4000;
    kernel_stack_top = 0x8000;
    saved_rsp = 0x7fc8;
    pml4_phys = 0;
    next = none;
    name = [];
  };
  current_task = some 0;
  ready_head = none;
  ready_tail = none;
  kernel_pml4_phys = 0x1000;
  cr3 = 0x1000;
  rsp0 = 0x8000;
  switches = [];
}

abbrev screen : Console
screen = record { vga_buffer = λ i. i; cursor_row = 24; cursor_column = 79; serial = [] }

abbrev machine : Machine
machine = record {
  scheduler = one_task;
  keyboard = boot;
  console = screen;
  effects = [];
  halted = false;
}

abbrev irqs : List Irq
irqs =
    record { number = 32; status = 0; code = 0 }
    ∷ record { number = 33; status = 1; code = 0x1e }
    ∷ record { number = 46; status = 0; code = 0 }
    ∷ record { number = 32; status = 0; code = 0 }
    ∷ []

irqs_lem_example : run_irqs irqs machine ≡ record machine {
  scheduler = ticks (timer_count irqs) machine.scheduler;
  keyboard = keyboard_after irqs machine.keyboard;
  effects = machine.effects ++ all_effects irqs;
}
irqs_lem_example = irqs_lem irqs machine (omega arith)

exception_handler_lem_example :
    let name = get_or exception_names 14 [] in
    (n : ℕ) × (after : ℕ → ℕ) × (n + 17 ≤ 80)
    × (strlen name ≡ some n)
    × PanicRow name n 6 machine.console.vga_buffer after
    × (exception_handler 14 6 machine
        ≡ some (record machine {
          console = record machine.console { vga_buffer = after };
          halted = true;
        }))
exception_handler_lem_example = exception_handler_lem 14 6 machine (omega arith)

abbrev write_x : SyscallFrame
write_x = record { rax = 0; rdi = 0x1_0078 }

syscall_handler_lem_example :
    let r = syscall_handler write_x screen in
    OnScreen r.1
    × (r.1.vga_buffer 2000 ≡ screen.vga_buffer 2000)
    × (r.0.rax ≡ (if write_x.rax == 0 then 0 else 2 ^ 64 - 1))
    × (r.0.rdi ≡ write_x.rdi)
    × (r.1 ≡ (if write_x.rax == 0 then put_char (u8 write_x.rdi) screen else screen))
syscall_handler_lem_example = syscall_handler_lem write_x screen 2000 (omega arith) (omega arith)
