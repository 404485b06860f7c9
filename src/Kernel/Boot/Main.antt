-- ===== src/Kernel/Boot/Main.antt =====
-- The whole start of the kernel.
use operatingsystem.Common.{ℕ, ◌^◌, ◌<◌, ◌≡◌}
use operatingsystem.Common.{[], ◌∷◌, true, false}
use operatingsystem.Console.{Console, cell}
use operatingsystem.Console.Screen.{OnScreen}
use operatingsystem.Descriptors.Gates.{LeadsTo}
use operatingsystem.Heap.Calls.{IsHeap}
use operatingsystem.Ramfs.Directory.{Represents, AreArrays, no_files}
use operatingsystem.Scheduler
use operatingsystem.Kernel.Start.{Image, Devices, System, set_up_memory}
use operatingsystem.Kernel.Boot.Devices.{greeted}
use operatingsystem.Kernel.Boot.Launch.{IsRunning}

-- The static variables of the task pool and the file system as the kernel is loaded.
pub record IsReset (s : System) : Type 0 where
  pub free_slots : (j : ℕ) → j < 64 → s.task_slot_used j ≡ false
  pub first_pid : s.next_pid ≡ 1
  pub arrays : AreArrays s.files

-- The addresses that the linker chooses have 64 bits, that of the demo program 52.
pub record IsImage (image : Image) : Type 0 where
  pub stubs : (v : ℕ) → v < 32 → image.isr v < 2 ^ 64
  pub timer : image.irq0 < 2 ^ 64
  pub keyboard : image.irq1 < 2 ^ 64
  pub syscall : image.syscall_stub < 2 ^ 64
  pub program : image.user_program_start < 2 ^ 52

-- The kernel has started from `s`: `t` is the state in which the first thread runs.
pub record Booted (image : Image) (s t : System) : Type 0 where
  pub running : IsRunning image s.cr3 s.switches t
  pub heap : IsHeap t.heap ((65512, true) ∷ [])
  pub files : Represents t.files (no_files s.files)
  pub on_screen : OnScreen t.console
  pub prompt : t.console.vga_buffer 480 ≡ cell 0x0f b'>'
  pub column : t.keyboard_column ≡ 2
  pub timer : LeadsTo (t.tables.idt 0x20) image.irq0 0x8e
  pub keyboard : LeadsTo (t.tables.idt 0x21) image.irq1 0x8e
  pub syscall : LeadsTo (t.tables.idt 0x80) image.syscall_stub 0xee

-- The state in which the tasks are set up.
abbrev with_memory : Console → Image → Devices → System → System
with_memory console image devices s = set_up_memory devices (greeted console image devices s)
