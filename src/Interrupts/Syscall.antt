-- ===== src/Interrupts/Syscall.antt =====
-- `syscall_handler`: what a user program can reach through it.
use operatingsystem.Common.{
  ℕ, ◌-◌, ◌^◌, ◌≤◌, ◌≡◌, refl, u8, ◌==◌, Bool-cases, inl, inr, if◌then◌else◌,
}
use operatingsystem.Console.{Console, put_char}
use operatingsystem.Console.Screen.{OnScreen, put_char-OnScreen}
use operatingsystem.Interrupts.{SyscallFrame, syscall_handler}

-- Whatever the registers hold, a system call keeps the cursor on the screen and writes to no cell
-- behind the 2000 of the text buffer; it returns 0 for call 0, which puts the low byte of rdi on the
-- console, and 2^64 - 1 for any other, which leaves the console as it is; rdi is kept.
pub syscall_handler_lem :
    (frame : SyscallFrame) (c : Console) (i : ℕ)
    → OnScreen c
    → 2000 ≤ i
    → let r = syscall_handler frame c in
      OnScreen r.1
      × (r.1.vga_buffer i ≡ c.vga_buffer i)
      × (r.0.rax ≡ (if frame.rax == 0 then 0 else 2 ^ 64 - 1))
      × (r.0.rdi ≡ frame.rdi)
      × (r.1 ≡ (if frame.rax == 0 then put_char (u8 frame.rdi) c else c))
unfolding syscall_handler
syscall_handler_lem frame c i v h = elim (Bool-cases (frame.rax == 0)) [
  | inl write_char ↦
      let kept = put_char-OnScreen (u8 frame.rdi) c i v h in
      rw write_char (kept.0, kept.1, refl, refl, refl)
  | inr unknown ↦ rw unknown (v, refl, refl, refl, refl)
]
