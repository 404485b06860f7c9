-- ===== src/Interrupts.antt =====
-- The handlers that the interrupt stubs call: kernel_os/src/interrupts.cpp and `syscall_handler` of
-- kernel_os/src/syscall.cpp. A frame is the registers of it that the code uses. What the ports
-- read is an argument; `effects` lists what a handler does besides, in order. A handler that halts
-- the processor says so in `halted`.
pub mod Panic
pub mod Dispatch
pub mod Syscall
mod Tests
use operatingsystem.Common.{ℕ, zero, suc, ◌+◌, ◌-◌, ◌*◌, ◌/◌, ◌^◌, bit_and, bit_or, u8, u64, write}
use operatingsystem.Common.{List, [], ◌∷◌, ◌++◌, map, get_elem?, Option, none, some}
use operatingsystem.Common.{Bool, true, false, ◌==◌, ltb, if◌then◌else◌}
use operatingsystem.Ports.{pic_send_eoi}
use operatingsystem.Scheduler.{Scheduler, tick}
use operatingsystem.Keyboard.{Keyboard, handle_irq}
use operatingsystem.Console.{Console, put_char}
use mathlib.Core.Option

-- `(0x4F << 8) | character`, stored in 16 bits.
abbrev pub red_cell : ℕ → ℕ
red_cell character = bit_or (0x4f * 2 ^ 8) character

abbrev pub hex_char : ℕ → ℕ
hex_char nibble = if ltb nibble 10 then b'0' + nibble else b'A' + nibble - 10

-- The first loop of `panic_print`, over the bytes of an array: the column and the cells after it.
-- `none` is a read past the end of the array.
unfoldable pub print_name : List ℕ → ℕ → (ℕ → ℕ) → Option (ℕ × (ℕ → ℕ))
print_name [] col vga = none
print_name (c ∷ str) col vga =
    let rest = print_name str (col + 1) (write vga col (red_cell c)) in
    if c == 0 then some (col, vga) else rest

-- The second loop from the shift by `4 * (n - 1)` on.
unfoldable pub print_code : ℕ → ℕ → ℕ → (ℕ → ℕ) → ℕ → ℕ
print_code zero code col vga = vga
print_code (suc n) code col vga =
    print_code n code (col + 1)
      (write vga col (red_cell (hex_char (bit_and (code / 2 ^ (4 * n)) 0xf))))

unfoldable pub panic_print : List ℕ → ℕ → (ℕ → ℕ) → Option (ℕ → ℕ)
panic_print str code vga = elim (print_name str 80 vga) [
  | none ↦ none
  | some (col, named) ↦ some (print_code 16 code (col + 1) (write named col (red_cell b' ')))
]

-- What a handler does: it writes a byte to a port, lets the scheduler's tick run, or lets the
-- keyboard driver run.
pub data Effect : Type 0 where
  wrote : ℕ → ℕ → Effect
  ticked : Effect
  typed : Effect

pub record Machine : Type 0 where
  pub scheduler : Scheduler
  pub keyboard : Keyboard
  pub console : Console
  pub effects : List Effect
  pub halted : Bool

-- `pic_send_eoi(irq)`
abbrev pub send_eoi : ℕ → Machine → Machine
send_eoi irq m = record m {
  effects = m.effects ++ map (λ (w : ℕ × ℕ). wrote w.0 w.1) (pic_send_eoi (u8 irq));
}

abbrev pub run_tick : Machine → Machine
run_tick m = record m { scheduler = tick m.scheduler; effects = m.effects ++ (ticked ∷ []) }

-- `status` and `code` are what the keyboard controller's ports read.
abbrev pub run_keyboard : ℕ → ℕ → Machine → Machine
run_keyboard status code m = record m {
  keyboard = handle_irq status code m.keyboard;
  effects = m.effects ++ (typed ∷ []);
}

unfoldable pub irq_handler : ℕ → ℕ → ℕ → Machine → Machine
irq_handler interrupt_number status code m =
    if interrupt_number == 32
    then run_tick (send_eoi 0 m)
    else if interrupt_number == 33
    then send_eoi 1 (run_keyboard status code m)
    else send_eoi (u64 (interrupt_number + 2 ^ 64 - 32)) m

-- The texts of `exception_names`, a byte array each.
abbrev pub exception_names : List (List ℕ)
exception_names =
    (b'D' ∷ b'i' ∷ b'v' ∷ b'i' ∷ b'd' ∷ b'e' ∷ b' ' ∷ b'b' ∷ b'y' ∷ b' ' ∷ b'Z' ∷ b'e' ∷ b'r' ∷ b'o'
      ∷ 0 ∷ [])
    ∷ (b'D' ∷ b'e' ∷ b'b' ∷ b'u' ∷ b'g' ∷ 0 ∷ [])
    ∷ (b'N' ∷ b'M' ∷ b'I' ∷ 0 ∷ [])
    ∷ (b'B' ∷ b'r' ∷ b'e' ∷ b'a' ∷ b'k' ∷ b'p' ∷ b'o' ∷ b'i' ∷ b'n' ∷ b't' ∷ 0 ∷ [])
    ∷ (b'O' ∷ b'v' ∷ b'e' ∷ b'r' ∷ b'f' ∷ b'l' ∷ b'o' ∷ b'w' ∷ 0 ∷ [])
    ∷ (b'B' ∷ b'o' ∷ b'u' ∷ b'n' ∷ b'd' ∷ b' ' ∷ b'R' ∷ b'a' ∷ b'n' ∷ b'g' ∷ b'e' ∷ 0 ∷ [])
    ∷ (b'I' ∷ b'n' ∷ b'v' ∷ b'a' ∷ b'l' ∷ b'i' ∷ b'd' ∷ b' ' ∷ b'O' ∷ b'p' ∷ b'c' ∷ b'o' ∷ b'd'
        ∷ b'e' ∷ 0 ∷ [])
    ∷ (b'D' ∷ b'e' ∷ b'v' ∷ b'i' ∷ b'c' ∷ b'e' ∷ b' ' ∷ b'N' ∷ b'/' ∷ b'A' ∷ 0 ∷ [])
    ∷ (b'D' ∷ b'o' ∷ b'u' ∷ b'b' ∷ b'l' ∷ b'e' ∷ b' ' ∷ b'F' ∷ b'a' ∷ b'u' ∷ b'l' ∷ b't' ∷ 0 ∷ [])
    ∷ (b'C' ∷ b'o' ∷ b'p' ∷ b'r' ∷ b'o' ∷ b'c' ∷ b' ' ∷ b'S' ∷ b'e' ∷ b'g' ∷ b'm' ∷ b'e' ∷ b'n'
        ∷ b't' ∷ 0 ∷ [])
    ∷ (b'I' ∷ b'n' ∷ b'v' ∷ b'a' ∷ b'l' ∷ b'i' ∷ b'd' ∷ b' ' ∷ b'T' ∷ b'S' ∷ b'S' ∷ 0 ∷ [])
    ∷ (b'S' ∷ b'e' ∷ b'g' ∷ b'm' ∷ b'e' ∷ b'n' ∷ b't' ∷ b' ' ∷ b'N' ∷ b'o' ∷ b't' ∷ b' ' ∷ b'P'
        ∷ b'r' ∷ b'e' ∷ b's' ∷ b'e' ∷ b'n' ∷ b't' ∷ 0 ∷ [])
    ∷ (b'S' ∷ b't' ∷ b'a' ∷ b'c' ∷ b'k' ∷ b' ' ∷ b'F' ∷ b'a' ∷ b'u' ∷ b'l' ∷ b't' ∷ 0 ∷ [])
    ∷ (b'G' ∷ b'e' ∷ b'n' ∷ b'e' ∷ b'r' ∷ b'a' ∷ b'l' ∷ b' ' ∷ b'P' ∷ b'r' ∷ b'o' ∷ b't' ∷ b'e'
        ∷ b'c' ∷ b't' ∷ b'i' ∷ b'o' ∷ b'n' ∷ 0 ∷ [])
    ∷ (b'P' ∷ b'a' ∷ b'g' ∷ b'e' ∷ b' ' ∷ b'F' ∷ b'a' ∷ b'u' ∷ b'l' ∷ b't' ∷ 0 ∷ [])
    ∷ (b'R' ∷ b'e' ∷ b's' ∷ b'e' ∷ b'r' ∷ b'v' ∷ b'e' ∷ b'd' ∷ 0 ∷ [])
    ∷ (b'x' ∷ b'8' ∷ b'7' ∷ b' ' ∷ b'F' ∷ b'P' ∷ b' ' ∷ b'E' ∷ b'x' ∷ b'c' ∷ b'e' ∷ b'p' ∷ b't'
        ∷ b'i' ∷ b'o' ∷ b'n' ∷ 0 ∷ [])
    ∷ (b'A' ∷ b'l' ∷ b'i' ∷ b'g' ∷ b'n' ∷ b'm' ∷ b'e' ∷ b'n' ∷ b't' ∷ b' ' ∷ b'C' ∷ b'h' ∷ b'e'
        ∷ b'c' ∷ b'k' ∷ 0 ∷ [])
    ∷ (b'M' ∷ b'a' ∷ b'c' ∷ b'h' ∷ b'i' ∷ b'n' ∷ b'e' ∷ b' ' ∷ b'C' ∷ b'h' ∷ b'e' ∷ b'c' ∷ b'k' ∷ 0
        ∷ [])
    ∷ (b'S' ∷ b'I' ∷ b'M' ∷ b'D' ∷ b' ' ∷ b'F' ∷ b'P' ∷ 0 ∷ [])
    ∷ (b'V' ∷ b'i' ∷ b'r' ∷ b't' ∷ b'u' ∷ b'a' ∷ b'l' ∷ b'i' ∷ b'z' ∷ b'a' ∷ b't' ∷ b'i' ∷ b'o'
        ∷ b'n' ∷ 0 ∷ [])
    ∷ (b'C' ∷ b'o' ∷ b'n' ∷ b't' ∷ b'r' ∷ b'o' ∷ b'l' ∷ b' ' ∷ b'P' ∷ b'r' ∷ b'o' ∷ b't' ∷ b'e'
        ∷ b'c' ∷ b't' ∷ b'i' ∷ b'o' ∷ b'n' ∷ 0 ∷ [])
    ∷ (b'R' ∷ b'e' ∷ b's' ∷ b'e' ∷ b'r' ∷ b'v' ∷ b'e' ∷ b'd' ∷ 0 ∷ [])
    ∷ (b'R' ∷ b'e' ∷ b's' ∷ b'e' ∷ b'r' ∷ b'v' ∷ b'e' ∷ b'd' ∷ 0 ∷ [])
    ∷ (b'R' ∷ b'e' ∷ b's' ∷ b'e' ∷ b'r' ∷ b'v' ∷ b'e' ∷ b'd' ∷ 0 ∷ [])
    ∷ (b'R' ∷ b'e' ∷ b's' ∷ b'e' ∷ b'r' ∷ b'v' ∷ b'e' ∷ b'd' ∷ 0 ∷ [])
    ∷ (b'R' ∷ b'e' ∷ b's' ∷ b'e' ∷ b'r' ∷ b'v' ∷ b'e' ∷ b'd' ∷ 0 ∷ [])
    ∷ (b'R' ∷ b'e' ∷ b's' ∷ b'e' ∷ b'r' ∷ b'v' ∷ b'e' ∷ b'd' ∷ 0 ∷ [])
    ∷ (b'H' ∷ b'y' ∷ b'p' ∷ b'e' ∷ b'r' ∷ b'v' ∷ b'i' ∷ b's' ∷ b'o' ∷ b'r' ∷ b' ' ∷ b'I' ∷ b'n'
        ∷ b'j' ∷ b'e' ∷ b'c' ∷ b't' ∷ b'i' ∷ b'o' ∷ b'n' ∷ 0 ∷ [])
    ∷ (b'V' ∷ b'M' ∷ b'M' ∷ b' ' ∷ b'C' ∷ b'o' ∷ b'm' ∷ b'm' ∷ b'u' ∷ b'n' ∷ b'i' ∷ b'c' ∷ b'a'
        ∷ b't' ∷ b'i' ∷ b'o' ∷ b'n' ∷ 0 ∷ [])
    ∷ (b'S' ∷ b'e' ∷ b'c' ∷ b'u' ∷ b'r' ∷ b'i' ∷ b't' ∷ b'y' ∷ b' ' ∷ b'E' ∷ b'x' ∷ b'c' ∷ b'e'
        ∷ b'p' ∷ b't' ∷ b'i' ∷ b'o' ∷ b'n' ∷ 0 ∷ [])
    ∷ (b'R' ∷ b'e' ∷ b's' ∷ b'e' ∷ b'r' ∷ b'v' ∷ b'e' ∷ b'd' ∷ 0 ∷ [])
    ∷ []

-- `none` is a read past the end of an array. The handler does not return.
unfoldable pub exception_handler : ℕ → ℕ → Machine → Option Machine
exception_handler interrupt_number error_code m =
    elim (get_elem? exception_names interrupt_number) [
      | none ↦ none
      | some name ↦ elim (panic_print name error_code m.console.vga_buffer) [
        | none ↦ none
        | some vga ↦
            some (record m { console = record m.console { vga_buffer = vga }; halted = true })
      ]
    ]

-- The registers of a frame that `syscall_handler` reads or writes.
pub record SyscallFrame : Type 0 where
  pub rax : ℕ
  pub rdi : ℕ

abbrev pub syscall_write_char : ℕ
syscall_write_char = 0

unfoldable pub syscall_handler : SyscallFrame → Console → SyscallFrame × Console
syscall_handler frame c =
    if frame.rax == syscall_write_char
    then (record frame { rax = 0 }, put_char (u8 frame.rdi) c)
    else (record frame { rax = 2 ^ 64 - 1 }, c)
