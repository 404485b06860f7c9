-- ===== src/Ports.antt =====
-- The drivers that only talk to ports: kernel_os/src/pic.cpp, pit.cpp and serial.cpp. A function
-- gives the writes that it makes, in order, each a port and a byte; what it reads is an argument.
pub mod Laws
mod Tests
use operatingsystem.Common.{ℕ, ◌+◌, ◌-◌, ◌/◌, ◌%◌, ◌^◌, bit_and, bit_or, u8, List, [], ◌∷◌, ◌++◌}
use operatingsystem.Common.{ltb, leb, not, ◌==◌, if◌then◌else◌, Bool, true, false}

abbrev pub Writes : Type 0
Writes = List (ℕ × ℕ)

abbrev pub pic1_command : ℕ
pic1_command = 0x20

abbrev pub pic1_data : ℕ
pic1_data = 0x21

abbrev pub pic2_command : ℕ
pic2_command = 0xa0

abbrev pub pic2_data : ℕ
pic2_data = 0xa1

abbrev pub pic_irq_offset_1 : ℕ
pic_irq_offset_1 = 0x20

abbrev pub pic_irq_offset_2 : ℕ
pic_irq_offset_2 = 0x28

-- `outb(port, value); io_wait();`
abbrev slow : ℕ → ℕ → Writes → Writes
slow port value rest = (port, value) ∷ (0x80, 0) ∷ rest

-- `mask1` and `mask2` are what the data ports read at the start.
unfoldable pub pic_remap : ℕ → ℕ → Writes
pic_remap mask1 mask2 = slow pic1_command 0x11 (
    slow pic2_command 0x11 (
      slow pic1_data pic_irq_offset_1 (
        slow pic2_data pic_irq_offset_2 (
          slow pic1_data 0x04 (
            slow pic2_data 0x02 (
              slow pic1_data 0x01
                (slow pic2_data 0x01 ((pic1_data, mask1) ∷ (pic2_data, mask2) ∷ []))))))))

unfoldable pub pic_send_eoi : ℕ → Writes
pic_send_eoi irq =
    (if leb 8 irq then (pic2_command, 0x20) ∷ [] else []) ++ ((pic1_command, 0x20) ∷ [])

-- The data port and the bit of an interrupt line.
abbrev pub mask_port : ℕ → ℕ
mask_port irq = if ltb irq 8 then pic1_data else pic2_data

abbrev pub mask_bit : ℕ → ℕ
mask_bit irq = if ltb irq 8 then irq else irq - 8

-- `mask` is what the line's data port reads.
unfoldable pub pic_set_mask : ℕ → ℕ → Writes
pic_set_mask irq mask = (mask_port irq, u8 (bit_or mask (2 ^ mask_bit irq))) ∷ []

unfoldable pub pic_clear_mask : ℕ → ℕ → Writes
pic_clear_mask irq mask = (mask_port irq, u8 (bit_and mask (2 ^ 32 - 1 - 2 ^ mask_bit irq))) ∷ []

abbrev pub pit_base_frequency : ℕ
pit_base_frequency = 1193182

unfoldable pub pit_divisor : ℕ → ℕ
pit_divisor frequency_hz = pit_base_frequency / frequency_hz

unfoldable pub pit_init : ℕ → Writes
unfolding pit_divisor
pit_init frequency_hz =
    let divisor = pit_divisor frequency_hz in
    (0x43, 0x36) ∷ (0x40, bit_and divisor 0xff) ∷ (0x40, bit_and (divisor / 2 ^ 8) 0xff) ∷ []

abbrev pub com1_base : ℕ
com1_base = 0x3f8

unfoldable pub serial_init : Writes
serial_init =
    (com1_base + 1, 0x00)
    ∷ (com1_base + 3, 0x80)
    ∷ (com1_base, 0x03)
    ∷ (com1_base + 1, 0x00)
    ∷ (com1_base + 3, 0x03)
    ∷ (com1_base + 2, 0xc7)
    ∷ (com1_base + 4, 0x0b)
    ∷ []

-- `serial_write` of the bytes of a string, the terminator left out: what is sent, in order.
unfoldable pub serial_write : List ℕ → List ℕ
serial_write [] = []
serial_write (c ∷ string) =
    if c == 10 then 13 ∷ c ∷ serial_write string else c ∷ serial_write string
