-- ===== src/Descriptors.antt =====
-- The descriptor tables, kernel_os/src/gdt.cpp, idt.cpp and the first function of syscall.cpp, with
-- their headers: the segments and the task state in the GDT, the gates of the interrupts in the
-- IDT. A packed structure is a record of its fields. The addresses of the tables and of the entry
-- points in the assembly files are arguments. `gdtr` and `idtr` are what gdt_flush and idt_load
-- load, `task_register` is the selector that tss_flush loads.
pub mod Segments
pub mod Gates
mod Tests
use operatingsystem.Common.{
  ℕ, zero, suc, ◌+◌, ◌-◌, ◌*◌, ◌/◌, ◌^◌, bit_and, bit_or, Option, none, some, write,
}

pub record GdtEntry : Type 0 where
  pub limit_low : ℕ
  pub base_low : ℕ
  pub base_middle : ℕ
  pub access : ℕ
  pub granularity : ℕ
  pub base_high : ℕ

pub record TssDescriptor : Type 0 where
  pub limit_low : ℕ
  pub base_low : ℕ
  pub base_middle : ℕ
  pub access : ℕ
  pub granularity : ℕ
  pub base_high : ℕ
  pub base_upper : ℕ
  pub reserved : ℕ

-- `GdtPointer` and `IdtPointer`.
pub record TablePointer : Type 0 where
  pub limit : ℕ
  pub base : ℕ

pub record Tss : Type 0 where
  pub reserved0 : ℕ
  pub rsp0 : ℕ
  pub rsp1 : ℕ
  pub rsp2 : ℕ
  pub reserved1 : ℕ
  pub ist : ℕ → ℕ
  pub reserved2 : ℕ
  pub reserved3 : ℕ
  pub iomap_base : ℕ

pub record IdtEntry : Type 0 where
  pub offset_low : ℕ
  pub selector : ℕ
  pub ist : ℕ
  pub type_attr : ℕ
  pub offset_mid : ℕ
  pub offset_high : ℕ
  pub reserved : ℕ

pub record Tables : Type 0 where
  pub gdt : ℕ → GdtEntry
  pub gdt_ptr : TablePointer
  pub tss : Tss
  pub idt : ℕ → IdtEntry
  pub idt_ptr : TablePointer
  pub gdtr : Option TablePointer
  pub task_register : ℕ
  pub idtr : Option TablePointer

abbrev pub gdt_kernel_code : ℕ
gdt_kernel_code = 0x08

abbrev pub gdt_tss : ℕ
gdt_tss = 0x28

-- `sizeof(Tss)`: the sizes of its fields, in bytes.
abbrev pub tss_size : ℕ
tss_size = 4 + 8 + 8 + 8 + 8 + 56 + 8 + 2 + 2

unfoldable pub set_gdt_entry : ℕ → ℕ → ℕ → ℕ → ℕ → Tables → Tables
set_gdt_entry index base limit access granularity t = record t {
  gdt = write t.gdt index (record {
    limit_low = bit_and limit 0xffff;
    base_low = bit_and base 0xffff;
    base_middle = bit_and (base / 2 ^ 16) 0xff;
    access = access;
    granularity = bit_or (bit_and (limit / 2 ^ 16) 0x0f) (bit_and granularity 0xf0);
    base_high = bit_and (base / 2 ^ 24) 0xff;
  });
}

-- The lower and the upper eight bytes of the descriptor, as the slots of the table hold them.
abbrev pub lower_slot : TssDescriptor → GdtEntry
lower_slot d = record {
  limit_low = d.limit_low;
  base_low = d.base_low;
  base_middle = d.base_middle;
  access = d.access;
  granularity = d.granularity;
  base_high = d.base_high;
}

abbrev pub upper_slot : TssDescriptor → GdtEntry
upper_slot d = record {
  limit_low = bit_and d.base_upper 0xffff;
  base_low = bit_and (d.base_upper / 2 ^ 16) 0xffff;
  base_middle = bit_and d.reserved 0xff;
  access = bit_and (d.reserved / 2 ^ 8) 0xff;
  granularity = bit_and (d.reserved / 2 ^ 16) 0xff;
  base_high = bit_and (d.reserved / 2 ^ 24) 0xff;
}

unfoldable pub set_tss_entry : ℕ → ℕ → Tables → Tables
set_tss_entry base limit t =
    let desc : TssDescriptor = record {
      limit_low = bit_and limit 0xffff;
      base_low = bit_and base 0xffff;
      base_middle = bit_and (base / 2 ^ 16) 0xff;
      access = 0x89;
      granularity = bit_and (limit / 2 ^ 16) 0x0f;
      base_high = bit_and (base / 2 ^ 24) 0xff;
      base_upper = bit_and (base / 2 ^ 32) 0xffff_ffff;
      reserved = 0;
    } in
    record t {
      gdt = write (write t.gdt (gdt_tss / 8) (lower_slot desc)) (gdt_tss / 8 + 1) (upper_slot desc);
    }

-- A `Tss` of zero bytes.
abbrev pub zero_tss : Tss
zero_tss = record {
  reserved0 = 0;
  rsp0 = 0;
  rsp1 = 0;
  rsp2 = 0;
  reserved1 = 0;
  ist = λ i. 0;
  reserved2 = 0;
  reserved3 = 0;
  iomap_base = 0;
}

-- `gdt_addr` and `tss_addr` are the addresses of `gdt` and `tss`.
unfoldable pub gdt_init : ℕ → ℕ → Tables → Tables
gdt_init gdt_addr tss_addr t0 =
    let ptr : TablePointer = record { limit = 7 * 8 - 1; base = gdt_addr } in
    let t1 = set_gdt_entry 0 0 0 0 0 (record t0 { gdt_ptr = ptr }) in
    let t2 = set_gdt_entry 1 0 0 0x9a 0x20 t1 in
    let t3 = set_gdt_entry 2 0 0 0x92 0x00 t2 in
    let t4 = set_gdt_entry 3 0 0 0xf2 0x00 t3 in
    let t5 = set_gdt_entry 4 0 0 0xfa 0x20 t4 in
    let t6 = record t5 { tss = record zero_tss { iomap_base = tss_size } } in
    let t7 = set_tss_entry tss_addr (tss_size - 1) t6 in
    record t7 { gdtr = some t7.gdt_ptr; task_register = gdt_tss }

unfoldable pub idt_set_entry : ℕ → ℕ → ℕ → Tables → Tables
idt_set_entry vector addr type_attr t = record t {
  idt = write t.idt vector (record {
    offset_low = bit_and addr 0xffff;
    selector = 0x08;
    ist = 0;
    type_attr = type_attr;
    offset_mid = bit_and (addr / 2 ^ 16) 0xffff;
    offset_high = bit_and (addr / 2 ^ 32) 0xffff_ffff;
    reserved = 0;
  });
}

-- `const uint8_t GATE`
abbrev pub gate : ℕ
gate = 0x8e

-- The first `n` rounds of the loop over `exception_handlers`.
unfoldable pub set_exceptions : ℕ → (ℕ → ℕ) → Tables → Tables
set_exceptions zero isr t = t
set_exceptions (suc n) isr t = idt_set_entry n (isr n) gate (set_exceptions n isr t)

-- `isr` gives the addresses of the stubs `isr0` to `isr31`, `irq0` and `irq1` are those of the two
-- stubs of these names, `idt_addr` is the address of `idt`.
unfoldable pub idt_init : ℕ → (ℕ → ℕ) → ℕ → ℕ → Tables → Tables
idt_init idt_addr isr irq0 irq1 t0 =
    let ptr : TablePointer = record { limit = 256 * 16 - 1; base = idt_addr } in
    let t1 = set_exceptions 32 isr (record t0 { idt_ptr = ptr }) in
    let t2 = idt_set_entry 0x20 irq0 gate t1 in
    let t3 = idt_set_entry 0x21 irq1 gate t2 in record t3 { idtr = some t3.idt_ptr }

abbrev pub syscall_vector : ℕ
syscall_vector = 0x80

unfoldable pub syscall_init : ℕ → Tables → Tables
syscall_init syscall_stub t = idt_set_entry syscall_vector syscall_stub 0xee t
