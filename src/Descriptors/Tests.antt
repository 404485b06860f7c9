-- ===== src/Descriptors/Tests.antt =====
-- The tables of a kernel loaded at 1 MiB.
use operatingsystem.Common.{ℕ, ◌+◌, ◌*◌, ◌<◌, ◌≡◌, ◌↔◌, refl, arith, some, none, get_or, true}
use operatingsystem.Descriptors.{
  GdtEntry, IdtEntry, TablePointer, Tables, zero_tss, gdt_init, idt_init, syscall_init,
}
use operatingsystem.Descriptors.Segments.{
  base_of, limit_of, flags_of, wide_base_of, access_bytes, flag_nibbles, gdt_init_lem,
}
use operatingsystem.Descriptors.Gates.{GateOf, for_users, user_gate_lem}

abbrev no_segment : GdtEntry
no_segment = record {
  limit_low = 0;
  base_low = 0;
  base_middle = 0;
  access = 0;
  granularity = 0;
  base_high = 0;
}

abbrev no_gate : IdtEntry
no_gate = record {
  offset_low = 0;
  selector = 0;
  ist = 0;
  type_attr = 0;
  offset_mid = 0;
  offset_high = 0;
  reserved = 0;
}

abbrev no_table : TablePointer
no_table = record { limit = 0; base = 0 }

abbrev static : Tables
static = record {
  gdt = λ i. no_segment;
  gdt_ptr = no_table;
  tss = zero_tss;
  idt = λ i. no_gate;
  idt_ptr = no_table;
  gdtr = none;
  task_register = 0;
  idtr = none;
}

abbrev stub : ℕ → ℕ
stub v = 0x10_0000 + 16 * v

abbrev segmented : Tables
segmented = gdt_init 0x10_3000 0x10_4020 static

gdt_init_lem_example :
    (segmented.gdtr ≡ some (record { limit = 55; base = 0x10_3000 }))
    × (segmented.task_register ≡ 8 * 5)
    × (wide_base_of (segmented.gdt 5) (segmented.gdt 6) ≡ 0x10_4020)
    × (limit_of (segmented.gdt 5) ≡ 103)
    × ((segmented.gdt 5).access ≡ 0x89)
    × ((i : ℕ)
        → i < 5
        → (base_of (segmented.gdt i) ≡ 0)
          × (limit_of (segmented.gdt i) ≡ 0)
          × ((segmented.gdt i).access ≡ get_or access_bytes i 0)
          × (flags_of (segmented.gdt i) ≡ get_or flag_nibbles i 0))
gdt_init_lem_example = gdt_init_lem 0x10_3000 0x10_4020 static (omega arith)

abbrev gated : Tables
gated = syscall_init 0x10_0900 (idt_init 0x10_5000 stub 0x10_0800 0x10_0810 static)

user_gate_lem_example :
    GateOf stub 0x10_0800 0x10_0810 0x10_0900 13 (gated.idt 13)
    × ((for_users (gated.idt 13) ≡ true) ↔ (◌≡◌ {A = ℕ} 13 0x80))
user_gate_lem_example =
    user_gate_lem 0x10_5000 stub 0x10_0800 0x10_0810 0x10_0900 static 13 (λ v l. omega arith)
      (omega arith) (omega arith) (omega arith) (λ i h. refl) (omega arith)
