-- ===== src/Vmm.antt =====
-- The virtual memory manager, kernel_os/src/vmm.cpp and kernel_os/include/vmm.h: four levels of
-- page tables in physical memory, which the kernel reads and writes at its own addresses.
-- `memory` is the 64-bit word at each address, `cr3` the register that holds the root of the
-- loaded tables, and `flushed` the addresses given to `invlpg`, latest first.
pub mod Entry
pub mod Walk
pub mod Tree
pub mod Keeps
pub mod Enter
pub mod Fresh
pub mod Step
pub mod Leaf
pub mod Down
pub mod Map
pub mod Pages
pub mod Unmap
pub mod Space
pub mod Example
mod Tests
use operatingsystem.Common.{
  ℕ, zero, suc, ◌+◌, ◌-◌, ◌*◌, ◌/◌, ◌^◌, bit_and, bit_or, List, ◌∷◌, write,
}
use operatingsystem.Common.{Bool, not, ◌==◌, if◌then◌else◌}
use operatingsystem.Pmm.{Pmm, alloc_page}

abbrev pub pte_present : ℕ
pte_present = 1

abbrev pub pte_writable : ℕ
pte_writable = 2

abbrev pub pte_user : ℕ
pte_user = 4

abbrev pub pte_huge : ℕ
pte_huge = 128

abbrev pub pte_nx : ℕ
pte_nx = 2 ^ 63

abbrev pub pte_addr_mask : ℕ
pte_addr_mask = 0x000f_ffff_ffff_f000

pub record Vmm : Type 0 where
  pub pmm : Pmm
  pub memory : ℕ → ℕ
  pub cr3 : ℕ
  pub flushed : List ℕ

pub record VAddrIndices : Type 0 where
  pub pml4_i : ℕ
  pub pdpt_i : ℕ
  pub pd_i : ℕ
  pub pt_i : ℕ

unfoldable pub split_vaddr : ℕ → VAddrIndices
split_vaddr v = record {
  pml4_i = bit_and (v / 2 ^ 39) 0x1ff;
  pdpt_i = bit_and (v / 2 ^ 30) 0x1ff;
  pd_i = bit_and (v / 2 ^ 21) 0x1ff;
  pt_i = bit_and (v / 2 ^ 12) 0x1ff;
}

-- The address of `table->entries[index]`.
abbrev pub entry_at : ℕ → ℕ → ℕ
entry_at table index = table + 8 * index

abbrev pub is_present : ℕ → Bool
is_present e = not (bit_and e pte_present == 0)

abbrev pub is_huge : ℕ → Bool
is_huge e = not (bit_and e pte_huge == 0)

abbrev pub address_of : ℕ → ℕ
address_of e = bit_and e pte_addr_mask

-- `for (i = 0; i < n; i++) table->entries[i] = 0`
unfoldable pub zero_entries : ℕ → ℕ → (ℕ → ℕ) → ℕ → ℕ
zero_entries zero table memory = memory
zero_entries (suc n) table memory = write (zero_entries n table memory) (entry_at table n) 0

-- The entry that `get_or_create_table` makes for a new table.
abbrev pub table_entry : ℕ → ℕ → ℕ
table_entry new_table flags =
    bit_or (bit_or (bit_or (address_of new_table) pte_present) pte_writable)
      (bit_and flags pte_user)

-- The address of the next table, 0 for the null pointer.
unfoldable pub get_or_create_table : ℕ → ℕ → ℕ → Vmm → ℕ × Vmm
get_or_create_table table index flags s =
    let entry = s.memory (entry_at table index) in
    if not (is_present entry)
    then (let (new_table, pmm) = alloc_page s.pmm in
        let e = table_entry new_table flags in
        if new_table == 0 then (0, record s { pmm = pmm }) else (
          address_of e,
          record s {
            pmm = pmm;
            memory = write (zero_entries 512 new_table s.memory) (entry_at table index) e;
          },
        ))
    else if is_huge entry
    then (0, s)
    else if not (bit_and flags pte_user == 0)
    then (let e = bit_or entry pte_user in
        (address_of e, record s { memory = write s.memory (entry_at table index) e }))
    else (address_of entry, s)

unfoldable pub create_address_space : Vmm → ℕ × Vmm
create_address_space s =
    let (pml4_phys, pmm) = alloc_page s.pmm in
    if pml4_phys == 0
    then (0, record s { pmm = pmm })
    else (pml4_phys, record s { pmm = pmm; memory = zero_entries 512 pml4_phys s.memory })

unfoldable pub map_page : ℕ → ℕ → ℕ → ℕ → Vmm → Vmm
map_page pml4_phys virt_addr phys_addr flags s =
    let idx = split_vaddr virt_addr in
    let parent_flags = bit_and flags pte_user in
    let (pdpt, s1) = get_or_create_table pml4_phys idx.pml4_i parent_flags s in
    if pdpt == 0
    then s1
    else (let (pd, s2) = get_or_create_table pdpt idx.pdpt_i parent_flags s1 in
        if pd == 0
        then s2
        else (let (pt, s3) = get_or_create_table pd idx.pd_i parent_flags s2 in
            if pt == 0 then s3 else record s3 {
              memory =
                  write s3.memory (entry_at pt idx.pt_i)
                    (bit_or (bit_or (address_of phys_addr) flags) pte_present);
            }))

unfoldable pub unmap_page : ℕ → ℕ → Vmm → Vmm
unmap_page pml4_phys virt_addr s =
    let idx = split_vaddr virt_addr in
    let e1 = s.memory (entry_at pml4_phys idx.pml4_i) in
    let e2 = s.memory (entry_at (address_of e1) idx.pdpt_i) in
    let e3 = s.memory (entry_at (address_of e2) idx.pd_i) in
    if not (is_present e1)
    then s
    else if is_huge e1
    then s
    else if not (is_present e2)
    then s
    else if is_huge e2
    then s
    else if not (is_present e3)
    then s
    else if is_huge e3
    then s
    else record s {
      memory = write s.memory (entry_at (address_of e3) idx.pt_i) 0;
      flushed = virt_addr ∷ s.flushed;
    }

unfoldable pub switch_address_space : ℕ → Vmm → Vmm
switch_address_space pml4_phys s = record s { cr3 = pml4_phys }

unfoldable pub translate : ℕ → ℕ → Vmm → ℕ
translate pml4_phys virt_addr s =
    let idx = split_vaddr virt_addr in
    let e1 = s.memory (entry_at pml4_phys idx.pml4_i) in
    let e2 = s.memory (entry_at (address_of e1) idx.pdpt_i) in
    let e3 = s.memory (entry_at (address_of e2) idx.pd_i) in
    let e4 = s.memory (entry_at (address_of e3) idx.pt_i) in
    if not (is_present e1)
    then 0
    else if is_huge e1
    then 0
    else if not (is_present e2)
    then 0
    else if is_huge e2
    then bit_or (address_of e2) (bit_and virt_addr (2 ^ 30 - 1))
    else if not (is_present e3)
    then 0
    else if is_huge e3
    then bit_or (address_of e3) (bit_and virt_addr (2 ^ 21 - 1))
    else if not (is_present e4)
    then 0
    else bit_or (address_of e4) (bit_and virt_addr 0xfff)
