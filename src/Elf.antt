-- ===== src/Elf.antt =====
-- The loader of ELF64 executables, kernel_os/src/elf.cpp and kernel_os/include/elf.h. The file and
-- the pages of the program are in the memory of the page tables (Vmm): a byte of it is a part of the
-- word around it. Pointers into the file are addresses, and each field is read where the code reads
-- it. `none` is a name without a terminator, or fuel that runs out.
pub mod Bytes
pub mod Segments
pub mod Loops
pub mod Range
pub mod Load
mod Tests
use operatingsystem.Common.{ℕ, zero, suc, ◌+◌, ◌-◌, ◌*◌, ◌/◌, ◌%◌, ◌^◌, bit_and, bit_or, u64, write}
use operatingsystem.Common.{List, Option, none, some, min}
use operatingsystem.Common.{Bool, true, false, not, ◌&&◌, ◌||◌, ◌==◌, leb, ltb, if◌then◌else◌}
use operatingsystem.Pmm.{page_size, alloc_page}
use operatingsystem.Vmm.{Vmm, pte_user, pte_writable, create_address_space, map_page, translate}
use mathlib.Core.Option
use operatingsystem.Ramfs.{RamfsFile, RamfsEntry, open_file}
use operatingsystem.UserMode.{share_kernel}

-- The byte at an address, in the little-endian word that holds it.
unfoldable pub byte_at : (ℕ → ℕ) → ℕ → ℕ
byte_at memory a = memory (a / 8 * 8) / 2 ^ (8 * (a % 8)) % 256

-- The word with its byte `k` replaced.
unfoldable pub set_byte : ℕ → ℕ → ℕ → ℕ
set_byte word k b =
    word / 2 ^ (8 * k) / 256 * 256 * 2 ^ (8 * k) + b * 2 ^ (8 * k) + word % 2 ^ (8 * k)

unfoldable pub write_byte : (ℕ → ℕ) → ℕ → ℕ → ℕ → ℕ
unfolding set_byte
write_byte memory a b = write memory (a / 8 * 8) (set_byte (memory (a / 8 * 8)) (a % 8) b)

-- A field of `n` bytes.
unfoldable pub field : ℕ → (ℕ → ℕ) → ℕ → ℕ
unfolding byte_at
field zero memory a = 0
field (suc n) memory a = byte_at memory a + 256 * field n memory (a + 1)

abbrev pub user_address_min : ℕ
user_address_min = 0x4000_0000

pub record Elf64Header : Type 0 where
  pub ident : ℕ → ℕ
  pub type : ℕ
  pub machine : ℕ
  pub version : ℕ
  pub entry : ℕ
  pub program_header_offset : ℕ
  pub section_header_offset : ℕ
  pub flags : ℕ
  pub header_size : ℕ
  pub program_header_size : ℕ
  pub program_header_count : ℕ
  pub section_header_size : ℕ
  pub section_header_count : ℕ
  pub section_name_index : ℕ

abbrev pub elf_header_size : ℕ
elf_header_size = 64

-- `*reinterpret_cast<const Elf64Header*>(a)`
unfoldable pub read_header : (ℕ → ℕ) → ℕ → Elf64Header
read_header memory a = record {
  ident = λ i. field 1 memory (a + i);
  type = field 2 memory (a + 16);
  machine = field 2 memory (a + 18);
  version = field 4 memory (a + 20);
  entry = field 8 memory (a + 24);
  program_header_offset = field 8 memory (a + 32);
  section_header_offset = field 8 memory (a + 40);
  flags = field 4 memory (a + 48);
  header_size = field 2 memory (a + 52);
  program_header_size = field 2 memory (a + 54);
  program_header_count = field 2 memory (a + 56);
  section_header_size = field 2 memory (a + 58);
  section_header_count = field 2 memory (a + 60);
  section_name_index = field 2 memory (a + 62);
}

pub record Elf64ProgramHeader : Type 0 where
  pub type : ℕ
  pub flags : ℕ
  pub offset : ℕ
  pub virtual_address : ℕ
  pub physical_address : ℕ
  pub file_size : ℕ
  pub memory_size : ℕ
  pub alignment : ℕ

abbrev pub program_header_bytes : ℕ
program_header_bytes = 56

unfoldable pub read_program : (ℕ → ℕ) → ℕ → Elf64ProgramHeader
read_program memory a = record {
  type = field 4 memory a;
  flags = field 4 memory (a + 4);
  offset = field 8 memory (a + 8);
  virtual_address = field 8 memory (a + 16);
  physical_address = field 8 memory (a + 24);
  file_size = field 8 memory (a + 32);
  memory_size = field 8 memory (a + 40);
  alignment = field 8 memory (a + 48);
}

abbrev pub align_down : ℕ → ℕ
align_down value = bit_and value (2 ^ 64 - page_size)

abbrev pub align_up : ℕ → ℕ
align_up value = bit_and (u64 (value + page_size - 1)) (2 ^ 64 - page_size)

-- The bytes before the `n`-th.
unfoldable pub zero_memory : ℕ → ℕ → (ℕ → ℕ) → ℕ → ℕ
zero_memory destination zero memory = memory
zero_memory destination (suc n) memory =
    write_byte (zero_memory destination n memory) (destination + n) 0

unfoldable pub copy_memory : ℕ → ℕ → ℕ → (ℕ → ℕ) → ℕ → ℕ
copy_memory destination source zero memory = memory
copy_memory destination source (suc n) memory =
    let done = copy_memory destination source n memory in
    write_byte done (destination + n) (byte_at done (source + n))

unfoldable pub valid_user_range : ℕ → ℕ → Bool
valid_user_range address size =
    if ltb address user_address_min || ltb (2 ^ 64 - 1 - address) size
    then false
    else ltb (u64 (address + size)) 0x8000_0000_0000

-- The checks of the header of a file of `size` bytes at `contents`.
unfoldable pub valid_header : (ℕ → ℕ) → ℕ → ℕ → Bool
valid_header memory contents size =
    let header = read_header memory contents in
    let program_headers_size = header.program_header_count * program_header_bytes in
    if not (header.ident 0 == 0x7f)
      || not (header.ident 1 == b'E')
      || not (header.ident 2 == b'L')
      || not (header.ident 3 == b'F')
      || not (header.ident 4 == 2)
      || not (header.ident 5 == 1)
      || not (header.machine == 0x3e)
      || not (header.program_header_size == program_header_bytes)
      || not (valid_user_range header.entry 1)
    then false
    else not (
        ltb size header.program_header_offset
        || ltb (size - header.program_header_offset) program_headers_size)

-- The loop over the pages of a segment.
unfoldable pub map_segment : ℕ → ℕ → ℕ → ℕ → ℕ → Vmm → Option (Bool × Vmm)
map_segment zero pml4_phys address segment_end flags v =
    if ltb address segment_end then none else some (true, v)
map_segment (suc fuel) pml4_phys address segment_end flags v =
    let (page_phys, pmm) = alloc_page v.pmm in
    let zeroed = record v { pmm = pmm; memory = zero_memory page_phys 4096 v.memory } in
    let mapped = map_page pml4_phys address page_phys flags zeroed in
    let rest = map_segment fuel pml4_phys (u64 (address + page_size)) segment_end flags mapped in
    if not (ltb address segment_end)
    then some (true, v)
    else if page_phys == 0
    then some (false, record v { pmm = pmm })
    else rest

-- The loop over the bytes of a segment.
unfoldable pub copy_segment : ℕ → ℕ → ℕ → ℕ → ℕ → Vmm → Option (Bool × Vmm)
copy_segment zero pml4_phys bytes_remaining destination source v =
    if bytes_remaining == 0 then some (true, v) else none
copy_segment (suc fuel) pml4_phys bytes_remaining destination source v =
    let destination_phys = translate pml4_phys destination v in
    let page_remaining = page_size - bit_and destination (page_size - 1) in
    let chunk_size =
      if ltb bytes_remaining page_remaining then bytes_remaining else page_remaining in
    let copied = record v { memory = copy_memory destination_phys source chunk_size v.memory } in
    let rest =
      copy_segment fuel pml4_phys (bytes_remaining - chunk_size) (u64 (destination + chunk_size))
        (source + chunk_size) copied in
    if bytes_remaining == 0
    then some (true, v)
    else if destination_phys == 0
    then some (false, v)
    else rest

abbrev pub valid_program : Elf64ProgramHeader → ℕ → Bool
valid_program program size = not (
    ltb program.memory_size program.file_size
    || ltb size program.offset
    || ltb (size - program.offset) program.file_size
    || not (valid_user_range program.virtual_address program.memory_size))

-- `segment_start` and `segment_end`.
abbrev pub segment_start : Elf64ProgramHeader → ℕ
segment_start program = align_down program.virtual_address

abbrev pub segment_end : Elf64ProgramHeader → ℕ
segment_end program = align_up (u64 (program.virtual_address + program.memory_size))

abbrev pub segment_flags : Elf64ProgramHeader → ℕ
segment_flags program =
    if bit_and program.flags 2 == 0 then pte_user else bit_or pte_user pte_writable

-- A round of the loop over the program headers, for the one at `at`. The length of the segment is
-- fuel for the loop over its pages.
unfoldable pub load_program : ℕ → ℕ → ℕ → ℕ → Vmm → Option (Bool × Vmm)
load_program pml4_phys contents size at v =
    let program = read_program v.memory at in
    let first = segment_start program in
    let end = segment_end program in
    let mapped = map_segment (end - first) pml4_phys first end (segment_flags program) v in
    if not (program.type == 1)
    then some (true, v)
    else if not (valid_program program size)
    then some (false, v)
    else elim mapped [
      | none ↦ none
      | some (false, segment) ↦ some (false, segment)
      | some (true, segment) ↦
          let now = read_program segment.memory at in
          copy_segment now.file_size pml4_phys now.file_size now.virtual_address
            (contents + now.offset) segment
    ]

-- The loop at `index`, over `programs`; a 16-bit count allows 65535 rounds.
unfoldable pub load_programs : ℕ → ℕ → ℕ → ℕ → ℕ → ℕ → Vmm → Option (Bool × Vmm)
load_programs zero index pml4_phys programs contents size v =
    if leb (read_header v.memory contents).program_header_count index then some (true, v) else none
load_programs (suc left) index pml4_phys programs contents size v =
    let loaded = load_program pml4_phys contents size (programs + index * program_header_bytes) v in
    if leb (read_header v.memory contents).program_header_count index
    then some (true, v)
    else elim loaded [
      | none ↦ none
      | some (false, w) ↦ some (false, w)
      | some (true, w) ↦ load_programs left (index + 1) pml4_phys programs contents size w
    ]

pub record ElfImage : Type 0 where
  pub entry_point : ℕ
  pub pml4_phys : ℕ

-- From the creation of the address space on.
unfoldable pub load_file : ℕ → ℕ → ElfImage → Vmm → Option (Bool × ElfImage × Vmm)
load_file contents size image v =
    let (pml4_phys, spaced) = create_address_space v in
    let shared = share_kernel pml4_phys spaced in
    let programs = contents + (read_header shared.memory contents).program_header_offset in
    let loaded = load_programs 65535 0 pml4_phys programs contents size shared in
    if pml4_phys == 0 then some (false, image, spaced) else elim loaded [
      | none ↦ none
      | some (false, w) ↦ some (false, image, w)
      | some (true, w) ↦ some (
        true,
        record { entry_point = (read_header w.memory contents).entry; pml4_phys = pml4_phys },
        w,
      )
    ]

-- `image` is `none` for a null pointer.
unfoldable pub elf_load_from_ramfs :
    Option (List ℕ)
    → List RamfsEntry
    → Option ElfImage
    → Vmm
    → Option (Bool × Option ElfImage × Vmm)
elf_load_from_ramfs name entries none v = some (false, none, v)
elf_load_from_ramfs name entries (some image) v = elim (open_file name entries) [
  | none ↦ none
  | some none ↦ some (false, some image, v)
  | some (some file) ↦
      if ltb file.size elf_header_size
      then some (false, some image, v)
      else if not (valid_header v.memory file.contents file.size)
      then some (false, some image, v)
      else Option.map (λ (r : Bool × ElfImage × Vmm). (r.0, some r.1, r.2))
          (load_file file.contents file.size image v)
]
