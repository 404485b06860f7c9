-- ===== src/Elf/Tests.antt =====
-- A small executable under the name "x", on the example machine of the page tables.
use operatingsystem.Common.{◌≡◌, refl, List, [], ◌∷◌, some, true}
use operatingsystem.Ramfs.{RamfsEntry, open_file, find, names_equal}
use operatingsystem.Elf.{ElfImage, elf_load_from_ramfs}
use operatingsystem.Common.{ℕ, ◌+◌, ◌-◌, inr, arith, ◌&&◌, leb, ltb, write, if◌then◌else◌}
use operatingsystem.Elf.{byte_at, copy_memory, write_byte, set_byte}
use operatingsystem.Elf.Bytes.{copy_memory_lem}
use mathlib.Core.Option
use operatingsystem.Common.{Bool, Option}
use operatingsystem.Elf.{
  load_file, load_programs, load_program, map_segment, copy_segment, zero_memory,
}
use operatingsystem.Pmm.{alloc_page, init, test_bit, take_page, set_bit}
use operatingsystem.UserMode.{share_kernel}
use operatingsystem.Vmm.{
  Vmm, create_address_space, zero_entries, map_page, get_or_create_table, split_vaddr, translate,
}
use operatingsystem.Common.{get_or, ◌/◌}
use operatingsystem.Elf.{
  valid_header, valid_user_range, valid_program, read_header, read_program, field,
}
use operatingsystem.Vmm.Example.{start}

abbrev files : List RamfsEntry
files =
    record { name = b'x' ∷ 0 ∷ []; file = record { contents = 0x18000; size = 124 }; used = true }
    ∷ []

abbrev no_image : ElfImage
no_image = record { entry_point = 0; pml4_phys = 0 }

-- The words of the file: the header, one program header, and four bytes of a program for 1 GiB.
abbrev file_words : List ℕ
file_words =
    0x0001_0102_464c_457f ∷ 0 ∷ 0x0000_0001_003e_0002 ∷ 0x4000_0000 ∷ 64 ∷ 0 ∷ 0x0038_0040_0000_0000
    ∷ 1 ∷ 0x0000_0005_0000_0001 ∷ 120 ∷ 0x4000_0000 ∷ 0 ∷ 4 ∷ 4 ∷ 4096 ∷ 0x9090_feeb ∷ []

abbrev with_file : Vmm
with_file = record start {
  memory = λ a.
      if leb 0x18000 a && ltb a 0x18080
      then get_or file_words ((a - 0x18000) / 8) 0
      else start.memory a;
}

accepted : valid_header with_file.memory 0x18000 124 ≡ true
unfolding valid_header valid_user_range read_header field byte_at
accepted = refl

one_segment : valid_program (read_program with_file.memory 0x18040) 124 ≡ true
unfolding valid_user_range read_program field byte_at
one_segment = refl

-- The load succeeds.
loaded :
    Option.map
      (λ (r : Bool × Option ElfImage × Vmm). r.0)
      (elf_load_from_ramfs (some (b'x' ∷ 0 ∷ [])) files (some no_image) with_file)
    ≡ some true
unfolding elf_load_from_ramfs load_file load_programs load_program map_segment copy_segment
    valid_header valid_user_range read_header read_program field byte_at copy_memory zero_memory
    write_byte set_byte open_file find names_equal write create_address_space alloc_page init
    test_bit take_page set_bit share_kernel zero_entries map_page get_or_create_table split_vaddr
    translate
loaded = refl

-- A memory of words that are their own addresses, of which three bytes are copied.
abbrev words : ℕ → ℕ
words a = a

copied : byte_at (copy_memory 0x6001 0x5007 3 words) 0x6002 ≡ 0x08
unfolding byte_at copy_memory write_byte set_byte write
copied = refl

copy_memory_lem_example : byte_at (copy_memory 0x6001 0x5007 3 words) 0x6002 ≡ (
    if leb 0x6001 0x6002 && ltb 0x6002 (0x6001 + 3)
    then byte_at words (0x5007 + (0x6002 - 0x6001))
    else byte_at words 0x6002)
copy_memory_lem_example = copy_memory_lem 0x6001 0x5007 3 words 0x6002 (inr (omega arith))
