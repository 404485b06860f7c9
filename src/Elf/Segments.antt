-- ===== src/Elf/Segments.antt =====
-- What a successful load has done, as steps: the pages that were mapped, the pieces that were copied,
-- the program headers in their order.
use operatingsystem.Common.{
  ℕ, ◌+◌, ◌-◌, ◌*◌, ◌/◌, ◌%◌, ◌^◌, ◌≤◌, ◌<◌, ◌≡◌, ◌≢◌, ◌⊎◌, ◌==◌, if◌then◌else◌, bit_and,
}
use operatingsystem.Pmm.{alloc_page}
use operatingsystem.Vmm.{Vmm, map_page, translate}
use operatingsystem.Elf.{Elf64ProgramHeader, read_program, read_header, zero_memory, copy_memory}

-- From `v` to `w` every page from `address` to `segment_end` has been mapped to a new page full of zeros.
pub data Mapped (root segment_end flags : ℕ) : ℕ → Vmm → Vmm → Type 0 where
  mapped_all :
      (address : ℕ) (v : Vmm) → segment_end ≤ address → Mapped root segment_end flags address v v
  mapped_page :
      (address page : ℕ) (v w : Vmm)
      → address < segment_end
      → page ≡ (alloc_page v.pmm).0
      → page ≢ 0
      → Mapped root segment_end flags
          (address + 4096)
          (map_page root address page flags
            (record v { pmm = (alloc_page v.pmm).1; memory = zero_memory page 4096 v.memory }))
          w
      → Mapped root segment_end flags address v w

-- From `v` to `w` the `n` bytes at `source` have been copied to the virtual address `destination`, in
-- pieces that lie in one page each and go where their start translates to.
pub data Copied (root : ℕ) : ℕ → ℕ → ℕ → Vmm → Vmm → Type 0 where
  copied_all : (destination source : ℕ) (v : Vmm) → Copied root 0 destination source v v
  copied_piece :
      (n piece place destination source : ℕ) (v w : Vmm)
      → 0 < piece
      → piece ≤ n
      → destination % 4096 + piece ≤ 4096
      → place ≡ translate root destination v
      → place ≢ 0
      → Copied root
          (n - piece)
          ((destination + piece) % 2 ^ 64)
          (source + piece)
          (record v { memory = copy_memory place source piece v.memory })
          w
      → Copied root n destination source v w

-- A segment that fits: its bytes are in the file of `size` bytes, and it has room for them between
-- 1 GiB and 2^47.
pub record Fits (program : Elf64ProgramHeader) (size : ℕ) : Type 0 where
  pub room : program.file_size ≤ program.memory_size
  pub in_file : program.offset + program.file_size ≤ size
  pub low : 2 ^ 30 ≤ program.virtual_address
  pub high : program.virtual_address + program.memory_size < 2 ^ 47

-- The segment of the program header at `at` has been loaded: all pages that it touches are mapped, for
-- ring 3 and writable if the header says so, and then its bytes copied, as the header then says.
pub record Segment (root contents size at : ℕ) (v w : Vmm) : Type 0 where
  pub loadable : (read_program v.memory at).type ≡ 1
  pub fits : Fits (read_program v.memory at) size
  pub paged : Vmm
  pub mapped :
      Mapped root
        (((read_program v.memory at).virtual_address
            + (read_program v.memory at).memory_size
            + 4095)
          / 4096
          * 4096)
        (if bit_and (read_program v.memory at).flags 2 == 0 then 4 else 6)
        ((read_program v.memory at).virtual_address / 4096 * 4096)
        v
        paged
  pub copied :
      Copied root
        (read_program paged.memory at).file_size
        (read_program paged.memory at).virtual_address
        (contents + (read_program paged.memory at).offset)
        paged
        w

-- A program header is passed over if its type is not 1, or its segment has been loaded.
abbrev pub Handled : ℕ → ℕ → ℕ → ℕ → Vmm → Vmm → Type 0
Handled root contents size at v w =
    (((read_program v.memory at).type ≢ 1) × (w ≡ v)) ⊎ Segment root contents size at v w

-- From `v` to `w` the program headers from `index` on have been handled, in their order.
pub data Loads (root programs contents size : ℕ) : ℕ → Vmm → Vmm → Type 0 where
  loads_all :
      (index : ℕ) (v : Vmm)
      → (read_header v.memory contents).program_header_count ≤ index
      → Loads root programs contents size index v v
  loads_one :
      (index : ℕ) (v u w : Vmm)
      → index < (read_header v.memory contents).program_header_count
      → Handled root contents size (programs + index * 56) v u
      → Loads root programs contents size (index + 1) u w
      → Loads root programs contents size index v w
