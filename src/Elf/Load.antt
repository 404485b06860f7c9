-- ===== src/Elf/Load.antt =====
-- `elf_load_from_ramfs`: it returns, and what a success means.
use operatingsystem.Common.{ℕ, ◌+◌, ◌≡◌}
use operatingsystem.Common.{Option, some}
use operatingsystem.Common.{Bool, true, false, ◌⊎◌, ◌≢◌}
use mathlib.Core.Option
use operatingsystem.Vmm.{Vmm, create_address_space}
use operatingsystem.UserMode.{share_kernel}
use operatingsystem.Ramfs.{RamfsFile}
use operatingsystem.Elf.Range.{Accepted}
use operatingsystem.Elf.Segments.{Loads}
use operatingsystem.Elf.{ElfImage, read_header}

-- The state in which the program headers are handled: a new space that shares the kernel's lowest
-- 512 GiB.
abbrev spaced : Vmm → Vmm
spaced v = share_kernel (create_address_space v).0 (create_address_space v).1

-- From `v` to `w` the file of `size` bytes at `contents` has been loaded, and the image says where.
pub record Success (contents size : ℕ) (v : Vmm) (image : ElfImage) (w : Vmm) : Type 0 where
  pub accepted : Accepted v.memory contents size
  pub space : image.pml4_phys ≡ (create_address_space v).0
  pub nonzero : (create_address_space v).0 ≢ 0
  pub entry : image.entry_point ≡ (read_header w.memory contents).entry
  pub loads :
      Loads
        (create_address_space v).0
        (contents + (read_header (spaced v).memory contents).program_header_offset)
        contents
        size
        0
        (spaced v)
        w

abbrev FileEnds : ℕ → ℕ → ElfImage → Vmm → Option (Bool × ElfImage × Vmm) → Type 0
FileEnds contents size image v r =
    (x : Bool × ElfImage × Vmm) × (r ≡ some x)
    × (((x.0 ≡ false) × (x.1 ≡ image)) ⊎ ((x.0 ≡ true) × Success contents size v x.1 x.2))

-- What the caller sees of a load of `file`: it fails and the image is as it was, or it succeeds.
abbrev pub ImageEnds :
    Option RamfsFile → ElfImage → Vmm → Option (Bool × Option ElfImage × Vmm) → Type 0
ImageEnds file image v r =
    (ok : Bool) × (image' : ElfImage) × (v' : Vmm) × (r ≡ some (ok, some image', v'))
    × (((ok ≡ false) × (image' ≡ image))
        ⊎ ((f : RamfsFile) × (ok ≡ true) × (file ≡ some f) × Success f.contents f.size v image' v'))
