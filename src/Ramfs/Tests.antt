-- ===== src/Ramfs/Tests.antt =====
-- Two files in a table of 16 entries.
use operatingsystem.Common.{
  ℕ, zero, suc, ◌≡◌, arith, List, [], ◌∷◌, none, some, false, Bool, ◌&&◌, if◌then◌else◌,
}
use operatingsystem.Ramfs.{RamfsFile, RamfsEntry, register_file, open_file}
use operatingsystem.Ramfs.Names.{IsText, same_text}
use operatingsystem.Ramfs.Directory.{
  Slot, Represents, add_file, register_file-Represents, open_file-register_file,
}

abbrev zeros : ℕ → List ℕ
zeros zero = []
zeros (suc n) = 0 ∷ zeros n

abbrev no_file : RamfsFile
no_file = record { contents = 0; size = 0 }

abbrev free_entries : ℕ → List RamfsEntry
free_entries zero = []
free_entries (suc n) = record { name = zeros 32; file = no_file; used = false } ∷ free_entries n

abbrev free_slots : ℕ → List Slot
free_slots zero = []
free_slots (suc n) = none ∷ free_slots n

abbrev init_name : List ℕ
init_name = b'i' ∷ b'n' ∷ b'i' ∷ b't' ∷ 0 ∷ []

abbrev text : List ℕ
text = b'i' ∷ b'n' ∷ b'i' ∷ b't' ∷ []

abbrev elf : RamfsFile
elf = record { contents = 0x5000; size = 120 }

free-Represents : Represents (free_entries 16) (free_slots 16)
free-Represents = ground arith

init_name-IsText : IsText init_name text
init_name-IsText = ground arith

register_file-Represents_example :
    (after : List RamfsEntry) × (register_file (some init_name) 0x5000 120 (free_entries 16)
      ≡ some ((add_file text elf (free_slots 16)).0, after))
    × Represents after (add_file text elf (free_slots 16)).1
register_file-Represents_example =
    register_file-Represents init_name text elf (free_entries 16) (free_slots 16) init_name-IsText
      free-Represents

open_file-register_file_example :
    (done : Bool) × (after : List RamfsEntry) × (register_file
        (some init_name)
        0x5000
        120
        (free_entries 16)
      ≡ some (done, after))
    × (open_file (some init_name) after ≡ (
        if same_text text text && done
        then some (some elf)
        else open_file (some init_name) (free_entries 16)))
open_file-register_file_example =
    open_file-register_file init_name text init_name text elf (free_entries 16) (free_slots 16)
      init_name-IsText init_name-IsText free-Represents
