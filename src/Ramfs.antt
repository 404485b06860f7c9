-- ===== src/Ramfs.antt =====
-- The read-only file system in memory, kernel_os/src/ramfs.cpp and kernel_os/include/ramfs.h: a
-- table of 16 entries. A `char` array is the list of its bytes; a read past its end is a fault,
-- the `none` of the results. Contents are a pointer and a size.
pub mod Names
pub mod Directory
mod Tests
use operatingsystem.Common.{
  ℕ, zero, suc, ◌+◌, ◌==◌, leb, List, [], ◌∷◌, ◌++◌, length, Option, none, some,
}
use operatingsystem.Common.{Bool, true, false, not, ◌&&◌, ◌||◌, if◌then◌else◌}

abbrev pub max_ramfs_files : ℕ
max_ramfs_files = 16

abbrev pub max_ramfs_name_length : ℕ
max_ramfs_name_length = 32

pub record RamfsFile : Type 0 where
  pub contents : ℕ
  pub size : ℕ

pub record RamfsEntry : Type 0 where
  pub name : List ℕ
  pub file : RamfsFile
  pub used : Bool

-- `none` is a read past the end of an array.
unfoldable pub names_equal : List ℕ → List ℕ → Option Bool
names_equal [] second = none
names_equal (a ∷ first) [] = none
names_equal (a ∷ first) (b ∷ second) =
    if not (a == b) then some false else if a == 0 then some true else names_equal first second

-- The loop of `copy_name` at `index`, over the rest of the destination and of the source: the
-- result, and the rest of the destination afterwards.
unfoldable pub copy_from : ℕ → List ℕ → List ℕ → Option (Bool × List ℕ)
copy_from index destination [] = none
copy_from index [] (c ∷ source) = none
copy_from index (d ∷ destination) (c ∷ source) =
    let rest = copy_from (index + 1) destination source in
    if c == 0
    then some (true, 0 ∷ destination)
    else if leb max_ramfs_name_length (index + 1)
    then some (false, d ∷ destination)
    else elim rest [ none ↦ none | some (copied, tail) ↦ some (copied, c ∷ tail) ]

unfoldable pub copy_name : List ℕ → List ℕ → Option (Bool × List ℕ)
copy_name destination source = copy_from 0 destination source

unfoldable pub init : List RamfsEntry → List RamfsEntry
init [] = []
init (e ∷ entries) = record e { used = false } ∷ init entries

-- The entry that a name is found at, as `ramfs_open` and the first loop of `ramfs_register_file`
-- look for it.
unfoldable pub find : List ℕ → List RamfsEntry → Option (Option RamfsFile)
find name [] = some none
find name (e ∷ entries) =
    let rest = find name entries in
    if e.used
    then elim (names_equal e.name name) [
      | none ↦ none
      | some true ↦ some (some e.file)
      | some false ↦ rest
    ]
    else rest

-- An entry that the loop goes past.
unfoldable pub keep : RamfsEntry → Option (Bool × List RamfsEntry) → Option (Bool × List RamfsEntry)
keep e none = none
keep e (some (done, others)) = some (done, e ∷ others)

-- The second loop: the first unused entry into which the name can be copied.
unfoldable pub place : List ℕ → RamfsFile → List RamfsEntry → Option (Bool × List RamfsEntry)
place name file [] = some (false, [])
place name file (e ∷ entries) =
    let rest = place name file entries in
    if e.used then keep e rest else elim (copy_name e.name name) [
      | none ↦ none
      | some (true, copied) ↦
          some (true, record { name = copied; file = file; used = true } ∷ entries)
      | some (false, copied) ↦ keep (record e { name = copied }) rest
    ]

-- A null name is `none`, null contents are 0.
unfoldable pub register_file :
    Option (List ℕ) → ℕ → ℕ → List RamfsEntry → Option (Bool × List RamfsEntry)
register_file none contents size entries = some (false, entries)
register_file (some name) contents size entries =
    if (contents == 0) || (size == 0) then some (false, entries) else elim (find name entries) [
      | none ↦ none
      | some (some file) ↦ some (false, entries)
      | some none ↦ place name (record { contents = contents; size = size }) entries
    ]

unfoldable pub open_file : Option (List ℕ) → List RamfsEntry → Option (Option RamfsFile)
open_file none entries = some none
open_file (some name) entries = find name entries
