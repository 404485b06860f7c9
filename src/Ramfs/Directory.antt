-- ===== src/Ramfs/Directory.antt =====
-- The file system implements a directory of 16 slots.
use operatingsystem.Common.{ℕ, ◌≡◌, refl, ap, ◌∙◌, arith}
use operatingsystem.Common.{List, [], ◌∷◌, length, Option, none, some, ◌==◌, ltb, ◌||◌}
use operatingsystem.Common.{
  Bool, true, false, if◌then◌else◌, Bool-cases, Option-cases, inl, inr, ◌&&◌,
}
use operatingsystem.Ramfs.{RamfsFile, RamfsEntry, init, copy_name, find, keep, place}
use operatingsystem.Ramfs.{register_file, open_file}
use operatingsystem.Ramfs.Names.{IsText, same_text, names_equal_lem, copy_name_lem, same_text_refl}

-- A free slot, or a name and its file.
abbrev pub Slot : Type 0
Slot = Option (List ℕ × RamfsFile)

unfoldable pub lookup : List ℕ → List Slot → Option RamfsFile
lookup w [] = none
lookup w (none ∷ slots) = lookup w slots
lookup w (some (u, file) ∷ slots) = if same_text u w then some file else lookup w slots

-- Into the first free slot, if there is one.
unfoldable pub store : List ℕ → RamfsFile → List Slot → Bool × List Slot
store w file [] = (false, [])
store w file (none ∷ slots) = (true, some (w, file) ∷ slots)
store w file (some old ∷ slots) =
    let (done, others) = store w file slots in (done, some old ∷ others)

-- A name that is too long, one that is there already, no contents: refused.
unfoldable pub add_file : List ℕ → RamfsFile → List Slot → Bool × List Slot
add_file w file slots =
    if (file.contents == 0) || (file.size == 0) then (false, slots) else elim (lookup w slots) [
      | some old ↦ (false, slots)
      | none ↦ if ltb (length w) 32 then store w file slots else (false, slots)
    ]

abbrev pub Holds : RamfsEntry → Slot → Type 0
Holds e none = (e.used ≡ false) × (length e.name ≡ 32)
Holds e (some (w, file)) =
    (e.used ≡ true) × (length e.name ≡ 32) × IsText e.name w × (e.file ≡ file)

abbrev pub Represents : List RamfsEntry → List Slot → Type 0
Represents [] [] = Unit {0}
Represents [] (x ∷ slots) = ⊥
Represents (e ∷ entries) [] = ⊥
Represents (e ∷ entries) (x ∷ slots) = Holds e x × Represents entries slots

-- The names are arrays of 32 bytes.
abbrev pub AreArrays : List RamfsEntry → Type 0
AreArrays [] = Unit {0}
AreArrays (e ∷ entries) = (length e.name ≡ 32) × AreArrays entries

abbrev pub no_files : List RamfsEntry → List Slot
no_files [] = []
no_files (e ∷ entries) = none ∷ no_files entries

-- `ramfs_init` leaves no file.
pub init-Represents :
    (entries : List RamfsEntry) → AreArrays entries → Represents (init entries) (no_files entries)
unfolding init
init-Represents [] a = tt
init-Represents (e ∷ entries) a = ((refl, a.0), init-Represents entries a.1)

pub find_lem :
    (name w : List ℕ) (entries : List RamfsEntry) (slots : List Slot)
    → IsText name w
    → Represents entries slots
    → find name entries ≡ some (lookup w slots)
unfolding find lookup
find_lem name w [] [] t r = refl
find_lem name w [] (x ∷ slots) t r = absurd r
find_lem name w (e ∷ entries) [] t r = absurd r
find_lem name w (e ∷ entries) (none ∷ slots) t r =
    ground (arith, find_lem name w entries slots t r.1)
find_lem name w (e ∷ entries) (some (u, file) ∷ slots) t r =
    ground (arith, find_lem name w entries slots t r.1, names_equal_lem e.name name u w r.0.2 t)

-- A result that represents the outcome of the directory.
record Outcome (result : Option (Bool × List RamfsEntry)) (expected : Bool × List Slot)
    : Type 0 where
  entries : List RamfsEntry
  returns : result ≡ some (expected.0, entries)
  represents : Represents entries expected.1

abbrev stored : List ℕ → RamfsFile → List Slot → Bool × List Slot
stored w file slots = if ltb (length w) 32 then store w file slots else (false, slots)

Outcome-keep :
    (e : RamfsEntry) (x : Slot) (result : Option (Bool × List RamfsEntry)) (done : Bool)
    (slots : List Slot)
    → Holds e x
    → Outcome result (done, slots)
    → Outcome (keep e result) (done, x ∷ slots)
unfolding keep
Outcome-keep e x result done slots h o = record {
  entries = e ∷ o.entries;
  returns = rw o.returns refl;
  represents = (h, o.represents);
}

place-used :
    (name : List ℕ) (file : RamfsFile) (e : RamfsEntry) (entries : List RamfsEntry)
    → e.used ≡ true
    → place name file (e ∷ entries) ≡ keep e (place name file entries)
unfolding place
place-used name file e entries h = rw h refl

place-copied :
    (name copied : List ℕ) (file : RamfsFile) (e : RamfsEntry) (entries : List RamfsEntry)
    → e.used ≡ false
    → copy_name e.name name ≡ some (true, copied)
    → place name file (e ∷ entries)
      ≡ some (true, record { name = copied; file = file; used = true } ∷ entries)
unfolding place
place-copied name copied file e entries h c = ground (arith, h, c)

place-refused :
    (name copied : List ℕ) (file : RamfsFile) (e : RamfsEntry) (entries : List RamfsEntry)
    → e.used ≡ false
    → copy_name e.name name ≡ some (false, copied)
    → place name file (e ∷ entries) ≡ keep (record e { name = copied }) (place name file entries)
unfolding place
place-refused name copied file e entries h c = ground (arith, h, c)

abbrev Places : List ℕ → RamfsFile → List RamfsEntry → Bool × List Slot → Type 0
Places name file entries expected = Outcome (place name file entries) expected

module _ (name w : List ℕ) (file : RamfsFile) (t : IsText name w) where
  place-fits :
      (entries : List RamfsEntry) (slots : List Slot)
      → ltb (length w) 32 ≡ true
      → Represents entries slots
      → Outcome (place name file entries) (store w file slots)
  unfolding store
  place-fits [] [] fits r = record { entries = []; returns = unfold place in refl; represents = tt }
  place-fits [] (x ∷ slots) fits r = absurd r
  place-fits (e ∷ entries) [] fits r = absurd r
  place-fits (e ∷ entries) (none ∷ slots) fits r =
      let (out, copied, size, holds) = copy_name_lem e.name name w t r.0.1 in
      record {
        entries = record { name = out; file = file; used = true } ∷ entries;
        returns =
            place-copied name out file e entries r.0.0 (copied ∙ ap (λ b. some (b, out)) fits);
        represents = ((refl, size, holds fits, refl), r.1);
      }
  place-fits (e ∷ entries) (some (u, old) ∷ slots) fits r =
      rw (place-used name file e entries r.0.0) (
        Outcome-keep e (some (u, old)) (place name file entries) (store w file slots).0
          (store w file slots).1 r.0 (place-fits entries slots fits r.1))

  place-long :
      (entries : List RamfsEntry) (slots : List Slot)
      → ltb (length w) 32 ≡ false
      → Represents entries slots
      → Outcome (place name file entries) (false, slots)
  place-long [] [] long r = record { entries = []; returns = unfold place in refl; represents = tt }
  place-long [] (x ∷ slots) long r = absurd r
  place-long (e ∷ entries) [] long r = absurd r
  place-long (e ∷ entries) (none ∷ slots) long r =
      let (out, copied, size, holds) = copy_name_lem e.name name w t r.0.1 in
      rw (place-refused name out file e entries r.0.0 (copied ∙ ap (λ b. some (b, out)) long)) (
        Outcome-keep (record e { name = out }) none (place name file entries) false slots
          (r.0.0, size) (place-long entries slots long r.1))
  place-long (e ∷ entries) (some (u, old) ∷ slots) long r =
      rw (place-used name file e entries r.0.0) (
        Outcome-keep e (some (u, old)) (place name file entries) false slots r.0
          (place-long entries slots long r.1))

-- On a table that represents a directory, `ramfs_register_file` of a name that is a text makes no
-- read past an array, returns what the directory returns, and leaves a table that represents the
-- directory afterwards: refused without contents, for a name that is there, for one of 32 bytes or
-- more, and with no slot free; and otherwise in the first free slot.
pub register_file-Represents :
    (name w : List ℕ) (file : RamfsFile) (entries : List RamfsEntry) (slots : List Slot)
    → IsText name w
    → Represents entries slots
    → (after : List RamfsEntry) × (register_file (some name) file.contents file.size entries
        ≡ some ((add_file w file slots).0, after))
      × Represents after (add_file w file slots).1
unfolding register_file add_file
register_file-Represents name w file entries slots t r =
    elim (Bool-cases ((file.contents == 0) || (file.size == 0))) [
      | inl no_contents ↦ rw no_contents (entries, refl, r)
      | inr some_contents ↦
          rw (some_contents, find_lem name w entries slots t r)
            (elim (Option-cases (lookup w slots)) [
              | inr (old, there) ↦ rw there (entries, refl, r)
              | inl absent ↦ rw absent (elim (Bool-cases (ltb (length w) 32)) [
                | inl fits ↦
                    let o = place-fits name w file t entries slots fits r in
                    rw fits (o.entries, o.returns, o.represents)
                | inr long ↦
                    let o = place-long name w file t entries slots long r in
                    rw long (o.entries, o.returns, o.represents)
              ])
            ])
    ]

same_text_iff : (u w : List ℕ) → same_text u w ≡ true → u ≡ w
same_text_iff [] [] h = refl
same_text_iff [] (d ∷ ds) h = cc
same_text_iff (c ∷ cs) [] h = cc
same_text_iff (c ∷ cs) (d ∷ ds) h = ground (arith, same_text_iff cs ds)

lookup-store :
    (w x : List ℕ) (file : RamfsFile) (slots : List Slot)
    → lookup w slots ≡ none
    → lookup x (store w file slots).1
      ≡ (if same_text w x && (store w file slots).0 then some file else lookup x slots)
unfolding lookup store
lookup-store w x file [] h = ground arith
lookup-store w x file (none ∷ slots) h = ground arith
lookup-store w x file (some (u, old) ∷ slots) h =
    ground
      (arith, lookup-store w x file slots, same_text_iff w x, same_text_refl w, same_text_iff u x)

lookup-add_file :
    (w x : List ℕ) (file : RamfsFile) (slots : List Slot)
    → lookup x (add_file w file slots).1
      ≡ (if same_text w x && (add_file w file slots).0 then some file else lookup x slots)
unfolding add_file
lookup-add_file w x file slots = ground (arith, lookup-store w x file slots)

-- After `ramfs_register_file` returns true, `ramfs_open` of the same name finds the file; any
-- other name, and every name if it returned false, opens what it opened before. Neither reads past
-- an array.
pub open_file-register_file :
    (name w other x : List ℕ) (file : RamfsFile) (entries : List RamfsEntry) (slots : List Slot)
    → IsText name w
    → IsText other x
    → Represents entries slots
    → (done : Bool) × (after : List RamfsEntry) × (register_file
          (some name)
          file.contents
          file.size
          entries
        ≡ some (done, after))
      × (open_file (some other) after
          ≡ (if same_text w x && done then some (some file) else open_file (some other) entries))
unfolding open_file
open_file-register_file name w other x file entries slots t o r =
    let (after, returns, represents) = register_file-Represents name w file entries slots t r in
    (
      (add_file w file slots).0,
      after,
      returns,
      rw
          (
            find_lem other x after (add_file w file slots).1 o represents,
            find_lem other x entries slots o r,
            lookup-add_file w x file slots,
          )
          (ground arith),
    )
