-- ===== src/Heap/Joined.antt =====
-- Lists of blocks in which no two free ones follow each other.
use operatingsystem.Common.{ℕ, ◌+◌, ◌≡◌, refl}
use operatingsystem.Common.{List, [], ◌∷◌, ◌++◌, inl, inr}
use operatingsystem.Common.{Bool, true, false, ◌&&◌, ltb, Bool-cases}
use operatingsystem.Heap.Chain.{Block, carve}
use operatingsystem.Heap.Free.{join}
use operatingsystem.Heap.Taken.{IsTaken, join-IsTaken, IsTaken-join}
use operatingsystem.Heap.Release.{join_all}

abbrev starts_free : List Block → Bool
starts_free [] = false
starts_free ((size, free) ∷ blocks) = free

abbrev pub IsJoined : List Block → Type 0
IsJoined [] = Unit {0}
IsJoined ((size, free) ∷ blocks) = (free && starts_free blocks ≡ false) × IsJoined blocks

starts_free-join :
    (size : ℕ) (free : Bool) (blocks : List Block) → starts_free (join size free blocks) ≡ free
unfolding join
starts_free-join size free [] = refl
starts_free-join size true ((size', true) ∷ blocks) =
    starts_free-join (size + 24 + size') true blocks
starts_free-join size true ((size', false) ∷ blocks) = refl
starts_free-join size false ((size', free') ∷ blocks) = refl

join-IsJoined : (size : ℕ) (free : Bool) (blocks : List Block) → IsJoined (join size free blocks)
unfolding join
join-IsJoined size true [] = (refl, tt)
join-IsJoined size false [] = (refl, tt)
join-IsJoined size true ((size', true) ∷ blocks) = join-IsJoined (size + 24 + size') true blocks
join-IsJoined size true ((size', false) ∷ blocks) =
    (starts_free-join size' false blocks, join-IsJoined size' false blocks)
join-IsJoined size false ((size', free') ∷ blocks) = (refl, join-IsJoined size' free' blocks)

pub join_all-IsJoined : (blocks : List Block) → IsJoined (join_all blocks)
join_all-IsJoined [] = tt
join_all-IsJoined ((size, free) ∷ blocks) = join-IsJoined size free blocks

-- Splitting a free block leaves its rest between a taken block and what follows.
carve_first-IsJoined :
    (size old : ℕ) (after : List Block)
    → IsJoined ((old, true) ∷ after)
    → IsJoined (carve size old after) × (starts_free (carve size old after) ≡ false)
carve_first-IsJoined size old after j = elim (Bool-cases (ltb old (size + 32))) [
  | inl whole ↦ rw whole ((refl, j.1), refl)
  | inr split ↦ rw split ((refl, j), refl)
]

starts_free-carve :
    (size old : ℕ) (free : Bool) (before after : List Block)
    → IsJoined ((old, true) ∷ after)
    → free && starts_free (before ++ ((old, true) ∷ after)) ≡ false
    → free && starts_free (before ++ carve size old after) ≡ false
starts_free-carve size old true [] after j h = (carve_first-IsJoined size old after j).1
starts_free-carve size old false [] after j h = refl
starts_free-carve size old free ((s, f) ∷ before) after j h = h

last-IsJoined : (before blocks : List Block) → IsJoined (before ++ blocks) → IsJoined blocks
last-IsJoined [] blocks j = j
last-IsJoined ((s, f) ∷ before) blocks j = last-IsJoined before blocks j.1

pub carve-IsJoined :
    (size old : ℕ) (before after : List Block)
    → IsJoined (before ++ ((old, true) ∷ after))
    → IsJoined (before ++ carve size old after)
carve-IsJoined size old [] after j = (carve_first-IsJoined size old after j).0
carve-IsJoined size old ((s, f) ∷ before) after j = (
  starts_free-carve size old f before after (last-IsJoined before _ j.1) j.0,
  carve-IsJoined size old before after j.1,
)

pub join_all-IsTaken :
    (blocks : List Block) (p n : ℕ) → IsTaken 0 (join_all blocks) p n → IsTaken 0 blocks p n
join_all-IsTaken [] p n t = t
join_all-IsTaken ((size, f) ∷ blocks) p n t = join-IsTaken 0 size f blocks p n t

pub IsTaken-join_all :
    (blocks : List Block) (p n : ℕ) → IsTaken 0 blocks p n → IsTaken 0 (join_all blocks) p n
IsTaken-join_all [] p n t = t
IsTaken-join_all ((size, f) ∷ blocks) p n t = IsTaken-join 0 size f blocks p n t
