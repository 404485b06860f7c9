-- ===== src/Heap/Chain.antt =====
-- The list of blocks behind the headers, and first-fit allocation from it.
use operatingsystem.Common.{ℕ, ◌+◌, ◌-◌, ◌*◌, ◌%◌, ◌≤◌, ◌≡◌, refl, ap, ◌∙◌, arith}
use operatingsystem.Common.{◌⊎◌, inl, inr, Option, none, some, List, [], ◌∷◌, ◌++◌, length}
use operatingsystem.Common.{Bool, true, false, ◌&&◌, if◌then◌else◌, Bool-cases, leb, ltb}
use operatingsystem.Heap.{BlockHeader}

-- A block as its size and whether it is free.
abbrev pub Block : Type 0
Block = ℕ × Bool

-- Where the block after one of this size at `a` starts, if there is one.
abbrev pub link : ℕ → List Block → Option ℕ
link a [] = none
link a (b ∷ blocks) = some a

-- From offset `a` on the area is made up of these blocks, up to its end.
abbrev pub IsChain : (ℕ → BlockHeader) → ℕ → List Block → Type 0
IsChain headers a [] = a ≡ 65536
IsChain headers a ((size, free) ∷ blocks) =
    (headers a ≡ record { size = size; free = free; next = link (a + 24 + size) blocks })
    × (size % 8 ≡ 0)
    × (8 ≤ size)
    × IsChain headers (a + 24 + size) blocks

-- A chain lies at its start and above, so it does not see what is stored below.
pub IsChain-ext :
    (h h' : ℕ → BlockHeader) (a : ℕ) (blocks : List Block)
    → ((i : ℕ) → a ≤ i → h' i ≡ h i)
    → IsChain h a blocks
    → IsChain h' a blocks
IsChain-ext h h' a [] e c = c
IsChain-ext h h' a ((size, free) ∷ blocks) e c = (
  e a (omega arith) ∙ c.0,
  c.1,
  c.2,
  IsChain-ext h h' (a + 24 + size) blocks (λ i l. e i (omega arith)) c.3,
)

-- What is taken from a block of `old` bytes: all of it, or the first `size` bytes, if a header and
-- 8 bytes more are left.
abbrev pub carve : ℕ → ℕ → List Block → List Block
carve size old rest =
    if ltb old (size + 32)
    then (old, false) ∷ rest
    else (size, false) ∷ (old - size - 24, true) ∷ rest

-- First fit: the offset of the memory, and the blocks afterwards.
unfoldable pub first_fit : ℕ → ℕ → List Block → Option ℕ × List Block
first_fit size a [] = (none, [])
first_fit size a ((old, free) ∷ blocks) =
    let rest = first_fit size (a + 24 + old) blocks in
    if free && leb size old
    then (some (a + 24), carve size old blocks)
    else (rest.0, (old, free) ∷ rest.1)

-- A chain fits into the area, with at least 32 bytes for each block.
pub length-IsChain :
    (headers : ℕ → BlockHeader) (a : ℕ) (blocks : List Block)
    → IsChain headers a blocks
    → a + 32 * length blocks ≤ 65536
length-IsChain headers a [] c = omega (arith, c)
length-IsChain headers a ((size, free) ∷ blocks) c =
    omega (arith, c.2, length-IsChain headers (a + 24 + size) blocks c.3)

pub link-IsChain :
    (headers : ℕ → BlockHeader) (blocks : List Block)
    → IsChain headers 0 blocks
    → link 0 blocks ≡ some 0
link-IsChain headers [] c = absurd (omega (arith, c))
link-IsChain headers (b ∷ blocks) c = refl

pub first_fit-cons :
    (size a old : ℕ) (free : Bool) (blocks : List Block)
    → first_fit size a ((old, free) ∷ blocks) ≡ (
        if free && leb size old then (some (a + 24), carve size old blocks) else (
          (first_fit size (a + 24 + old) blocks).0,
          (old, free) ∷ (first_fit size (a + 24 + old) blocks).1,
        ))
unfolding first_fit
first_fit-cons size a old free blocks = refl

-- The bytes that blocks take, with their headers.
unfoldable pub extent : List Block → ℕ
extent [] = 0
extent ((size, free) ∷ blocks) = 24 + size + extent blocks

-- No block here is free and large enough.
pub IsUnfit : ℕ → List Block → Type 0
IsUnfit size [] = Unit {0}
IsUnfit size ((old, free) ∷ blocks) = (free && leb size old ≡ false) × IsUnfit size blocks

-- The first free block that is large enough is used, if there is one.
pub record IsFirst (size a : ℕ) (blocks : List Block) (r : Option ℕ × List Block)
    (before after : List Block) (old : ℕ) : Type 0 where
  pub split : blocks ≡ before ++ ((old, true) ∷ after)
  pub unfit : IsUnfit size before
  pub fits : size ≤ old
  pub address : r.0 ≡ some (a + extent before + 24)
  pub result : r.1 ≡ before ++ carve size old after

pub first_fit_lem :
    (size a : ℕ) (blocks : List Block)
    → ((before after : List Block) × (old : ℕ) × IsFirst size a blocks
          (first_fit size a blocks)
          before
          after
          old)
      ⊎ ((first_fit size a blocks ≡ (none, blocks)) × IsUnfit size blocks)
unfolding IsUnfit extent
first_fit_lem size a [] = inr (unfold first_fit in refl, tt)
first_fit_lem size a ((old, free) ∷ blocks) =
    rw (first_fit-cons size a old free blocks) (elim (Bool-cases (free && leb size old)) [
      | inl fits ↦ rw fits (
          inl (
            [],
            blocks,
            old,
            record {
              split = ap (λ b. (old, b) ∷ blocks) (ground arith);
              unfit = tt;
              fits = ground arith;
              address = ap some (omega arith);
              result = refl;
            },
          ))
      | inr small ↦ rw small (elim (first_fit_lem size (a + 24 + old) blocks) [
        | inl (before, after, found, f) ↦ inl (
          (old, free) ∷ before,
          after,
          found,
          record {
            split = ap (λ l. (old, free) ∷ l) f.split;
            unfit = (small, f.unfit);
            fits = f.fits;
            address = f.address ∙ ap some (omega arith);
            result = ap (λ l. (old, free) ∷ l) f.result;
          },
        )
        | inr (e, all) ↦ inr (ap (λ r. (r.0, (old, free) ∷ r.1)) e, (refl, all))
      ])
    ])
