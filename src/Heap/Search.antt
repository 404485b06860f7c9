-- ===== src/Heap/Search.antt =====
-- Taking memory from a block, and the search through the list.
use operatingsystem.Common.{ℕ, zero, suc, ◌+◌, ◌-◌, ◌%◌, ◌^◌, ◌≤◌, ◌<◌, ◌≡◌, refl, ◌∙◌, arith}
use operatingsystem.Common.{inl, inr, Option, some, List, [], ◌∷◌, write, length}
use operatingsystem.Common.{Bool, true, false, ◌&&◌, ◌==◌, if◌then◌else◌, Bool-cases, leb, ltb}
use operatingsystem.Heap.Chain.{
  Block, link, IsChain, IsChain-ext, length-IsChain, carve, first_fit, first_fit-cons,
}
use operatingsystem.Heap.{BlockHeader, Heap, split_block, set_free, malloc_from}

carved : (ℕ → BlockHeader) → ℕ → ℕ → ℕ → BlockHeader
carved headers a size = set_free (split_block headers a size) a false

carved-whole :
    (headers : ℕ → BlockHeader) (a size old : ℕ) (free : Bool) (next : Option ℕ) (i : ℕ)
    → headers a ≡ record { size = old; free = free; next = next }
    → size + 32 < 2 ^ 64
    → ltb old (size + 32) ≡ true
    → carved headers a size i
      ≡ (if i == a then record { size = old; free = false; next = next } else headers i)
unfolding carved set_free split_block write
carved-whole headers a size old free next i e small h = rw e (ground (arith, h))

carved-split :
    (headers : ℕ → BlockHeader) (a size old : ℕ) (free : Bool) (next : Option ℕ) (i : ℕ)
    → headers a ≡ record { size = old; free = free; next = next }
    → size + 32 < 2 ^ 64
    → ltb old (size + 32) ≡ false
    → carved headers a size i ≡ (
        if i == a
        then record { size = size; free = false; next = some (a + 24 + size) }
        else if i == a + 24 + size
        then record { size = old - size - 24; free = true; next = next }
        else headers i)
unfolding carved set_free split_block write
carved-split headers a size old free next i e small h = rw e (ground (arith, h))

IsChain-carve :
    (headers : ℕ → BlockHeader) (a size old : ℕ) (rest : List Block)
    → size % 8 ≡ 0
    → 8 ≤ size
    → size ≤ old
    → a + 24 + old ≤ 65536
    → IsChain headers a ((old, true) ∷ rest)
    → IsChain (carved headers a size) a (carve size old rest)
IsChain-carve headers a size old rest m p l inside c = elim (Bool-cases (ltb old (size + 32))) [
  | inl whole ↦
      let at = λ (i : ℕ).
        carved-whole headers a size old true (link (a + 24 + old) rest) i c.0 (omega arith) whole in
      rw whole (
        at a ∙ ground arith,
        c.1,
        c.2,
        IsChain-ext headers (carved headers a size) (a + 24 + old) rest (λ i l. at i ∙ ground arith)
            c.3,
      )
  | inr split ↦
      let at = λ (i : ℕ).
        carved-split headers a size old true (link (a + 24 + old) rest) i c.0 (omega arith) split in
      let end : a + 24 + size + 24 + (old - size - 24) ≡ a + 24 + old = ground arith in
      rw (split, end)
        (
          at a ∙ ground arith,
          m,
          p,
          (
            at (a + 24 + size) ∙ ground arith,
            ground (arith, c.1),
            ground arith,
            IsChain-ext headers (carved headers a size) (a + 24 + old) rest
                (λ i l. at i ∙ ground arith) c.3,
          ),
        )
]

malloc_from-suc :
    (fuel block size : ℕ) (h : Heap)
    → malloc_from (suc fuel) (some block) size h ≡ (
        if (h.headers block).free && leb size (h.headers block).size
        then (some (block + 24), record h { headers = carved h.headers block size })
        else malloc_from fuel (h.headers block).next size h)
unfolding malloc_from carved
malloc_from-suc fuel block size h = ground arith

-- `r` has come from `h` as `fit` says, in the chain `blocks` from `a` on.
pub record Fitted (a : ℕ) (blocks : List Block) (fit : Option ℕ × List Block) (h : Heap)
    (r : Option ℕ × Heap) : Type 0 where
  pub returns : r.0 ≡ fit.0
  pub chain : IsChain r.1.headers a fit.1
  pub below : (i : ℕ) → i < a → r.1.headers i ≡ h.headers i
  pub first : r.1.first_block ≡ h.first_block
  pub initialized : r.1.heap_initialized ≡ h.heap_initialized
  pub same_link : link a fit.1 ≡ link a blocks

carved-below :
    (headers : ℕ → BlockHeader) (a size i : ℕ) → i < a → carved headers a size i ≡ headers i
unfolding carved set_free split_block write
carved-below headers a size i l = ground arith

link-carve : (a size old : ℕ) (rest : List Block) → link a (carve size old rest) ≡ some a
link-carve a size old rest = elim (Bool-cases (ltb old (size + 32))) [
  | inl whole ↦ rw whole refl
  | inr split ↦ rw split refl
]

Fitted-here :
    (size a old : ℕ) (free : Bool) (blocks : List Block) (h : Heap)
    → size % 8 ≡ 0
    → 8 ≤ size
    → IsChain h.headers a ((old, free) ∷ blocks)
    → free && leb size old ≡ true
    → Fitted a
        ((old, free) ∷ blocks)
        (some (a + 24), carve size old blocks)
        h
        (some (a + 24), record h { headers = carved h.headers a size })
Fitted-here size a old false blocks h m p c fits = cc
Fitted-here size a old true blocks h m p c fits = record {
  returns = refl;
  chain =
      IsChain-carve h.headers a size old blocks m p (ground arith)
        (omega (arith, length-IsChain h.headers (a + 24 + old) blocks c.3)) c;
  below = λ i l. carved-below h.headers a size i l;
  first = refl;
  initialized = refl;
  same_link = link-carve a size old blocks;
}

Fitted-later :
    (a old : ℕ) (free : Bool) (blocks : List Block) (fit : Option ℕ × List Block) (h : Heap)
    (r : Option ℕ × Heap)
    → IsChain h.headers a ((old, free) ∷ blocks)
    → Fitted (a + 24 + old) blocks fit h r
    → Fitted a ((old, free) ∷ blocks) (fit.0, (old, free) ∷ fit.1) h r
Fitted-later a old free blocks fit h r c f = record {
  returns = f.returns;
  chain = (f.below a (omega arith) ∙ rw f.same_link c.0, c.1, c.2, f.chain);
  below = λ i l. f.below i (omega arith);
  first = f.first;
  initialized = f.initialized;
  same_link = refl;
}

pub malloc_from-Fitted :
    (fuel size a : ℕ) (blocks : List Block) (h : Heap)
    → size % 8 ≡ 0
    → 8 ≤ size
    → length blocks < fuel
    → IsChain h.headers a blocks
    → Fitted a blocks (first_fit size a blocks) h (malloc_from fuel (link a blocks) size h)
malloc_from-Fitted zero size a blocks h m p l c = absurd (omega arith)
malloc_from-Fitted (suc fuel) size a [] h m p l c = record {
  returns = unfold malloc_from first_fit in refl;
  chain = unfold malloc_from first_fit in c;
  below = λ i l. unfold malloc_from in refl;
  first = unfold malloc_from in refl;
  initialized = unfold malloc_from in refl;
  same_link = unfold first_fit in refl;
}
malloc_from-Fitted (suc fuel) size a ((old, free) ∷ blocks) h m p l c =
    rw (malloc_from-suc fuel a size h, c.0, first_fit-cons size a old free blocks)
      (elim (Bool-cases (free && leb size old)) [
        | inl fits ↦ rw fits (Fitted-here size a old free blocks h m p c fits)
        | inr small ↦ rw small (
            Fitted-later a old free blocks _ h _ c
              (malloc_from-Fitted fuel size (a + 24 + old) blocks h m p (omega arith) c.3))
      ])
