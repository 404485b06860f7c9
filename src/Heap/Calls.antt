-- ===== src/Heap/Calls.antt =====
-- `kmalloc` on a heap whose area is made up of blocks.
use operatingsystem.Common.{
  ℕ, ◌+◌, ◌-◌, ◌*◌, ◌/◌, ◌%◌, ◌^◌, ◌≤◌, ◌<◌, ◌≡◌, refl, ap, ◌∙◌, sym, subst, arith,
}
use operatingsystem.Common.{◌⊎◌, inl, inr, Option, none, some, List, [], ◌∷◌, ◌++◌, write}
use operatingsystem.Common.{true}
use operatingsystem.Common.{u64, bit_and, and_digits, and-ones}
use operatingsystem.Heap.Search.{Fitted, malloc_from-Fitted}
use operatingsystem.Heap.Chain.{
  Block, IsChain, length-IsChain, link-IsChain, carve, first_fit, extent, IsUnfit, first_fit_lem,
}
use operatingsystem.Heap.{Heap, malloc_from, align_up, kmalloc, init}

-- Clearing the three lowest bits.
mask_lem : (v : ℕ) → bit_and v (2 ^ 64 - 8) ≡ v / 8 % 2 ^ 61 * 8
mask_lem v = omega (
  arith,
  and_digits v (2 ^ 64 - 8),
  and_digits (v / 2) (2 ^ 63 - 4),
  and_digits (v / 2 / 2) (2 ^ 62 - 2),
  and-ones 61 (v / 2 / 2 / 2),
)

align_up_lem : (value : ℕ) → value ≤ 65512 → align_up value ≡ (value + 7) / 8 * 8
unfolding align_up
align_up_lem value small = omega (arith, mask_lem (u64 (value + 8 - 1)))

-- The heap is initialised and its area is made up of these blocks.
pub record IsHeap (h : Heap) (blocks : List Block) : Type 0 where
  pub initialized : h.heap_initialized ≡ true
  pub first : h.first_block ≡ some 0
  pub chain : IsChain h.headers 0 blocks

pub init-IsHeap : (h : Heap) → IsHeap (init h) ((65512, true) ∷ [])
unfolding init write
init-IsHeap h = record { initialized = refl; first = refl; chain = (refl, refl, omega arith, refl) }

kmalloc-ready :
    (size : ℕ) (h : Heap)
    → h.heap_initialized ≡ true
    → 0 < size
    → size ≤ 65512
    → kmalloc size h ≡ malloc_from 2731 h.first_block (align_up size) h
unfolding kmalloc
kmalloc-ready size h e pos fits = rw e (ground arith)

kmalloc-first_fit :
    (h : Heap) (blocks : List Block) (size : ℕ)
    → IsHeap h blocks
    → 0 < size
    → size ≤ 65512
    → ((kmalloc size h).0 ≡ (first_fit ((size + 7) / 8 * 8) 0 blocks).0)
      × IsHeap (kmalloc size h).1 (first_fit ((size + 7) / 8 * 8) 0 blocks).1
kmalloc-first_fit h blocks size i pos fits =
    rw (kmalloc-ready size h i.initialized pos fits, align_up_lem size fits)
      (
        f.returns,
        record {
          initialized = f.initialized ∙ i.initialized;
          first = f.first ∙ i.first;
          chain = f.chain;
        },
      )
  where
    aligned : ℕ
    aligned = (size + 7) / 8 * 8

    f : Fitted 0 blocks (first_fit aligned 0 blocks) h (malloc_from 2731 h.first_block aligned h)
    f =
        subst (λ b. Fitted 0 blocks (first_fit aligned 0 blocks) h (malloc_from 2731 b aligned h))
          (link-IsChain h.headers blocks i.chain ∙ sym i.first)
          (malloc_from-Fitted 2731 aligned 0 blocks h (omega arith) (omega arith)
            (omega (arith, length-IsChain h.headers 0 blocks i.chain)) i.chain)

-- The memory comes from the block of `old` bytes between `before` and `after`.
pub record Allocated (h : Heap) (size : ℕ) (before after : List Block) (old : ℕ)
    (r : Option ℕ × Heap) : Type 0 where
  pub returns : r.0 ≡ some (extent before + 24)
  pub fits : size ≤ old
  pub unfit : IsUnfit size before
  pub heap : IsHeap r.1 (before ++ carve size old after)

-- On an initialised heap whose area is made up of `blocks`, and for a size from 1 to 65512 bytes,
-- rounded up to a multiple of 8: `kmalloc` returns the memory of the first free block that is
-- large enough, and afterwards the area is made up of the same blocks but for that one, which is
-- taken, and split if 32 bytes or more are left; or no free block is large enough, and it returns
-- null and the area is made up of the same blocks.
pub kmalloc_lem :
    (h : Heap) (blocks : List Block) (size : ℕ)
    → IsHeap h blocks
    → 0 < size
    → size ≤ 65512
    → ((before after : List Block) × (old : ℕ) × (blocks ≡ before ++ ((old, true) ∷ after))
        × Allocated h ((size + 7) / 8 * 8) before after old (kmalloc size h))
      ⊎ (((kmalloc size h).0 ≡ none)
          × IsUnfit ((size + 7) / 8 * 8) blocks
          × IsHeap (kmalloc size h).1 blocks)
kmalloc_lem h blocks size i pos fits =
    let (returns, heap) = kmalloc-first_fit h blocks size i pos fits in
    elim (first_fit_lem ((size + 7) / 8 * 8) 0 blocks) [
      | inl (before, after, old, f) ↦ inl (
        before,
        after,
        old,
        f.split,
        record {
          returns = returns ∙ f.address ∙ ap some (omega arith);
          fits = f.fits;
          unfit = f.unfit;
          heap = subst (IsHeap (kmalloc size h).1) f.result heap;
        },
      )
      | inr (e, all) ↦
          inr (
            returns ∙ ap (λ r. r.0) e,
            all,
            subst (IsHeap (kmalloc size h).1) (ap (λ r. r.1) e) heap,
          )
    ]
