-- ===== src/Heap/Safety.antt =====
-- What clients of the heap can rely on, whatever calls they make.
use operatingsystem.Common.{ℕ, ◌+◌, ◌%◌, ◌≤◌, ◌≡◌, ◌≢◌, refl, ap, subst, arith}
use operatingsystem.Common.{◌⊎◌, inl, inr, none, some, List, [], ◌∷◌, true, false}
use operatingsystem.Heap.{Heap, BlockHeader}
use operatingsystem.Heap.Chain.{Block, IsChain}
use operatingsystem.Heap.Calls.{IsHeap}
use operatingsystem.Heap.Taken.{
  IsTaken, IsTaken-within, IsTaken-Apart, IsTaken-aligned, extent-IsChain,
}
use operatingsystem.Heap.Joined.{IsJoined}
use operatingsystem.Heap.Client.{Call, malloc, free, Client, call, run, start}
use operatingsystem.Heap.Agrees.{Agrees, start-Agrees}
use operatingsystem.Heap.Given.{malloc-Agrees}
use operatingsystem.Heap.Freed.{free-Agrees}

run-Agrees : (calls : List Call) (c : Client) → Agrees c → Agrees (run calls c)
unfolding run
run-Agrees [] c a = a
run-Agrees (malloc size ∷ calls) c a =
    run-Agrees calls (call (malloc size) c) (malloc-Agrees size c a)
run-Agrees (free p ∷ calls) c a = run-Agrees calls (call (free p) c) (free-Agrees p c a)

-- From a heap that has just been initialised, after any sequence of calls of `kmalloc`, with any
-- sizes, and of `kfree`, with any pointers, also such that were freed before or never given out:
-- two different pointers that were given out and are not freed since have the whole memory that was
-- asked for apart from each other's; each is aligned to 8 bytes and has its memory inside the area,
-- behind the first header.
pub run-apart :
    (h : Heap) (calls : List Call) (p size p' size' : ℕ)
    → (run calls (start h)).ledger p ≡ some size
    → (run calls (start h)).ledger p' ≡ some size'
    → p ≢ p'
    → ((p + size ≤ p') ⊎ (p' + size' ≤ p)) × (p % 8 ≡ 0) × (24 ≤ p) × (p + size ≤ 65536)
run-apart h calls p size p' size' e e' ne =
    let a = run-Agrees calls (start h) (start-Agrees h) in
    let (n, t, le) = a.owned p size e in
    let (n', t', le') = a.owned p' size' e' in
    (
      elim (IsTaken-Apart 0 a.blocks p n p' n' t t') [
        | inl same ↦ absurd (ne same.0)
        | inr (inl before) ↦ inl (omega arith)
        | inr (inr after) ↦ inr (omega arith)
      ],
      IsTaken-aligned (run calls (start h)).heap.headers 0 a.blocks p n a.is_heap.chain refl t,
      omega (arith, IsTaken-within 0 a.blocks p n t),
      omega (
        arith,
        IsTaken-within 0 a.blocks p n t,
        extent-IsChain (run calls (start h)).heap.headers 0 a.blocks a.is_heap.chain,
      ),
    )

-- A joined chain with nothing taken is one free block.
one_block :
    (headers : ℕ → BlockHeader) (blocks : List Block)
    → IsChain headers 0 blocks
    → IsJoined blocks
    → ((p n : ℕ) → ¬ IsTaken 0 blocks p n)
    → blocks ≡ (65512, true) ∷ []
one_block headers [] c j none_taken = absurd (omega (arith, c))
one_block headers ((size, false) ∷ blocks) c j none_taken =
    absurd (none_taken 24 size (inl (refl, omega arith, refl)))
one_block headers ((size, true) ∷ []) c j none_taken = ap (λ s. (s, true) ∷ []) (omega (arith, c.3))
one_block headers ((size, true) ∷ (size', true) ∷ blocks) c j none_taken = cc (j.0)
one_block headers ((size, true) ∷ (size', false) ∷ blocks) c j none_taken =
    absurd (none_taken (0 + 24 + size + 24) size' (inr (inl (refl, refl, refl))))

-- From a heap that has just been initialised, after any sequence of calls of `kmalloc`, with any
-- sizes, and of `kfree`, with any pointers, by which all that was given out has been freed again:
-- the area is one free block of 65512 bytes, as at the start.
pub run-all_freed :
    (h : Heap) (calls : List Call)
    → ((p : ℕ) → (run calls (start h)).ledger p ≡ none)
    → IsHeap (run calls (start h)).heap ((65512, true) ∷ [])
run-all_freed h calls empty =
    let a = run-Agrees calls (start h) (start-Agrees h) in
    subst (IsHeap (run calls (start h)).heap)
      (one_block (run calls (start h)).heap.headers a.blocks a.is_heap.chain a.joined
        (λ p n t. cc (empty p, (a.listed p n t).1)))
      a.is_heap
