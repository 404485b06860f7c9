-- ===== src/Heap/Tests.antt =====
-- An area whose first 40 bytes are taken, and a request of 21 bytes.
use operatingsystem.Common.{
  ℕ, ◌+◌, ◌*◌, ◌/◌, ◌≡◌, ◌≤◌, ◌%◌, ◌⊎◌, refl, arith, none, some, List, [], ◌∷◌, ◌++◌, true, false,
  write,
}
use operatingsystem.Heap.{Heap, kmalloc, init, align_up, malloc_from, set_free, split_block}
use operatingsystem.Heap.Chain.{extent}
use operatingsystem.Heap.Release.{join_all, kfree_lem}
use operatingsystem.Heap.{
  kfree, free_from, coalesce_free_blocks, coalesce_from, blocks_are_adjacent,
}
use operatingsystem.Heap.Client.{Call, malloc, free, call, run, start}
use operatingsystem.Heap.Safety.{run-apart, run-all_freed}
use operatingsystem.Heap.Chain.{Block, IsUnfit}
use operatingsystem.Heap.Calls.{IsHeap, init-IsHeap, Allocated, kmalloc_lem}

abbrev empty : Heap
empty = record {
  headers = λ i. record { size = 5; free = false; next = none };
  first_block = none;
  heap_initialized = false;
}

abbrev fresh : Heap
fresh = init empty

kmalloc_lem_example :
    ((before after : List Block) × (old : ℕ) × ((65512, true) ∷ []
        ≡ before ++ ((old, true) ∷ after))
      × Allocated fresh ((21 + 7) / 8 * 8) before after old (kmalloc 21 fresh))
    ⊎ (((kmalloc 21 fresh).0 ≡ none)
        × IsUnfit ((21 + 7) / 8 * 8) ((65512, true) ∷ [])
        × IsHeap (kmalloc 21 fresh).1 ((65512, true) ∷ []))
kmalloc_lem_example =
    kmalloc_lem fresh ((65512, true) ∷ []) 21 (init-IsHeap empty) (omega arith) (omega arith)

second_place : (kmalloc 8 (kmalloc 21 empty).1).0 ≡ some 72
unfolding kmalloc align_up malloc_from set_free split_block init write
second_place = refl

abbrev used : Heap
used = (kmalloc 21 fresh).1

used-IsHeap : IsHeap used ((24, false) ∷ (65464, true) ∷ [])
unfolding kmalloc align_up malloc_from set_free split_block init write
used-IsHeap = record {
  initialized = refl;
  first = refl;
  chain = (refl, refl, omega arith, (refl, refl, omega arith, refl));
}

kfree_lem_example :
    IsHeap (kfree (some (extent [] + 24)) used) (join_all ([] ++ ((24, true) ∷ (65464, true) ∷ [])))
kfree_lem_example = kfree_lem used [] 24 false ((65464, true) ∷ []) used-IsHeap

-- The second of three pieces is freed twice, a pointer into the first one is freed, too, and the
-- memory of the second one is given out again.
abbrev calls_made : List Call
calls_made = malloc 21 ∷ malloc 100 ∷ malloc 8 ∷ free 72 ∷ free 72 ∷ free 25 ∷ malloc 30 ∷ []

given :
    ((run calls_made (start empty)).ledger 24 ≡ some 21)
    × ((run calls_made (start empty)).ledger 72 ≡ some 30)
unfolding run call kmalloc kfree align_up malloc_from set_free split_block free_from
    coalesce_free_blocks coalesce_from blocks_are_adjacent init write
given = (refl, refl)

run-apart_example : ((24 + 21 ≤ 72) ⊎ (72 + 30 ≤ 24)) × (24 % 8 ≡ 0) × (24 ≤ 24) × (24 + 21 ≤ 65536)
run-apart_example = run-apart empty calls_made 24 21 72 30 given.0 given.1 (omega arith)

abbrev all_freed : List Call
all_freed = malloc 21 ∷ malloc 100 ∷ free 24 ∷ malloc 8 ∷ free 72 ∷ free 24 ∷ []

nothing_left : (p : ℕ) → (run all_freed (start empty)).ledger p ≡ none
unfolding run call kmalloc kfree align_up malloc_from set_free split_block free_from
    coalesce_free_blocks coalesce_from blocks_are_adjacent init write
nothing_left p = ground arith

run-all_freed_example : IsHeap (run all_freed (start empty)).heap ((65512, true) ∷ [])
run-all_freed_example = run-all_freed empty all_freed nothing_left
