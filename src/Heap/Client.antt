-- ===== src/Heap/Client.antt =====
-- Any sequence of calls of `kmalloc` and `kfree`, also with pointers that were never given out or
-- were freed before.
use operatingsystem.Common.{ℕ, Option, none, some, List, [], ◌∷◌, write}
use operatingsystem.Heap.{Heap, init, kmalloc, kfree}

pub data Call : Type 0 where
  malloc : ℕ → Call
  free : ℕ → Call

-- The heap, and for each address that was given out and not yet freed the number of bytes asked for.
pub record Client : Type 0 where
  pub heap : Heap
  pub ledger : ℕ → Option ℕ

unfoldable pub call : Call → Client → Client
call (malloc size) c = elim (kmalloc size c.heap).0 [
  | none ↦ record c { heap = (kmalloc size c.heap).1 }
  | some p ↦ record { heap = (kmalloc size c.heap).1; ledger = write c.ledger p (some size) }
]
call (free p) c = record { heap = kfree (some p) c.heap; ledger = write c.ledger p none }

unfoldable pub run : List Call → Client → Client
run [] c = c
run (k ∷ calls) c = run calls (call k c)

abbrev pub start : Heap → Client
start h = record { heap = init h; ledger = λ p. none }
