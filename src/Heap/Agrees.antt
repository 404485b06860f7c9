-- ===== src/Heap/Agrees.antt =====
-- The invariant of the heap under its clients: what was given out and not yet freed is what is taken.
use operatingsystem.Common.{ℕ, ◌≤◌, ◌≡◌, refl}
use operatingsystem.Common.{inl, inr, some, List, [], ◌∷◌}
use operatingsystem.Common.{true}
use operatingsystem.Heap.{Heap}
use operatingsystem.Heap.Chain.{Block}
use operatingsystem.Heap.Calls.{IsHeap, init-IsHeap}
use operatingsystem.Heap.Taken.{IsTaken}
use operatingsystem.Heap.Joined.{IsJoined}
use operatingsystem.Heap.Client.{Client, start}

-- The ledger tells which memory is taken, in a heap without neighbours that are both free.
pub record Agrees (c : Client) : Type 0 where
  pub blocks : List Block
  pub is_heap : IsHeap c.heap blocks
  pub joined : IsJoined blocks
  pub owned : (p size : ℕ) → c.ledger p ≡ some size → (n : ℕ) × IsTaken 0 blocks p n × (size ≤ n)
  pub listed : (p n : ℕ) → IsTaken 0 blocks p n → (size : ℕ) × (c.ledger p ≡ some size)

pub start-Agrees : (h : Heap) → Agrees (start h)
start-Agrees h = record {
  blocks = (65512, true) ∷ [];
  is_heap = init-IsHeap h;
  joined = (refl, tt);
  owned = λ p size e. cc;
  listed = λ p n t. elim t [ inl (e, at, all) ↦ cc | inr nothing ↦ absurd nothing ];
}
