-- ===== src/Heap/Freed.antt =====
-- `kfree` of any pointer keeps the invariant of the heap under its clients.
use operatingsystem.Common.{ℕ, ◌+◌, ◌≡◌, sym, ap, ◌∙◌, subst, arith}
use operatingsystem.Common.{inl, inr, none, some, List, ◌∷◌, ◌++◌, write, write-at, write-off}
use operatingsystem.Common.{true, false, ℕ_discrete}
use operatingsystem.Heap.{Heap, kfree}
use operatingsystem.Heap.Chain.{Block, extent}
use operatingsystem.Heap.Calls.{IsHeap}
use operatingsystem.Heap.Release.{join_all, kfree_lem}
use operatingsystem.Heap.Taken.{IsTaken}
use operatingsystem.Heap.Pieces.{free-IsTaken, given-IsTaken, IsTaken-given}
use operatingsystem.Heap.Joined.{join_all-IsJoined, join_all-IsTaken, IsTaken-join_all}
use operatingsystem.Heap.Stray.{find_block, IsStray-IsTaken, kfree-IsStray, kfree-again}
use operatingsystem.Heap.Client.{free, Client, call}
use operatingsystem.Heap.Agrees.{Agrees}

-- The block of `n` bytes between `before` and `after` is given back.
freed-Agrees :
    (c : Client) (a : Agrees c) (before : List Block) (n : ℕ) (after : List Block)
    → a.blocks ≡ before ++ ((n, false) ∷ after)
    → Agrees (record {
      heap = kfree (some (extent before + 24)) c.heap;
      ledger = write c.ledger (extent before + 24) none;
    })
freed-Agrees c a before n after e = record {
  blocks = join_all (before ++ ((n, true) ∷ after));
  is_heap = kfree_lem c.heap before n false after (subst (IsHeap c.heap) e a.is_heap);
  joined = join_all-IsJoined (before ++ ((n, true) ∷ after));
  owned = λ p s l. elim (ℕ_discrete p (extent before + 24)) [
    | yes at ↦ cc (
      write-at c.ledger (extent before + 24) none,
      ap (write c.ledger (extent before + 24) none) at,
    )
    | no ne ↦
        let (m, t, le) =
          a.owned p s (sym (write-off c.ledger (extent before + 24) none p ne) ∙ l) in
        elim (IsTaken-given n n before after p m (subst (λ b. IsTaken 0 b p m) e t)) [
          | inl at ↦ absurd (ne at)
          | inr u ↦ (m, IsTaken-join_all (before ++ ((n, true) ∷ after)) p m u, le)
        ]
  ];
  listed = λ p m t.
      let u = join_all-IsTaken (before ++ ((n, true) ∷ after)) p m t in
      let (s, l) =
        a.listed p m
          (subst (λ b. IsTaken 0 b p m) (sym e) (given-IsTaken n n before after p m u)) in
      (
        s,
        write-off c.ledger (extent before + 24) none p
              (λ at. free-IsTaken 0 before n after p m u (omega arith))
            ∙ l,
      );
}

-- A pointer that has no taken memory is freed: the blocks stay.
idle-Agrees :
    (p : ℕ) (c : Client) (a : Agrees c) (h : Heap)
    → IsHeap h a.blocks
    → ((n : ℕ) → ¬ IsTaken 0 a.blocks p n)
    → Agrees (record { heap = h; ledger = write c.ledger p none })
idle-Agrees p c a h i idle = record {
  blocks = a.blocks;
  is_heap = i;
  joined = a.joined;
  owned = λ q s l. elim (ℕ_discrete q p) [
    | yes at ↦ cc (write-at c.ledger p none, ap (write c.ledger p none) at)
    | no ne ↦ a.owned q s (sym (write-off c.ledger p none q ne) ∙ l)
  ];
  listed = λ q n t.
      let (s, l) = a.listed q n t in
      (
        s,
        write-off c.ledger p none q
              (λ at. absurd (idle n (subst (λ r. IsTaken 0 a.blocks r n) at t)))
            ∙ l,
      );
}

pub free-Agrees : (p : ℕ) (c : Client) → Agrees c → Agrees (call (free p) c)
unfolding call
free-Agrees p c a = elim (find_block p 0 a.blocks) [
  | inr stray ↦
      idle-Agrees p c a (kfree (some p) c.heap)
        (subst (λ h. IsHeap h a.blocks) (sym (kfree-IsStray p a.blocks c.heap a.is_heap stray))
          a.is_heap)
        (λ n. IsStray-IsTaken p 0 n a.blocks stray)
  | inl (before, after, size, true, e, at) ↦
      let here : extent before + 24 ≡ p = omega arith in
      idle-Agrees p c a (kfree (some p) c.heap)
        (subst (λ q. IsHeap (kfree (some q) c.heap) a.blocks) here
          (kfree-again c.heap a.blocks before after size e a.joined a.is_heap))
        (λ n t. absurd (free-IsTaken 0 before size after p n (subst (λ b. IsTaken 0 b p n) e t) at))
  | inl (before, after, size, false, e, at) ↦
      let here : extent before + 24 ≡ p = omega arith in
      subst (λ q. Agrees (record { heap = kfree (some q) c.heap; ledger = write c.ledger q none }))
        here (freed-Agrees c a before size after e)
]
