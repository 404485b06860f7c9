-- ===== src/Heap/Given.antt =====
-- `kmalloc` keeps the invariant of the heap under its clients.
use operatingsystem.Common.{ℕ, ◌+◌, ◌*◌, ◌/◌, ◌≤◌, ◌<◌, ◌≡◌, refl, sym, ap, ◌∙◌, subst, arith}
use operatingsystem.Common.{
  ◌⊎◌, inl, inr, Option, none, some, List, ◌∷◌, ◌++◌, write, write-at, write-off,
}
use operatingsystem.Common.{true, ℕ_discrete, dec_lt}
use operatingsystem.Heap.{Heap, kmalloc}
use operatingsystem.Heap.Chain.{Block, carve, extent}
use operatingsystem.Heap.Calls.{IsHeap, kmalloc_lem}
use operatingsystem.Heap.Taken.{IsTaken}
use operatingsystem.Heap.Pieces.{
  carved_size, free-IsTaken, new-IsTaken, malloc-IsTaken, IsTaken-malloc,
}
use operatingsystem.Heap.Joined.{IsJoined, carve-IsJoined}
use operatingsystem.Heap.Client.{malloc, Client, call}
use operatingsystem.Heap.Agrees.{Agrees}

kmalloc_refused : (size : ℕ) (h : Heap) → (size ≡ 0) ⊎ (65512 < size) → kmalloc size h ≡ (none, h)
unfolding kmalloc
kmalloc_refused size h out = ground (arith, out)

call-refused :
    (size : ℕ) (c : Client)
    → (kmalloc size c.heap).0 ≡ none
    → call (malloc size) c ≡ record c { heap = (kmalloc size c.heap).1 }
unfolding call
call-refused size c e = rw (call, e) refl

call-given :
    (size p : ℕ) (c : Client)
    → (kmalloc size c.heap).0 ≡ some p
    → call (malloc size) c
      ≡ record { heap = (kmalloc size c.heap).1; ledger = write c.ledger p (some size) }
unfolding call
call-given size p c e = rw (call, e) refl

some-eq : {m n : ℕ} → some m ≡ some n → m ≡ n
some-eq e = cc

-- The same blocks in another heap.
Agrees-heap :
    (c : Client) (h : Heap) (a : Agrees c) → IsHeap h a.blocks → Agrees (record c { heap = h })
Agrees-heap c h a i = record {
  blocks = a.blocks;
  is_heap = i;
  joined = a.joined;
  owned = a.owned;
  listed = a.listed;
}

-- A block of `old` bytes between `before` and `after` gives the memory.
given-Agrees :
    (c : Client) (a : Agrees c) (h : Heap) (size : ℕ) (before after : List Block) (old : ℕ)
    → a.blocks ≡ before ++ ((old, true) ∷ after)
    → (size + 7) / 8 * 8 ≤ old
    → IsHeap h (before ++ carve ((size + 7) / 8 * 8) old after)
    → Agrees (record { heap = h; ledger = write c.ledger (extent before + 24) (some size) })
given-Agrees c a h size before after old e fits i = record {
  blocks = before ++ carve aligned old after;
  is_heap = i;
  joined = carve-IsJoined aligned old before after (subst IsJoined e a.joined);
  owned = λ p s l. elim (ℕ_discrete p (extent before + 24)) [
    | yes at ↦ (
      carved_size aligned old,
      rw at (new-IsTaken aligned old before after),
      enough s (
          sym (write-at c.ledger (extent before + 24) (some size))
          ∙ ap (write c.ledger (extent before + 24) (some size)) (sym at)
          ∙ l),
    )
    | no ne ↦
        let (n, t, le) =
          a.owned p s (sym (write-off c.ledger (extent before + 24) (some size) p ne) ∙ l) in
        (n, IsTaken-malloc aligned old before after p n (subst (λ b. IsTaken 0 b p n) e t), le)
  ];
  listed = λ p n t. elim (malloc-IsTaken aligned old before after p n t) [
    | inl at ↦ (size, rw at (write-at c.ledger (extent before + 24) (some size)))
    | inr u ↦
        let (s, l) = a.listed p n (subst (λ b. IsTaken 0 b p n) (sym e) u) in
        (
          s,
          write-off c.ledger (extent before + 24) (some size) p
                (λ at. free-IsTaken 0 before old after p n u (omega arith))
              ∙ l,
        )
  ];
}
  where
    aligned : ℕ
    aligned = (size + 7) / 8 * 8

    enough : (s : ℕ) → some size ≡ some s → s ≤ carved_size ((size + 7) / 8 * 8) old
    enough s e = ground (arith, some-eq e)

pub malloc-Agrees : (size : ℕ) (c : Client) → Agrees c → Agrees (call (malloc size) c)
malloc-Agrees size c a = elim (dec_lt 0 size) [
  | no zero_bytes ↦ refused (kmalloc_refused size c.heap (inl (omega arith)))
  | yes pos ↦ elim (dec_lt 65512 size) [
    | yes large ↦ refused (kmalloc_refused size c.heap (inr large))
    | no fits ↦ elim (kmalloc_lem c.heap a.blocks size a.is_heap pos (omega arith)) [
      | inr (none_fits, unfit, i) ↦
          subst Agrees (sym (call-refused size c none_fits)) (Agrees-heap c _ a i)
      | inl (before, after, old, e, given) ↦
          subst Agrees (sym (call-given size (extent before + 24) c given.returns))
            (given-Agrees c a _ size before after old e given.fits given.heap)
    ]
  ]
]
  where
    refused : kmalloc size c.heap ≡ (none, c.heap) → Agrees (call (malloc size) c)
    refused e =
        subst Agrees (sym (call-refused size c (ap (λ (r : Option ℕ × Heap). r.0) e))) (
          Agrees-heap c _ a
            (subst (λ (r : Option ℕ × Heap). IsHeap r.1 a.blocks) (sym e) a.is_heap))
