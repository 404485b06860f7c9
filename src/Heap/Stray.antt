-- ===== src/Heap/Stray.antt =====
-- `kfree` of a pointer that is not the memory of a taken block.
use operatingsystem.Common.{ℕ, zero, suc, ◌+◌, ◌≤◌, ◌≡◌, ◌≢◌, refl, sym, ap, ◌∙◌, subst, arith}
use operatingsystem.Common.{◌⊎◌, inl, inr, some, List, [], ◌∷◌, ◌++◌, length}
use operatingsystem.Common.{Bool, true, false, ==-eq-false, ℕ_discrete}
use operatingsystem.Heap.{Heap, kfree, free_from}
use operatingsystem.Heap.Chain.{Block, link, IsChain, length-IsChain, extent, link-IsChain}
use operatingsystem.Heap.Calls.{IsHeap}
use operatingsystem.Heap.Free.{join}
use operatingsystem.Heap.Release.{join_all, free_from-suc, kfree_lem}
use operatingsystem.Heap.Taken.{IsTaken}
use operatingsystem.Heap.Joined.{IsJoined}

-- None of the blocks from `a` on has its memory at `p`.
abbrev pub IsStray : ℕ → ℕ → List Block → Type 0
IsStray p a [] = Unit {0}
IsStray p a ((size, free) ∷ blocks) = (a + 24 ≢ p) × IsStray p (a + 24 + size) blocks

pub IsStray-IsTaken :
    (p a n : ℕ) (blocks : List Block) → IsStray p a blocks → ¬ IsTaken a blocks p n
IsStray-IsTaken p a n [] s = λ t. absurd t
IsStray-IsTaken p a n ((size, free) ∷ blocks) s = λ t. elim t [
  | inl here ↦ absurd (s.0 (sym here.1))
  | inr later ↦ absurd (IsStray-IsTaken p (a + 24 + size) n blocks s.1 later)
]

-- An address is the memory of a block in the list, or of none.
pub find_block :
    (p a : ℕ) (blocks : List Block)
    → ((before after : List Block) × (size : ℕ) × (free : Bool) × (blocks
          ≡ before ++ ((size, free) ∷ after))
        × (p ≡ a + extent before + 24))
      ⊎ IsStray p a blocks
unfolding extent
find_block p a [] = inr tt
find_block p a ((size, free) ∷ blocks) = elim (ℕ_discrete (a + 24) p) [
  | yes here ↦ inl ([], blocks, size, free, refl, omega arith)
  | no ne ↦ elim (find_block p (a + 24 + size) blocks) [
    | inl (before, after, s, f, e, at) ↦
        inl ((size, free) ∷ before, after, s, f, ap (λ l. (size, free) ∷ l) e, omega arith)
    | inr stray ↦ inr (ne, stray)
  ]
]

free_from-IsStray :
    (fuel p a : ℕ) (blocks : List Block) (h : Heap)
    → IsChain h.headers a blocks
    → length blocks ≤ fuel
    → IsStray p a blocks
    → free_from fuel (link a blocks) p h ≡ h
free_from-IsStray zero p a blocks h c l s = unfold free_from in refl
free_from-IsStray (suc fuel) p a [] h c l s = unfold free_from in refl
free_from-IsStray (suc fuel) p a ((size, free) ∷ blocks) h c l s =
    rw (free_from-suc fuel a p h, ==-eq-false s.0, c.0)
      (free_from-IsStray fuel p (a + 24 + size) blocks h c.3 (omega arith) s.1)

pub kfree-IsStray :
    (p : ℕ) (blocks : List Block) (h : Heap)
    → IsHeap h blocks
    → IsStray p 0 blocks
    → kfree (some p) h ≡ h
unfolding kfree
kfree-IsStray p blocks h i s =
    ap (λ b. free_from 2731 b p h) (i.first ∙ sym (link-IsChain h.headers blocks i.chain))
    ∙ free_from-IsStray 2731 p 0 blocks h i.chain
        (omega (arith, length-IsChain h.headers 0 blocks i.chain)) s

join-joined :
    (size : ℕ) (free : Bool) (blocks : List Block)
    → IsJoined ((size, free) ∷ blocks)
    → join size free blocks ≡ (size, free) ∷ blocks
unfolding join
join-joined size free [] j = refl
join-joined size true ((size', true) ∷ blocks) j = cc (j.0)
join-joined size true ((size', false) ∷ blocks) j =
    ap (λ l. (size, true) ∷ l) (join-joined size' false blocks j.1)
join-joined size false ((size', free') ∷ blocks) j =
    ap (λ l. (size, false) ∷ l) (join-joined size' free' blocks j.1)

join_all-joined : (blocks : List Block) → IsJoined blocks → join_all blocks ≡ blocks
join_all-joined [] j = refl
join_all-joined ((size, free) ∷ blocks) j = join-joined size free blocks j

-- In a joined chain the memory of a free block can be freed again: nothing changes.
pub kfree-again :
    (h : Heap) (blocks before after : List Block) (size : ℕ)
    → blocks ≡ before ++ ((size, true) ∷ after)
    → IsJoined blocks
    → IsHeap h blocks
    → IsHeap (kfree (some (extent before + 24)) h) blocks
kfree-again h blocks before after size e j i =
    subst (IsHeap (kfree (some (extent before + 24)) h))
      (ap join_all (sym e) ∙ join_all-joined blocks j)
      (kfree_lem h before size true after (subst (IsHeap h) e i))
