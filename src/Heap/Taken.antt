-- ===== src/Heap/Taken.antt =====
-- The memory that the taken blocks of a list hold.
use operatingsystem.Common.{ℕ, ◌+◌, ◌%◌, ◌≤◌, ◌≡◌, sym, ◌∙◌, arith}
use operatingsystem.Common.{◌⊎◌, inl, inr, List, [], ◌∷◌}
use operatingsystem.Common.{Bool, true, false}
use operatingsystem.Heap.{BlockHeader}
use operatingsystem.Heap.Chain.{Block, IsChain, extent}
use operatingsystem.Heap.Free.{join}

-- From offset `a` on, the blocks have a taken one whose memory is the `n` bytes from `p` on.
abbrev pub IsTaken : ℕ → List Block → ℕ → ℕ → Type 0
IsTaken a [] p n = ⊥
IsTaken a ((size, free) ∷ blocks) p n =
    ((free ≡ false) × (p ≡ a + 24) × (n ≡ size)) ⊎ IsTaken (a + 24 + size) blocks p n

pub IsTaken-within :
    (a : ℕ) (blocks : List Block) (p n : ℕ)
    → IsTaken a blocks p n
    → (a + 24 ≤ p) × (p + n ≤ a + extent blocks)
unfolding extent
IsTaken-within a [] p n t = absurd t
IsTaken-within a ((size, free) ∷ blocks) p n (inl t) = omega (arith, t.1, t.2)
IsTaken-within a ((size, free) ∷ blocks) p n (inr t) =
    omega (arith, IsTaken-within (a + 24 + size) blocks p n t)

-- The memory of one block, or of two with a header at least between them.
abbrev pub Apart : ℕ → ℕ → ℕ → ℕ → Type 0
Apart p n p' n' = ((p ≡ p') × (n ≡ n')) ⊎ (p + n + 24 ≤ p') ⊎ (p' + n' + 24 ≤ p)

pub IsTaken-Apart :
    (a : ℕ) (blocks : List Block) (p n p' n' : ℕ)
    → IsTaken a blocks p n
    → IsTaken a blocks p' n'
    → Apart p n p' n'
IsTaken-Apart a [] p n p' n' t t' = absurd t
IsTaken-Apart a ((size, free) ∷ blocks) p n p' n' (inl t) (inl t') =
    inl (t.1 ∙ sym t'.1, t.2 ∙ sym t'.2)
IsTaken-Apart a ((size, free) ∷ blocks) p n p' n' (inl t) (inr t') =
    inr (inl (omega (arith, t.1, t.2, IsTaken-within (a + 24 + size) blocks p' n' t')))
IsTaken-Apart a ((size, free) ∷ blocks) p n p' n' (inr t) (inl t') =
    inr (inr (omega (arith, t'.1, t'.2, IsTaken-within (a + 24 + size) blocks p n t)))
IsTaken-Apart a ((size, free) ∷ blocks) p n p' n' (inr t) (inr t') =
    IsTaken-Apart (a + 24 + size) blocks p n p' n' t t'

pub IsTaken-aligned :
    (headers : ℕ → BlockHeader) (a : ℕ) (blocks : List Block) (p n : ℕ)
    → IsChain headers a blocks
    → a % 8 ≡ 0
    → IsTaken a blocks p n
    → p % 8 ≡ 0
IsTaken-aligned headers a [] p n c z t = absurd t
IsTaken-aligned headers a ((size, free) ∷ blocks) p n c z (inl t) = omega (arith, t.1)
IsTaken-aligned headers a ((size, free) ∷ blocks) p n c z (inr t) =
    IsTaken-aligned headers (a + 24 + size) blocks p n c.3 (omega (arith, c.1)) t

pub extent-IsChain :
    (headers : ℕ → BlockHeader) (a : ℕ) (blocks : List Block)
    → IsChain headers a blocks
    → a + extent blocks ≡ 65536
unfolding extent
extent-IsChain headers a [] c = omega (arith, c)
extent-IsChain headers a ((size, free) ∷ blocks) c =
    omega (arith, extent-IsChain headers (a + 24 + size) blocks c.3)

sum : (a size size' : ℕ) → a + 24 + size + 24 + size' ≡ a + 24 + (size + 24 + size')
sum a size size' = omega arith

-- Joining free blocks takes nothing and gives nothing back.
pub join-IsTaken :
    (a size : ℕ) (free : Bool) (blocks : List Block) (p n : ℕ)
    → IsTaken a (join size free blocks) p n
    → IsTaken a ((size, free) ∷ blocks) p n
unfolding join
join-IsTaken a size free [] p n t = t
join-IsTaken a size true ((size', true) ∷ blocks) p n t =
    elim (join-IsTaken a (size + 24 + size') true blocks p n t) [
      | inl (k, e, e') ↦ cc
      | inr k ↦ inr (inr (rw (sum a size size') k))
    ]
join-IsTaken a size true ((size', false) ∷ blocks) p n (inl t) = inl t
join-IsTaken a size true ((size', false) ∷ blocks) p n (inr t) =
    inr (join-IsTaken (a + 24 + size) size' false blocks p n t)
join-IsTaken a size false ((size', free') ∷ blocks) p n (inl t) = inl t
join-IsTaken a size false ((size', free') ∷ blocks) p n (inr t) =
    inr (join-IsTaken (a + 24 + size) size' free' blocks p n t)

pub IsTaken-join :
    (a size : ℕ) (free : Bool) (blocks : List Block) (p n : ℕ)
    → IsTaken a ((size, free) ∷ blocks) p n
    → IsTaken a (join size free blocks) p n
unfolding join
IsTaken-join a size free [] p n t = t
IsTaken-join a size true ((size', true) ∷ blocks) p n (inl t) = cc (t.0)
IsTaken-join a size true ((size', true) ∷ blocks) p n (inr (inl t)) = cc (t.0)
IsTaken-join a size true ((size', true) ∷ blocks) p n (inr (inr t)) =
    IsTaken-join a (size + 24 + size') true blocks p n (inr (rw (← sum a size size') t))
IsTaken-join a size true ((size', false) ∷ blocks) p n (inl t) = inl t
IsTaken-join a size true ((size', false) ∷ blocks) p n (inr t) =
    inr (IsTaken-join (a + 24 + size) size' false blocks p n t)
IsTaken-join a size false ((size', free') ∷ blocks) p n (inl t) = inl t
IsTaken-join a size false ((size', free') ∷ blocks) p n (inr t) =
    inr (IsTaken-join (a + 24 + size) size' free' blocks p n t)
