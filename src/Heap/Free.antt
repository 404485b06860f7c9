-- ===== src/Heap/Free.antt =====
-- `coalesce_free_blocks` and `kfree`: free neighbours become one block.
use operatingsystem.Common.{ℕ, zero, suc, ◌+◌, ◌^◌, ◌<◌, ◌≡◌, ◌≢◌, refl, ap, ◌∙◌, sym, arith}
use operatingsystem.Common.{
  inl, inr, Option, none, some, List, [], ◌∷◌, write, write_lem, length, u64,
}
use operatingsystem.Common.{Bool, true, ◌&&◌, ◌==◌, ==_refl, if◌then◌else◌, Bool-cases}
use operatingsystem.Heap.Chain.{Block, link, IsChain, IsChain-ext, length-IsChain}
use operatingsystem.Heap.{BlockHeader, coalesce_from, blocks_are_adjacent}

-- The blocks of a list with every run of free blocks joined, the first block given by itself.
unfoldable pub join : ℕ → Bool → List Block → List Block
join size free [] = (size, free) ∷ []
join size free ((size', free') ∷ blocks) =
    let joined = join (size + 24 + size') true blocks in
    let kept = join size' free' blocks in if free && free' then joined else (size, free) ∷ kept

join-cons :
    (size : ℕ) (free : Bool) (size' : ℕ) (free' : Bool) (blocks : List Block)
    → join size free ((size', free') ∷ blocks) ≡ (
        if free && free'
        then join (size + 24 + size') true blocks
        else (size, free) ∷ join size' free' blocks)
unfolding join
join-cons size free size' free' blocks = refl

link-join :
    (a size : ℕ) (free : Bool) (blocks : List Block) → link a (join size free blocks) ≡ some a
link-join a size free [] = unfold join in refl
link-join a size free ((size', free') ∷ blocks) =
    rw (join-cons size free size' free' blocks) (elim (Bool-cases (free && free')) [
      | inl both ↦ rw both (link-join a (size + 24 + size') true blocks)
      | inr kept ↦ rw kept refl
    ])

-- The header of `a` after its block has taken in the next one.
abbrev absorb : (ℕ → BlockHeader) → ℕ → ℕ → Option ℕ → ℕ → BlockHeader
absorb headers a size next = write headers a (record { size = size; free = true; next = next })

coalesce_from-some :
    (fuel a n : ℕ) (headers : ℕ → BlockHeader)
    → (headers a).next ≡ some n
    → coalesce_from (suc fuel) (some a) headers ≡ (
        if (headers a).free && (headers n).free && (a + 24 + (headers a).size == n)
        then coalesce_from fuel (some a) (
            write headers a (record {
              size = u64 ((headers a).size + (24 + (headers n).size));
              free = (headers a).free;
              next = (headers n).next;
            }))
        else coalesce_from fuel (some n) headers)
unfolding coalesce_from blocks_are_adjacent
coalesce_from-some fuel a n headers e =
    elim (Bool-cases ((headers a).free && (headers n).free && (a + 24 + (headers a).size == n))) [
      | inl joins ↦ rw (coalesce_from, e, joins) refl
      | inr stays ↦ rw (coalesce_from, e, stays) refl
    ]

coalesce_from-next :
    (fuel a size : ℕ) (free : Bool) (size' : ℕ) (free' : Bool) (next : Option ℕ)
    (headers : ℕ → BlockHeader)
    → headers a ≡ record { size = size; free = free; next = some (a + 24 + size) }
    → headers (a + 24 + size) ≡ record { size = size'; free = free'; next = next }
    → size + 24 + size' < 2 ^ 64
    → coalesce_from (suc fuel) (some a) headers ≡ (
        if free && free'
        then coalesce_from fuel (some a) (absorb headers a (size + 24 + size') next)
        else coalesce_from fuel (some (a + 24 + size)) headers)
coalesce_from-next fuel a size free size' free' next headers e e' small =
    coalesce_from-some fuel a (a + 24 + size) headers (ap (λ b. b.next) e)
    ∙ rw (e, e', ==_refl (a + 24 + size), sum)
        (elim (Bool-cases free) [
          | inl t ↦ rw t (elim (Bool-cases free') [ inl t' ↦ rw t' refl | inr f' ↦ rw f' refl ])
          | inr f ↦ rw f refl
        ])
  where
    sum : u64 (size + (24 + size')) ≡ size + 24 + size'
    sum = omega arith

coalesce_from-last :
    (fuel a : ℕ) (headers : ℕ → BlockHeader)
    → (headers a).next ≡ none
    → coalesce_from (suc fuel) (some a) headers ≡ headers
unfolding coalesce_from
coalesce_from-last fuel a headers e = rw (coalesce_from, e) refl

-- `headers'` has the joined chain from `a` on, and what was below.
pub record Joined (headers : ℕ → BlockHeader) (a : ℕ) (blocks : List Block)
    (headers' : ℕ → BlockHeader) : Type 0 where
  pub chain : IsChain headers' a blocks
  pub below : (i : ℕ) → i < a → headers' i ≡ headers i

absorb-at :
    (headers : ℕ → BlockHeader) (a size : ℕ) (next : Option ℕ)
    → absorb headers a size next a ≡ record { size = size; free = true; next = next }
absorb-at headers a size next =
    ground (arith, write_lem headers a (record { size = size; free = true; next = next }) a)

absorb-other :
    (headers : ℕ → BlockHeader) (a size : ℕ) (next : Option ℕ) (i : ℕ)
    → i ≢ a
    → absorb headers a size next i ≡ headers i
absorb-other headers a size next i ne =
    ground (arith, write_lem headers a (record { size = size; free = true; next = next }) i)

IsChain-absorb :
    (headers : ℕ → BlockHeader) (a size size' : ℕ) (free free' : Bool) (blocks : List Block)
    → IsChain headers a ((size, free) ∷ (size', free') ∷ blocks)
    → IsChain
        (absorb headers a (size + 24 + size') (link (a + 24 + size + 24 + size') blocks))
        a
        ((size + 24 + size', true) ∷ blocks)
IsChain-absorb headers a size size' free free' blocks c =
    let after = absorb headers a (size + 24 + size') (link (a + 24 + size + 24 + size') blocks) in
    let end : a + 24 + (size + 24 + size') ≡ a + 24 + size + 24 + size' = omega arith in
    rw end (
      absorb-at headers a (size + 24 + size') _,
      omega (arith, c.1, c.3.1),
      omega (arith, c.2),
      IsChain-ext headers after (a + 24 + size + 24 + size') blocks
          (λ i l. absorb-other headers a _ _ i (omega arith)) c.3.3,
    )

pub coalesce_from-Joined :
    (fuel a size : ℕ) (free : Bool) (blocks : List Block) (headers : ℕ → BlockHeader)
    → length blocks < fuel
    → IsChain headers a ((size, free) ∷ blocks)
    → Joined headers a (join size free blocks) (coalesce_from fuel (some a) headers)
coalesce_from-Joined zero a size free blocks headers l c = absurd (omega arith)
coalesce_from-Joined (suc fuel) a size free [] headers l c =
    rw (coalesce_from-last fuel a headers (ap (λ b. b.next) c.0))
      (record { chain = unfold join in c; below = λ i l. refl })
coalesce_from-Joined (suc fuel) a size free ((size', free') ∷ blocks) headers l c =
    let bound = length-IsChain headers (a + 24 + size + 24 + size') blocks c.3.3 in
    rw
      (
        coalesce_from-next fuel a size free size' free' _ headers c.0 c.3.0 (omega arith),
        join-cons size free size' free' blocks,
      )
      (elim (Bool-cases (free && free')) [
        | inl both ↦
            let j =
              coalesce_from-Joined fuel a (size + 24 + size') true blocks _ (omega arith)
                (IsChain-absorb headers a size size' free free' blocks c) in
            rw both (record {
              chain = j.chain;
              below = λ i l. j.below i l ∙ absorb-other headers a _ _ i (omega arith);
            })
        | inr apart ↦
            let j =
              coalesce_from-Joined fuel (a + 24 + size) size' free' blocks headers (omega arith)
                c.3 in
            rw apart (record {
              chain = (
                j.below a (omega arith)
                    ∙ c.0
                    ∙ ap (λ n. record { size = size; free = free; next = n })
                        (sym (link-join (a + 24 + size) size' free' blocks)),
                c.1,
                c.2,
                j.chain,
              );
              below = λ i l. j.below i (omega arith);
            })
      ])
