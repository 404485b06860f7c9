-- ===== src/Heap/Release.antt =====
-- `kfree` on a heap whose area is made up of blocks.
use operatingsystem.Common.{
  ℕ, zero, suc, ◌+◌, ◌*◌, ◌≤◌, ◌<◌, ◌≡◌, ◌≢◌, refl, ap, ◌∙◌, sym, subst, arith,
}
use operatingsystem.Common.{inl, inr, Option, some, List, [], ◌∷◌, ◌++◌, write_lem, length}
use operatingsystem.Common.{Bool, true, ◌==◌, ==_iff, ==-eq-false, if◌then◌else◌, Bool-cases}
use operatingsystem.Heap.Chain.{Block, link, IsChain, IsChain-ext, length-IsChain, extent}
use operatingsystem.Heap.Calls.{IsHeap}
use operatingsystem.Heap.Free.{join, coalesce_from-Joined}
use operatingsystem.Heap.{
  BlockHeader, Heap, kfree, free_from, set_free, coalesce_from, coalesce_free_blocks,
}

pub free_from-suc :
    (fuel block address : ℕ) (h : Heap)
    → free_from (suc fuel) (some block) address h ≡ (
        if block + 24 == address
        then coalesce_free_blocks (record h { headers = set_free h.headers block true })
        else free_from fuel (h.headers block).next address h)
unfolding free_from
free_from-suc fuel block address h = elim (Bool-cases (block + 24 == address)) [
  | inl here ↦ rw (free_from, here) refl
  | inr on ↦ rw (free_from, on) refl
]

-- All the blocks with every run of free blocks joined.
abbrev pub join_all : List Block → List Block
join_all [] = []
join_all ((size, free) ∷ blocks) = join size free blocks

link-append :
    (a : ℕ) (before : List Block) (b : Block) (after : List Block)
    → link a (before ++ (b ∷ after)) ≡ some a
link-append a [] b after = refl
link-append a (x ∷ before) b after = refl

set_free-at :
    (headers : ℕ → BlockHeader) (t size : ℕ) (free : Bool) (next : Option ℕ)
    → headers t ≡ record { size = size; free = free; next = next }
    → set_free headers t true t ≡ record { size = size; free = true; next = next }
unfolding set_free
set_free-at headers t size free next e =
    rw e (ground (arith, write_lem headers t (record { size = size; free = true; next = next }) t))

set_free-other :
    (headers : ℕ → BlockHeader) (t i : ℕ) → i ≢ t → set_free headers t true i ≡ headers i
unfolding set_free
set_free-other headers t i ne =
    ground (arith, write_lem headers t (record (headers t) { free = true }) i)

IsChain-set_free :
    (headers : ℕ → BlockHeader) (a : ℕ) (before : List Block) (size : ℕ) (free : Bool)
    (after : List Block)
    → IsChain headers a (before ++ ((size, free) ∷ after))
    → IsChain (set_free headers (a + extent before) true) a (before ++ ((size, true) ∷ after))
unfolding extent
IsChain-set_free headers a [] size free after c =
    let start : a ≡ a + extent [] = omega arith in
    subst (λ t. IsChain (set_free headers t true) a ((size, true) ∷ after)) start
      (
        set_free-at headers a size free _ c.0,
        c.1,
        c.2,
        IsChain-ext headers (set_free headers a true) (a + 24 + size) after
            (λ i l. set_free-other headers a i (omega arith)) c.3,
      )
IsChain-set_free headers a ((old, f) ∷ before) size free after c =
    let next : a + 24 + old + extent before ≡ a + extent ((old, f) ∷ before) = omega arith in
    let t = a + 24 + old + extent before in
    let same_link =
      link-append (a + 24 + old) before (size, free) after
      ∙ sym (link-append (a + 24 + old) before (size, true) after) in
    subst (λ t. IsChain (set_free headers t true) a ((old, f) ∷ (before ++ ((size, true) ∷ after))))
      next
      (
        set_free-other headers t a (omega arith)
            ∙ c.0
            ∙ ap (λ n. record { size = old; free = f; next = n }) same_link,
        c.1,
        c.2,
        IsChain-set_free headers (a + 24 + old) before size free after c.3,
      )

free_from_lem :
    (fuel a : ℕ) (before : List Block) (size : ℕ) (free : Bool) (after : List Block) (h : Heap)
    → IsChain h.headers a (before ++ ((size, free) ∷ after))
    → length before < fuel
    → free_from fuel (some a) (a + extent before + 24) h
      ≡ coalesce_free_blocks (record h { headers = set_free h.headers (a + extent before) true })
unfolding extent
free_from_lem zero a before size free after h c l = absurd (omega arith)
free_from_lem (suc fuel) a [] size free after h c l =
    let start : a + 0 ≡ a = omega arith in
    rw (free_from-suc fuel a (a + 0 + 24) h, start, (==_iff (a + 24) (a + 24)).1 refl) refl
free_from_lem (suc fuel) a ((old, f) ∷ before) size free after h c l =
    let next : a + (24 + old + extent before) ≡ a + 24 + old + extent before = omega arith in
    rw
      (
        next,
        free_from-suc fuel a (a + 24 + old + extent before + 24) h,
        ==-eq-false apart,
        c.0,
        link-append (a + 24 + old) before (size, free) after,
      )
      (free_from_lem fuel (a + 24 + old) before size free after h c.3 (omega arith))
  where
    apart : a + 24 ≢ a + 24 + old + extent before + 24
    apart = λ e. omega arith

coalesce-IsHeap :
    (h : Heap) (size : ℕ) (free : Bool) (blocks : List Block)
    → IsHeap h ((size, free) ∷ blocks)
    → IsHeap (coalesce_free_blocks h) (join size free blocks)
unfolding coalesce_free_blocks
coalesce-IsHeap h size free blocks i =
    let j =
      coalesce_from-Joined 2731 0 size free blocks h.headers
        (omega (arith, length-IsChain h.headers (0 + 24 + size) blocks i.chain.3)) i.chain in
    record {
      initialized = i.initialized;
      first = i.first;
      chain =
          subst (λ b. IsChain (coalesce_from 2731 b h.headers) 0 (join size free blocks))
            (sym i.first) j.chain;
    }

coalesce-join_all :
    (h : Heap) (blocks : List Block)
    → IsHeap h blocks
    → IsHeap (coalesce_free_blocks h) (join_all blocks)
coalesce-join_all h [] i = absurd (omega (arith, i.chain))
coalesce-join_all h ((size, free) ∷ blocks) i = coalesce-IsHeap h size free blocks i

length-before :
    (headers : ℕ → BlockHeader) (a : ℕ) (before after : List Block)
    → IsChain headers a (before ++ after)
    → a + 32 * length before ≤ 65536
length-before headers a [] after c = omega (arith, length-IsChain headers a after c)
length-before headers a ((old, f) ∷ before) after c =
    omega (arith, c.2, length-before headers (a + 24 + old) before after c.3)

-- On an initialised heap, `kfree` of the memory of a block, whether that is taken or not, leaves
-- the area made up of the same blocks with that one free and then every run of free blocks joined
-- into one.
pub kfree_lem :
    (h : Heap) (before : List Block) (size : ℕ) (free : Bool) (after : List Block)
    → IsHeap h (before ++ ((size, free) ∷ after))
    → IsHeap (kfree (some (extent before + 24)) h) (join_all (before ++ ((size, true) ∷ after)))
unfolding kfree
kfree_lem h before size free after i =
    subst (λ s. IsHeap s (join_all (before ++ ((size, true) ∷ after)))) (sym found)
      (coalesce-join_all _ (before ++ ((size, true) ∷ after)) (record {
        initialized = i.initialized;
        first = i.first;
        chain = IsChain-set_free h.headers 0 before size free after i.chain;
      }))
  where
    found :
        free_from 2731 h.first_block (extent before + 24) h
        ≡ coalesce_free_blocks (record h { headers = set_free h.headers (0 + extent before) true })
    found =
        ap (λ b. free_from 2731 b (extent before + 24) h) i.first
        ∙ ap (λ p. free_from 2731 (some 0) p h) (omega arith)
        ∙ free_from_lem 2731 0 before size free after h i.chain
            (omega (arith, length-before h.headers 0 before _ i.chain))
