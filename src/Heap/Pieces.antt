-- ===== src/Heap/Pieces.antt =====
-- The taken memory of a list of blocks, where one of them is taken, split or given back.
use operatingsystem.Common.{ℕ, ◌+◌, ◌≡◌, ◌≢◌, refl, sym, ap, ap₂, subst, arith}
use operatingsystem.Common.{◌⊎◌, inl, inr, List, [], ◌∷◌, ◌++◌}
use operatingsystem.Common.{true, false, ltb, Bool-cases, if◌then◌else◌}
use operatingsystem.Heap.Chain.{Block, carve, extent}
use operatingsystem.Heap.Taken.{IsTaken, IsTaken-within}

-- Between `before` and `after` blocks `x` stand in place of blocks `y` of the same extent: what is
-- taken among `x` or elsewhere is so among `y`, too, or `Q` holds.
replace-IsTaken :
    {Q : Type 0} (a : ℕ) (before x y : List Block) (p n : ℕ)
    → (IsTaken (a + extent before) x p n → Q ⊎ IsTaken (a + extent before) y p n)
    → IsTaken a (before ++ x) p n
    → Q ⊎ IsTaken a (before ++ y) p n
unfolding extent
replace-IsTaken a [] x y p n h t = elim (h (subst (λ b. IsTaken b x p n) (omega arith) t)) [
  | inl q ↦ inl q
  | inr u ↦ inr (subst (λ b. IsTaken b y p n) (omega arith) u)
]
replace-IsTaken a ((size, free) ∷ before) x y p n h (inl t) = inr (inl t)
replace-IsTaken {Q} a ((size, free) ∷ before) x y p n h (inr t) =
    elim (replace-IsTaken {Q = Q} (a + 24 + size) before x y p n moved t) [
      | inl q ↦ inl q
      | inr u ↦ inr (inr u)
    ]
  where
    start : a + (24 + size + extent before) ≡ a + 24 + size + extent before
    start = omega arith

    moved :
        IsTaken (a + 24 + size + extent before) x p n
        → Q ⊎ IsTaken (a + 24 + size + extent before) y p n
    moved = subst (λ b. IsTaken b x p n → Q ⊎ IsTaken b y p n) start h

IsTaken-at :
    (a : ℕ) (before x : List Block) (p n : ℕ)
    → IsTaken (a + extent before) x p n
    → IsTaken a (before ++ x) p n
unfolding extent
IsTaken-at a [] x p n t = subst (λ b. IsTaken b x p n) (omega arith) t
IsTaken-at a ((size, free) ∷ before) x p n t =
    inr (IsTaken-at (a + 24 + size) before x p n (subst (λ b. IsTaken b x p n) (omega arith) t))

-- The memory of a free block is not taken.
pub free-IsTaken :
    (a : ℕ) (before : List Block) (size : ℕ) (after : List Block) (p n : ℕ)
    → IsTaken a (before ++ ((size, true) ∷ after)) p n
    → p ≢ a + extent before + 24
unfolding extent
free-IsTaken a [] size after p n (inl t) = cc (t.0)
free-IsTaken a [] size after p n (inr t) =
    λ e. omega (arith, IsTaken-within (a + 24 + size) after p n t)
free-IsTaken a ((s, f) ∷ before) size after p n (inl t) = λ e. omega (arith, t.1)
free-IsTaken a ((s, f) ∷ before) size after p n (inr t) =
    λ e. free-IsTaken (a + 24 + s) before size after p n t (omega arith)

-- A taken block stands somewhere in the list.
pub split-IsTaken :
    (a : ℕ) (blocks : List Block) (p n : ℕ)
    → IsTaken a blocks p n
    → (before after : List Block) × (blocks ≡ before ++ ((n, false) ∷ after))
      × (p ≡ a + extent before + 24)
unfolding extent
split-IsTaken a [] p n t = absurd t
split-IsTaken a ((size, free) ∷ blocks) p n (inl t) =
    ([], blocks, ap₂ (λ s f. (s, f) ∷ blocks) (sym t.2) t.0, omega (arith, t.1))
split-IsTaken a ((size, free) ∷ blocks) p n (inr t) =
    let (before, after, e, at) = split-IsTaken (a + 24 + size) blocks p n t in
    ((size, free) ∷ before, after, ap (λ l. (size, free) ∷ l) e, omega arith)

-- The part of a block that `kmalloc` takes.
abbrev pub carved_size : ℕ → ℕ → ℕ
carved_size size old = if ltb old (size + 32) then old else size

pub carve-IsTaken :
    (a size old : ℕ) (after : List Block) (p n : ℕ)
    → IsTaken a (carve size old after) p n
    → ((p ≡ a + 24) × (n ≡ carved_size size old)) ⊎ IsTaken (a + 24 + old) after p n
carve-IsTaken a size old after p n = elim (Bool-cases (ltb old (size + 32))) [
  | inl whole ↦ rw whole (λ t. elim t [ inl (k, e, e') ↦ inl (e, e') | inr later ↦ inr later ])
  | inr split ↦ rw split (λ t. elim t [
    | inl (k, e, e') ↦ inl (e, e')
    | inr (inl (k, e, e')) ↦ cc
    | inr (inr later) ↦ inr (subst (λ b. IsTaken b after p n) (ground arith) later)
  ])
]

pub IsTaken-carve :
    (a size old : ℕ) (after : List Block) (p n : ℕ)
    → ((p ≡ a + 24) × (n ≡ carved_size size old)) ⊎ IsTaken (a + 24 + old) after p n
    → IsTaken a (carve size old after) p n
IsTaken-carve a size old after p n = elim (Bool-cases (ltb old (size + 32))) [
  | inl whole ↦ rw whole (λ t. elim t [ inl (e, e') ↦ inl (refl, e, e') | inr later ↦ inr later ])
  | inr split ↦ rw split (λ t. elim t [
    | inl (e, e') ↦ inl (refl, e, e')
    | inr later ↦ inr (inr (subst (λ b. IsTaken b after p n) (ground arith) later))
  ])
]

module _ (size old : ℕ) (before after : List Block) where
  -- After `kmalloc`.
  pub new-IsTaken :
      IsTaken 0 (before ++ carve size old after) (extent before + 24) (carved_size size old)
  new-IsTaken =
      IsTaken-at 0 before (carve size old after) (extent before + 24) (carved_size size old)
        (IsTaken-carve (0 + extent before) size old after _ _ (inl (omega arith, refl)))

  pub malloc-IsTaken :
      (p n : ℕ)
      → IsTaken 0 (before ++ carve size old after) p n
      → (p ≡ extent before + 24) ⊎ IsTaken 0 (before ++ ((old, true) ∷ after)) p n
  malloc-IsTaken p n =
      replace-IsTaken 0 before (carve size old after) ((old, true) ∷ after) p n (λ t.
        elim (carve-IsTaken (0 + extent before) size old after p n t) [
          | inl (e, e') ↦ inl (omega arith)
          | inr later ↦ inr (inr later)
        ])

  pub IsTaken-malloc :
      (p n : ℕ)
      → IsTaken 0 (before ++ ((old, true) ∷ after)) p n
      → IsTaken 0 (before ++ carve size old after) p n
  IsTaken-malloc p n t =
      elim (replace-IsTaken {Q = ⊥} 0 before ((old, true) ∷ after) (carve size old after) p n
        (λ u. elim u [
          | inl (k, e, e') ↦ cc
          | inr later ↦ inr (IsTaken-carve (0 + extent before) size old after p n (inr later))
        ])
        t) [ inl nothing ↦ absurd nothing | inr done ↦ done ]

  -- After `kfree`, but for the joining.
  pub given-IsTaken :
      (p n : ℕ)
      → IsTaken 0 (before ++ ((old, true) ∷ after)) p n
      → IsTaken 0 (before ++ ((old, false) ∷ after)) p n
  given-IsTaken p n t =
      elim (replace-IsTaken {Q = ⊥} 0 before ((old, true) ∷ after) ((old, false) ∷ after) p n
        (λ u. elim u [ inl (k, e, e') ↦ cc | inr later ↦ inr (inr later) ]) t) [
          | inl nothing ↦ absurd nothing
          | inr done ↦ done
        ]

  pub IsTaken-given :
      (p n : ℕ)
      → IsTaken 0 (before ++ ((old, false) ∷ after)) p n
      → (p ≡ extent before + 24) ⊎ IsTaken 0 (before ++ ((old, true) ∷ after)) p n
  IsTaken-given p n =
      replace-IsTaken 0 before ((old, false) ∷ after) ((old, true) ∷ after) p n
        (λ u. elim u [ inl (k, e, e') ↦ inl (omega arith) | inr later ↦ inr (inr later) ])
