-- ===== src/Vmm/Space.antt =====
-- `vmm_create_address_space`: a new root table, and the spaces that were there.
use operatingsystem.Common.{
  ℕ, ◌+◌, ◌*◌, ◌/◌, ◌%◌, ◌≤◌, ◌<◌, ◌≡◌, ◌≢◌, refl, sym, ap, ◌∙◌, subst, arith,
}
use operatingsystem.Common.{
  ◌⊎◌, inl, inr, Option, none, some, List, [], write, write_lem, ℕ_discrete, dec_lt,
}
use operatingsystem.Common.{true, false, ==_refl, ==-eq-false}
use operatingsystem.Pmm.{Pmm, test_bit, alloc_page}
use operatingsystem.Pmm.Alloc.{Granted, alloc_page_lem}
use operatingsystem.Pmm.Spent.{Spent, Granted-Spent}
use operatingsystem.Vmm.{
  Vmm, is_present, is_huge, entry_at, zero_entries, create_address_space, translate,
}
use operatingsystem.Vmm.Walk.{absent, walk, target, translate_lem}
use operatingsystem.Vmm.Tree.{
  Owner, IsTree, SameWalks, same, same_walks, walk-empty, zero_entries_inside, zero_entries_outside,
}
use operatingsystem.Vmm.Keeps.{Keeps, off_page}
use operatingsystem.Vmm.Enter.{fresh-ne}

module _ (s : Vmm) (owner : Owner) (page : ℕ) (pmm : Pmm) (i : IsTree s owner)
    (g : Granted s.pmm page 1 (page * 4096, pmm)) where
  abbrev cleared : ℕ → ℕ
  cleared = zero_entries 512 (page * 4096) s.memory

  abbrev grown : Owner
  grown = write owner (page * 4096) (some [])

  other_page : (x : ℕ) (q : List ℕ) → owner x ≡ some q → x ≢ page * 4096
  other_page x q ox = fresh-ne page x q i (g.was_free page (omega arith) (omega arith)) ox

  cleared-other :
      (x : ℕ) (q : List ℕ) (j : ℕ)
      → owner x ≡ some q
      → j < 512
      → cleared (entry_at x j) ≡ s.memory (entry_at x j)
  cleared-other x q j ox hx =
      zero_entries_outside 512 (page * 4096) s.memory (entry_at x j)
        (apart (other_page x q ox) (i.aligned x q ox).0)
    where
      apart :
          x ≢ page * 4096
          → x % 4096 ≡ 0
          → (entry_at x j < page * 4096) ⊎ (page * 4096 + 8 * 512 ≤ entry_at x j)
      apart ne al = elim (dec_lt (entry_at x j) (page * 4096)) [
        | yes below ↦ inl below
        | no above ↦ inr (omega arith)
      ]

  grown-new : grown (page * 4096) ≡ some []
  grown-new =
      write_lem owner (page * 4096) (some []) (page * 4096) ∙ rw (==_refl (page * 4096)) refl

  grown-other : (x : ℕ) → x ≢ page * 4096 → grown x ≡ owner x
  grown-other x ne = write_lem owner (page * 4096) (some []) x ∙ rw (==-eq-false ne) refl

  grown-grows : (x : ℕ) (q : List ℕ) → owner x ≡ some q → grown x ≡ some q
  grown-grows x q ox = grown-other x (other_page x q ox) ∙ ox

  grown-cases :
      (x : ℕ) (q : List ℕ)
      → grown x ≡ some q
      → ((x ≡ page * 4096) × (◌≡◌ {A = List ℕ} [] q)) ⊎ (owner x ≡ some q)
  grown-cases x q gx = elim (ℕ_discrete x (page * 4096)) [
    | yes ex ↦ inl (ex, cc (grown-new, ap grown ex))
    | no ne ↦ inr (sym (grown-other x ne) ∙ gx)
  ]

  space-IsTree : IsTree (record s { pmm = pmm; memory = cleared }) grown
  space-IsTree = record {
    valid = g.valid;
    small = omega (arith, i.small, g.same_total);
    aligned = λ x q gx. elim (grown-cases x q gx) [
      | inl (ex, eq) ↦ omega (arith, g.nonzero)
      | inr ox ↦ i.aligned x q ox
    ];
    taken = λ x q gx. elim (grown-cases x q gx) [
      | inl (ex, eq) ↦ ap (test_bit pmm.bitmap) (omega arith) ∙ g.after page ∙ ground arith
      | inr ox ↦ g.after (x / 4096) ∙ ground (arith, i.taken x q ox)
    ];
    child = λ x q j gx lx hx px nx. elim (grown-cases x q gx) [
      | inl (ex, eq) ↦
          let nothing : is_present (cleared (entry_at x j)) ≡ false =
            rw ex (ap is_present (zero_entries_inside 512 (page * 4096) s.memory j hx)) in
          cc
      | inr ox ↦
          let kept = cleared-other x q j ox hx in
          rw kept (
            grown-grows _ _
              (i.child x q j ox lx hx (ap is_present (sym kept) ∙ px) (ap is_huge (sym kept) ∙ nx)))
    ];
  }

  space_walks : SameWalks owner s.memory cleared
  space_walks =
      same_walks s owner cleared i (λ x q j ox lx hx. same (cleared-other x q j ox hx))
        (λ x q j ox lx hx. cleared-other x q j ox hx)

  space-Keeps : Keeps s owner (record s { pmm = pmm; memory = cleared }) grown
  space-Keeps = record {
    page_kept = λ a k z.
        let other : a / 4096 ≢ page = (λ q.
          cc (g.was_free page (omega arith) (omega arith), k, ap (test_bit s.pmm.bitmap) q)) in
        (
          zero_entries_outside 512 (page * 4096) s.memory a (off_page page a other),
          g.after (a / 4096) ∙ ground (arith, k),
          grown-other (a / 4096 * 4096) (λ q. other (omega arith)) ∙ z,
        );
  }

-- The new address space `r.0`, in the state `r.1`.
pub record NewSpace (s : Vmm) (owner : Owner) (r : ℕ × Vmm) : Type 0 where
  pub owner' : Owner
  pub tree : IsTree r.1 owner'
  pub root : owner' r.0 ≡ some []
  pub fresh : owner r.0 ≡ none
  pub grows : (x : ℕ) (q : List ℕ) → owner x ≡ some q → owner' x ≡ some q
  pub empty : (v : ℕ) → translate r.0 v r.1 ≡ 0
  pub others : (x v : ℕ) → owner x ≡ some [] → translate x v r.1 ≡ translate x v s
  pub walks : SameWalks owner s.memory r.1.memory
  pub spent : Spent 1 s.pmm r.1.pmm
  pub keeps : Keeps s owner r.1 owner'
  pub same_cr3 : r.1.cr3 ≡ s.cr3

translate-same :
    (s s' : Vmm) (x v : ℕ)
    → walk 3 x v s'.memory ≡ walk 3 x v s.memory
    → translate x v s' ≡ translate x v s
translate-same s s' x v e = translate_lem x v s' ∙ ap (target v) e ∙ sym (translate_lem x v s)

absent-zero : (s : Vmm) (x v : ℕ) → walk 3 x v s.memory ≡ absent → translate x v s ≡ 0
absent-zero s x v e = translate_lem x v s ∙ ap (target v) e ∙ refl

no_owner :
    {s : Vmm} {owner : Owner} (page : ℕ)
    → IsTree s owner
    → test_bit s.pmm.bitmap page ≡ false
    → (o : Option (List ℕ)) → owner (page * 4096) ≡ o
    → o ≡ none
no_owner page i free none e = refl
no_owner page i free (some q) e = absurd (fresh-ne page (page * 4096) q i free e refl)

new_space :
    (s : Vmm) (owner : Owner) (page : ℕ) (pmm : Pmm)
    → IsTree s owner
    → Granted s.pmm page 1 (page * 4096, pmm)
    → NewSpace s owner
        (page * 4096, record s { pmm = pmm; memory = zero_entries 512 (page * 4096) s.memory })
new_space s owner page pmm i g =
    let after = record s { pmm = pmm; memory = zero_entries 512 (page * 4096) s.memory } in
    record {
      owner' = grown s owner page pmm i g;
      tree = space-IsTree s owner page pmm i g;
      root = grown-new s owner page pmm i g;
      fresh = no_owner page i (g.was_free page (omega arith) (omega arith)) _ refl;
      grows = grown-grows s owner page pmm i g;
      empty = λ v. absent-zero after (page * 4096) v (
          walk-empty 3 (page * 4096) v after.memory
            (zero_entries_inside 512 (page * 4096) s.memory));
      others =
          λ x v o. translate-same s after x v (space_walks s owner page pmm i g 3 x [] v o refl);
      walks = space_walks s owner page pmm i g;
      spent = Granted-Spent (page * 4096, pmm) g;
      keeps = space-Keeps s owner page pmm i g;
      same_cr3 = refl;
    }

-- `vmm_create_address_space` on well-formed tables gives the root of a new address space, which
-- was none of the tables and translates every address to 0, keeps the tables well-formed and
-- leaves what every other space translates as it is; or it returns 0, changes nothing, and every
-- page of the machine is taken.
pub create_address_space_lem :
    (s : Vmm) (owner : Owner)
    → IsTree s owner
    → NewSpace s owner (create_address_space s)
      ⊎ ((create_address_space s ≡ (0, s))
          × ((q : ℕ) → q < s.pmm.total_pages → test_bit s.pmm.bitmap q ≡ true))
unfolding create_address_space
create_address_space_lem s owner i = elim (alloc_page_lem s.pmm i.valid) [
  | inr (failed, all) ↦ rw failed (inr (refl, all))
  | inl (page, g) ↦
      rw (==-eq-false (nonzero page g), g.address)
        (inl (
          new_space s owner page (alloc_page s.pmm).1 i
            (subst (λ a. Granted s.pmm page 1 (a, (alloc_page s.pmm).1)) g.address g)))
]
  where
    nonzero : (page : ℕ) → Granted s.pmm page 1 (alloc_page s.pmm) → (alloc_page s.pmm).0 ≢ 0
    nonzero page g = λ e. omega (arith, g.nonzero, g.address)
