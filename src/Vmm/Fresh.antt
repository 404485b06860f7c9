-- ===== src/Vmm/Fresh.antt =====
-- `get_or_create_table` where there is no entry: a page becomes the new table.
use operatingsystem.Common.{ℕ, ◌+◌, ◌*◌, ◌/◌, ◌%◌, ◌≤◌, ◌<◌, ◌≡◌, ◌≢◌, refl, sym, ap, ◌∙◌, arith}
use operatingsystem.Common.{◌⊎◌, inl, inr, none, some, List, ◌∷◌, length, write, write_lem}
use operatingsystem.Common.{true, false, ==_refl, ==-eq-false, ℕ_discrete, dec_lt}
use operatingsystem.Pmm.{Pmm, test_bit}
use operatingsystem.Pmm.Alloc.{Granted}
use operatingsystem.Vmm.{Vmm, is_present, is_huge, address_of, entry_at, zero_entries}
use operatingsystem.Vmm.Tree.{
  Owner, IsTree, same, empty_table, AlikeAbove, same_walks, entry_at-ne, zero_entries_inside,
  zero_entries_outside,
}
use operatingsystem.Vmm.Keeps.{not_entry, off_page}
use operatingsystem.Vmm.Enter.{Entered, fresh-ne, write-here, write-there, where_written}

-- There is no entry: a page is taken, cleared and entered.
module _ (s : Vmm) (owner : Owner) (t i : ℕ) (path : List ℕ) (e page : ℕ) (pmm : Pmm)
    (v : IsTree s owner) (o : owner t ≡ some path) (l : length path < 3) (h : i < 512)
    (no_entry : is_present (s.memory (entry_at t i)) ≡ false)
    (g : Granted s.pmm page 1 (page * 4096, pmm)) (p : is_present e ≡ true) (nh : is_huge e ≡ false)
    (a : address_of e ≡ page * 4096) where
  cleared : ℕ → ℕ
  cleared = write (zero_entries 512 (page * 4096) s.memory) (entry_at t i) e

  grown : Owner
  grown = write owner (page * 4096) (some (i ∷ path))

  free : test_bit s.pmm.bitmap page ≡ false
  free = g.was_free page (omega arith) (omega arith)

  other_page : (x : ℕ) (q : List ℕ) → owner x ≡ some q → x ≢ page * 4096
  other_page x q ox = fresh-ne page x q v free ox

  grown-other : (x : ℕ) → x ≢ page * 4096 → grown x ≡ owner x
  unfolding grown
  grown-other x ne = write_lem owner (page * 4096) (some (i ∷ path)) x ∙ rw (==-eq-false ne) refl

  grown-new : grown (page * 4096) ≡ some (i ∷ path)
  unfolding grown
  grown-new =
      write_lem owner (page * 4096) (some (i ∷ path)) (page * 4096)
      ∙ rw (==_refl (page * 4096)) refl

  -- Entries of the tables from before, but for the one written.
  cleared-other :
      (x : ℕ) (q : List ℕ) (j : ℕ)
      → owner x ≡ some q
      → j < 512
      → entry_at x j ≢ entry_at t i
      → cleared (entry_at x j) ≡ s.memory (entry_at x j)
  unfolding cleared
  cleared-other x q j ox hx ne =
      write-there _ (entry_at t i) e (entry_at x j) ne
      ∙ zero_entries_outside 512 (page * 4096) s.memory (entry_at x j)
          (apart (other_page x q ox) (v.aligned x q ox).0)
    where
      apart :
          x ≢ page * 4096
          → x % 4096 ≡ 0
          → (entry_at x j < page * 4096) ⊎ (page * 4096 + 8 * 512 ≤ entry_at x j)
      apart ne al = elim (dec_lt (entry_at x j) (page * 4096)) [
        | yes below ↦ inl below
        | no above ↦ inr (omega arith)
      ]

  cleared-here : cleared (entry_at t i) ≡ e
  unfolding cleared
  cleared-here = write-here _ (entry_at t i) e

  cleared-new : (j : ℕ) → j < 512 → cleared (entry_at (page * 4096) j) ≡ 0
  unfolding cleared
  cleared-new j hj =
      write-there _ (entry_at t i) e (entry_at (page * 4096) j) (
        entry_at-ne t (page * 4096) i j (v.aligned t path o).0 (omega arith) h hj
          (inl (λ k. other_page t path o (sym k))))
      ∙ zero_entries_inside 512 (page * 4096) s.memory j hj

  taken_still : (q : ℕ) → test_bit s.pmm.bitmap q ≡ true → test_bit pmm.bitmap q ≡ true
  taken_still q k = g.after q ∙ ground arith

  taken_new : test_bit pmm.bitmap page ≡ true
  taken_new = g.after page ∙ ground arith

  place :
      (x : ℕ) (q : List ℕ) (j : ℕ)
      → owner x ≡ some q
      → j < 512
      → ((x ≡ t) × (j ≡ i)) ⊎ (entry_at x j ≢ entry_at t i)
  place x q j ox hx = where_written t x i j (v.aligned t path o).0 (v.aligned x q ox).0 h hx

  grown-cases :
      (x : ℕ) (q : List ℕ)
      → grown x ≡ some q
      → ((x ≡ page * 4096) × (i ∷ path ≡ q)) ⊎ (owner x ≡ some q)
  grown-cases x q gx = elim (ℕ_discrete x (page * 4096)) [
    | yes ex ↦ inl (ex, cc (grown-new, ap grown ex))
    | no ne ↦ inr (sym (grown-other x ne) ∙ gx)
  ]

  grown-grows : (x : ℕ) (q : List ℕ) → owner x ≡ some q → grown x ≡ some q
  grown-grows x q ox = grown-other x (other_page x q ox) ∙ ox

  same_path : (x : ℕ) (q : List ℕ) → x ≡ t → owner x ≡ some q → path ≡ q
  same_path x q ex ox = cc (ap owner ex)

  fresh-IsTree : IsTree (record s { pmm = pmm; memory = cleared }) grown
  fresh-IsTree = record {
    valid = g.valid;
    small = omega (arith, v.small, g.same_total);
    aligned = λ x q gx. elim (grown-cases x q gx) [
      | inl (ex, eq) ↦ omega (arith, g.nonzero)
      | inr ox ↦ v.aligned x q ox
    ];
    taken = λ x q gx. elim (grown-cases x q gx) [
      | inl (ex, eq) ↦ ap (test_bit pmm.bitmap) (omega arith) ∙ taken_new
      | inr ox ↦ taken_still (x / 4096) (v.taken x q ox)
    ];
    child = λ x q j gx lx hx px nx. elim (grown-cases x q gx) [
      | inl (ex, eq) ↦
          let nothing : is_present (cleared (entry_at x j)) ≡ false =
            rw ex (ap is_present (cleared-new j hx)) in
          cc
      | inr ox ↦ elim (place x q j ox hx) [
        | inl (ex, ej) ↦
            rw (ex, ej, cleared-here, a) (grown-new ∙ ap (λ r. some (i ∷ r)) (same_path x q ex ox))
        | inr ne ↦
            let kept = cleared-other x q j ox hx ne in
            rw kept (
              grown-grows _ _ (
                v.child x q j ox lx hx (ap is_present (sym kept) ∙ px)
                  (ap is_huge (sym kept) ∙ nx)))
      ]
    ];
  }

  cleared-alike : AlikeAbove owner s.memory cleared
  cleared-alike x q j ox lx hx = elim (place x q j ox hx) [
    | inl (ex, ej) ↦
        rw (ex, ej, cleared-here) (empty_table no_entry p nh (λ k hk. rw a (cleared-new k hk)))
    | inr ne ↦ same (cleared-other x q j ox hx ne)
  ]

  page-ne : (a : ℕ) → test_bit s.pmm.bitmap (a / 4096) ≡ true → a / 4096 ≢ page
  page-ne a k = λ q. cc (free, k, ap (test_bit s.pmm.bitmap) q)

  cleared-elsewhere :
      (a : ℕ)
      → test_bit s.pmm.bitmap (a / 4096) ≡ true
      → owner (a / 4096 * 4096) ≡ none
      → cleared a ≡ s.memory a
  unfolding cleared
  cleared-elsewhere a k z =
      write-there _ (entry_at t i) e a (not_entry t i a path v o h z)
      ∙ zero_entries_outside 512 (page * 4096) s.memory a (off_page page a (page-ne a k))

  fresh-Entered : Entered s owner t i path (page * 4096) (record s { pmm = pmm; memory = cleared })
  fresh-Entered = record {
    owner' = grown;
    tree = fresh-IsTree;
    grows = grown-grows;
    child = grown-new;
    present = ap is_present cleared-here ∙ p;
    no_huge = ap is_huge cleared-here ∙ nh;
    leads = ap address_of cleared-here ∙ a;
    upper = cleared-alike;
    walks = same_walks s owner cleared v cleared-alike (λ x q j ox lx hx. elim (place x q j ox hx) [
      | inl (ex, ej) ↦ absurd (omega (arith, ap length (same_path x q ex ox)))
      | inr ne ↦ cleared-other x q j ox hx ne
    ]);
    keeps = record {
      page_kept = λ a k z. (
        cleared-elsewhere a k z,
        taken_still (a / 4096) k,
        grown-other (a / 4096 * 4096) (λ q. page-ne a k (omega arith)) ∙ z,
      );
    };
    same_cr3 = refl;
    same_flushed = refl;
  }

  pub Entered-fresh : Entered s owner t i path (page * 4096) (record s {
    pmm = pmm;
    memory = write (zero_entries 512 (page * 4096) s.memory) (entry_at t i) e;
  })
  unfolding cleared
  Entered-fresh = fresh-Entered
