-- ===== src/Vmm/Down.antt =====
-- Steps down the levels in a row, from the root to the table that holds the entry of an address.
use operatingsystem.Common.{ℕ, suc, ◌<◌, ◌≡◌, refl, sym, ap, ◌∙◌}
use operatingsystem.Common.{◌⊎◌, inl, inr, some, List, [], length}
use operatingsystem.Common.{true}
use operatingsystem.Pmm.{test_bit}
use operatingsystem.Vmm.{Vmm, entry_at}
use operatingsystem.Vmm.Walk.{large, index, walk, walk-suc}
use operatingsystem.Vmm.Tree.{Owner, IsTree, Leads, Leads-Alike, walk-Leads, SameWalks, index-lt}
use operatingsystem.Vmm.Keeps.{Keeps, Keeps-same, Keeps-trans}
use operatingsystem.Vmm.Enter.{Entered}
use operatingsystem.Vmm.Step.{Blocked, huge, full}
use operatingsystem.Vmm.Leaf.{path_to, path_to-short, path_to-step}

-- What leads on from a table still does.
abbrev pub KeepsLeads : Owner → (ℕ → ℕ) → (ℕ → ℕ) → Type 0
KeepsLeads owner memory memory' =
    (x : ℕ) (q : List ℕ) (j t' : ℕ)
    → owner x ≡ some q
    → length q < 3
    → j < 512
    → Leads memory x j t'
    → Leads memory' x j t'

-- From `s` to `s1` steps have led from the root to the table `t`, `left` levels above the lowest.
pub record Down (s : Vmm) (owner : Owner) (root v left t : ℕ) (s1 : Vmm) : Type 0 where
  pub owner1 : Owner
  pub tree : IsTree s1 owner1
  pub grows : (x : ℕ) (q : List ℕ) → owner x ≡ some q → owner1 x ≡ some q
  pub at : owner1 t ≡ some (path_to left v)
  pub route :
      (memory' : ℕ → ℕ)
      → KeepsLeads owner1 s1.memory memory'
      → walk 3 root v memory' ≡ walk left t v memory'
  pub walks : SameWalks owner s.memory s1.memory
  pub keeps : Keeps s owner s1 owner1
  pub same_cr3 : s1.cr3 ≡ s.cr3
  pub same_flushed : s1.flushed ≡ s.flushed

pub Down-start :
    (s : Vmm) (owner : Owner) (root v : ℕ)
    → IsTree s owner
    → owner root ≡ some []
    → Down s owner root v 3 root s
Down-start s owner root v i o = record {
  owner1 = owner;
  tree = i;
  grows = λ x q k. k;
  at = o;
  route = λ m k. refl;
  walks = λ left x q w ox lx. refl;
  keeps = Keeps-same s owner;
  same_cr3 = refl;
  same_flushed = refl;
}

pub Down-Entered :
    {s : Vmm} {owner : Owner} {root v left t t' : ℕ} {s1 s2 : Vmm}
    → left < 3
    → (d : Down s owner root v (suc left) t s1)
    → Entered s1 d.owner1 t (index (suc (suc left)) v) (path_to (suc left) v) t' s2
    → Down s owner root v left t' s2
Down-Entered {s} {owner} {root} {v} {left} {t} {t'} {s1} {s2} h d e = record {
  owner1 = e.owner';
  tree = e.tree;
  grows = λ x q k. e.grows x q (d.grows x q k);
  at = e.child ∙ ap some (path_to-step left v h);
  route = λ m k.
      d.route m (λ x q j y ox lx hx l.
        k x q j y (e.grows x q ox) lx hx (Leads-Alike (e.upper x q j ox lx hx) l))
      ∙ walk-Leads left t t' v (
          k t (path_to (suc left) v) _ t' (e.grows t _ d.at) (path_to-short left v)
            (index-lt (suc (suc left)) v)
            (record { present = e.present; no_huge = e.no_huge; address = e.leads }));
  walks = λ l x q w ox lx. e.walks l x q w (d.grows x q ox) lx ∙ d.walks l x q w ox lx;
  keeps = Keeps-trans d.keeps e.keeps;
  same_cr3 = e.same_cr3 ∙ d.same_cr3;
  same_flushed = e.same_flushed ∙ d.same_flushed;
}

-- Nothing is mapped: a huge page covers the address, or no page is free.
pub record Failed (s : Vmm) (owner : Owner) (root v : ℕ) (s' : Vmm) : Type 0 where
  pub owner' : Owner
  pub tree : IsTree s' owner'
  pub grows : (x : ℕ) (q : List ℕ) → owner x ≡ some q → owner' x ≡ some q
  pub walks : SameWalks owner s.memory s'.memory
  pub keeps : Keeps s owner s' owner'
  pub reason :
      ((level e : ℕ) × (walk 3 root v s.memory ≡ large level e))
      ⊎ ((q : ℕ) → q < s'.pmm.total_pages → test_bit s'.pmm.bitmap q ≡ true)

pub Down-Blocked :
    {s : Vmm} {owner : Owner} {root v left t : ℕ} {s1 : Vmm}
    → owner root ≡ some []
    → Down s owner root v (suc left) t s1
    → Blocked s1 t (index (suc (suc left)) v)
    → Failed s owner root v s1
Down-Blocked {s} {owner} {root} {v} {left} {t} {s1} o d (huge p h) = record {
  owner' = d.owner1;
  tree = d.tree;
  grows = d.grows;
  walks = d.walks;
  keeps = d.keeps;
  reason = inl (
    suc (suc left),
    s1.memory (entry_at t (index (suc (suc left)) v)),
    sym (d.walks 3 root [] v o refl)
        ∙ d.route s1.memory (λ x q j y ox lx hx l. l)
        ∙ walk-suc left t v s1.memory
        ∙ rw (p, h) refl,
  );
}
Down-Blocked o d (full p all) = record {
  owner' = d.owner1;
  tree = d.tree;
  grows = d.grows;
  walks = d.walks;
  keeps = d.keeps;
  reason = inr all;
}
