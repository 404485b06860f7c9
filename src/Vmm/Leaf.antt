-- ===== src/Vmm/Leaf.antt =====
-- A write to an entry of the lowest level, and which walks it changes.
use operatingsystem.Common.{ℕ, zero, suc, ◌/◌, ◌%◌, ◌^◌, ◌<◌, ◌≡◌, ◌≢◌, refl, sym, ap, ◌∙◌, arith}
use operatingsystem.Common.{inl, inr, some, List, [], ◌∷◌, length, write, ℕ_discrete}
use operatingsystem.Common.{if◌then◌else◌}
use operatingsystem.Vmm.{Vmm, is_present, is_huge, entry_at}
use operatingsystem.Vmm.Walk.{absent, page, index, slot, walk, walk-zero, walk-suc}
use operatingsystem.Vmm.Tree.{Owner, IsTree, Leads, Leads-ext, entry_at-ne, index-lt, through}
use operatingsystem.Vmm.Enter.{write-here, write-there}

-- The number of the page that an address lies in: the four indices.
abbrev pub page_number : ℕ → ℕ
page_number v = v / 2 ^ 12 % 2 ^ 36

-- The indices that a walk for `v` has used when it comes to a table with `left` levels below it.
abbrev pub path_to : ℕ → ℕ → List ℕ
path_to (suc (suc (suc left))) v = []
path_to (suc (suc zero)) v = index 4 v ∷ []
path_to (suc zero) v = index 3 v ∷ index 4 v ∷ []
path_to zero v = index 2 v ∷ index 3 v ∷ index 4 v ∷ []

pub path_to-short : (left v : ℕ) → length (path_to (suc left) v) < 3
path_to-short zero v = omega arith
path_to-short (suc zero) v = omega arith
path_to-short (suc (suc left)) v = omega arith

pub path_to-step :
    (left v : ℕ) → left < 3 → index (suc (suc left)) v ∷ path_to (suc left) v ≡ path_to left v
path_to-step zero v h = refl
path_to-step (suc zero) v h = refl
path_to-step (suc (suc zero)) v h = refl
path_to-step (suc (suc (suc left))) v h = absurd (omega arith)

same_page :
    (v w : ℕ) → path_to 0 w ≡ path_to 0 v → index 1 w ≡ index 1 v → page_number w ≡ page_number v
same_page v w e e1 = omega (arith, heads)
  where
    heads : (index 2 w ≡ index 2 v) × (index 3 w ≡ index 3 v) × (index 4 w ≡ index 4 v)
    heads = (cc, cc, cc)

module _ (s : Vmm) (owner : Owner) (t v e : ℕ) (i : IsTree s owner)
    (o : owner t ≡ some (path_to 0 v)) where
  abbrev written : ℕ → ℕ
  written = write s.memory (slot 1 t v) e

  written-other :
      (x : ℕ) (q : List ℕ) (j : ℕ)
      → owner x ≡ some q
      → length q < 3
      → j < 512
      → written (entry_at x j) ≡ s.memory (entry_at x j)
  written-other x q j ox lx hx = write-there s.memory (slot 1 t v) e (entry_at x j) (
      entry_at-ne t x (index 1 v) j (i.aligned t _ o).0 (i.aligned x q ox).0 (index-lt 1 v) hx
        (inl apart))
    where
      same_path : x ≡ t → q ≡ path_to 0 v
      same_path k = cc (ap owner k)

      apart : x ≢ t
      apart = λ k. absurd (omega (arith, ap length (same_path k)))

  pub leaf-IsTree : IsTree (record s { memory = written }) owner
  leaf-IsTree = record {
    valid = i.valid;
    small = i.small;
    aligned = i.aligned;
    taken = i.taken;
    child = λ x q j ox lx hx px nx.
        let kept = written-other x q j ox lx hx in
        rw kept
          (i.child x q j ox lx hx (ap is_present (sym kept) ∙ px) (ap is_huge (sym kept) ∙ nx));
  }

  pub leaf-Leads :
      {x j t' : ℕ} (q : List ℕ)
      → owner x ≡ some q
      → length q < 3
      → j < 512
      → Leads s.memory x j t'
      → Leads written x j t'
  leaf-Leads q ox lx hx k = Leads-ext (written-other _ q _ ox lx hx) k

  pub leaf-here : walk 0 t v written ≡ (if is_present e then page e else absent)
  leaf-here = walk-zero t v written ∙ rw (write-here s.memory (slot 1 t v) e) refl

  leaf-slot :
      (x w : ℕ)
      → owner x ≡ some (path_to 0 w)
      → page_number w ≢ page_number v
      → written (slot 1 x w) ≡ s.memory (slot 1 x w)
  leaf-slot x w ox ne = write-there s.memory (slot 1 t v) e (slot 1 x w) (
      entry_at-ne t x (index 1 v) (index 1 w) (i.aligned t _ o).0 (i.aligned x _ ox).0
        (index-lt 1 v) (index-lt 1 w)
        (elim (ℕ_discrete x t) [
          | yes k ↦ inr (λ e1. ne (same_page v w (same_path k) e1))
          | no k ↦ inl k
        ]))
    where
      same_path : x ≡ t → path_to 0 w ≡ path_to 0 v
      same_path k = cc (ap owner k)

  -- A walk for another page stays as it is, in whatever address space.
  leaf-walk0 :
      (x w : ℕ)
      → owner x ≡ some (path_to 0 w)
      → page_number w ≢ page_number v
      → walk 0 x w written ≡ walk 0 x w s.memory
  leaf-walk0 x w ox ne =
      rw (walk-zero x w written, walk-zero x w s.memory, leaf-slot x w ox ne) refl

  leaf-walk-suc :
      (left x w : ℕ)
      → left < 3
      → owner x ≡ some (path_to (suc left) w)
      → ((y : ℕ) → owner y ≡ some (path_to left w) → walk left y w written ≡ walk left y w s.memory)
      → walk (suc left) x w written ≡ walk (suc left) x w s.memory
  leaf-walk-suc left x w h ox next =
      let j = index (suc (suc left)) w in
      let short : length (path_to (suc left) w) < 3 = path_to-short left w in
      rw
        (
          walk-suc left x w written,
          walk-suc left x w s.memory,
          written-other x _ j ox short (index-lt (suc (suc left)) w),
        )
        (through (suc (suc left)) (s.memory (entry_at x j)) _ _ (λ p nh. next _ (
          i.child x _ j ox short (index-lt (suc (suc left)) w) p nh
          ∙ ap some (path_to-step left w h))))

  pub leaf-others :
      (x w : ℕ)
      → owner x ≡ some []
      → page_number w ≢ page_number v
      → walk 3 x w written ≡ walk 3 x w s.memory
  leaf-others x w ox ne = leaf-walk-suc 2 x w (omega arith) ox (λ x2 o2.
      leaf-walk-suc 1 x2 w (omega arith) o2
        (λ x1 o1. leaf-walk-suc 0 x1 w (omega arith) o1 (λ x0 o0. leaf-walk0 x0 w o0 ne)))
