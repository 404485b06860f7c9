-- ===== src/Vmm/Enter.antt =====
-- `get_or_create_table`: one step down the levels, which makes the next table where there is none.
use operatingsystem.Common.{ℕ, ◌*◌, ◌/◌, ◌%◌, ◌<◌, ◌≡◌, ◌≢◌, refl, sym, ap, ◌∙◌, arith}
use operatingsystem.Common.{◌⊎◌, inl, inr, some, List, ◌∷◌, length, write, write_lem}
use operatingsystem.Common.{true, false, ==_refl, ==-eq-false, ℕ_discrete}
use operatingsystem.Pmm.{test_bit}
use operatingsystem.Vmm.{Vmm, is_present, is_huge, address_of, entry_at}
use operatingsystem.Vmm.Tree.{
  Owner, IsTree, same, same_table, SameWalks, AlikeAbove, same_walks, entry_at-ne,
}
use operatingsystem.Vmm.Keeps.{Keeps, not_entry}

-- The state after a step from the table `t` through its entry `i` to the table `t'`.
pub record Entered (s : Vmm) (owner : Owner) (t i : ℕ) (path : List ℕ) (t' : ℕ) (s' : Vmm)
    : Type 0 where
  pub owner' : Owner
  pub tree : IsTree s' owner'
  pub grows : (x : ℕ) (p : List ℕ) → owner x ≡ some p → owner' x ≡ some p
  pub child : owner' t' ≡ some (i ∷ path)
  pub present : is_present (s'.memory (entry_at t i)) ≡ true
  pub no_huge : is_huge (s'.memory (entry_at t i)) ≡ false
  pub leads : address_of (s'.memory (entry_at t i)) ≡ t'
  pub upper : AlikeAbove owner s.memory s'.memory
  pub walks : SameWalks owner s.memory s'.memory
  pub keeps : Keeps s owner s' owner'
  pub same_cr3 : s'.cr3 ≡ s.cr3
  pub same_flushed : s'.flushed ≡ s.flushed

-- A page that was free is none of the tables.
pub fresh-ne :
    {s : Vmm} {owner : Owner} (page x : ℕ) (p : List ℕ)
    → IsTree s owner
    → test_bit s.pmm.bitmap page ≡ false
    → owner x ≡ some p
    → x ≢ page * 4096
fresh-ne {s} {owner} page x p i free o = λ e.
    let number : x / 4096 ≡ page = omega arith in
    cc (i.taken x p o, ap (test_bit s.pmm.bitmap) number)

-- An entry of a table is the one written, or lies elsewhere.
pub where_written :
    (t x i j : ℕ)
    → t % 4096 ≡ 0
    → x % 4096 ≡ 0
    → i < 512
    → j < 512
    → ((x ≡ t) × (j ≡ i)) ⊎ (entry_at x j ≢ entry_at t i)
where_written t x i j a b h k = elim (ℕ_discrete x t) [
  | yes e ↦ elim (ℕ_discrete j i) [
    | yes e' ↦ inl (e, e')
    | no ne ↦ inr (entry_at-ne t x i j a b h k (inr ne))
  ]
  | no ne ↦ inr (entry_at-ne t x i j a b h k (inl ne))
]

pub write-here : (memory : ℕ → ℕ) (a v : ℕ) → write memory a v a ≡ v
write-here memory a v = write_lem memory a v a ∙ rw (==_refl a) refl

pub write-there : (memory : ℕ → ℕ) (a v b : ℕ) → b ≢ a → write memory a v b ≡ memory b
write-there memory a v b ne = write_lem memory a v b ∙ rw (==-eq-false ne) refl

-- The entry is there already, and gets the user flag or stays as it is.
pub Entered-there :
    (s : Vmm) (owner : Owner) (t i : ℕ) (path : List ℕ) (e : ℕ)
    → IsTree s owner
    → owner t ≡ some path
    → length path < 3
    → i < 512
    → is_present (s.memory (entry_at t i)) ≡ true
    → is_huge (s.memory (entry_at t i)) ≡ false
    → is_present e ≡ true
    → is_huge e ≡ false
    → address_of e ≡ address_of (s.memory (entry_at t i))
    → Entered s owner t i path
        (address_of e)
        (record s { memory = write s.memory (entry_at t i) e })
Entered-there s owner t i path e v o l h p nh p' nh' a = record {
  owner' = owner;
  tree = record {
    valid = v.valid;
    small = v.small;
    aligned = v.aligned;
    taken = v.taken;
    child = λ x q j ox lx hx px nx. elim (place x q j ox hx) [
      | inl (ex, ej) ↦
          rw (ex, ej, here, a)
            (v.child t path i o l h p nh ∙ ap (λ r. some (i ∷ r)) (same_path x q ex ox))
      | inr ne ↦ rw (there _ ne) (
          v.child x q j ox lx hx (ap is_present (sym (there _ ne)) ∙ px)
            (ap is_huge (sym (there _ ne)) ∙ nx))
    ];
  };
  grows = λ x q k. k;
  child = rw a (v.child t path i o l h p nh);
  present = rw here p';
  no_huge = rw here nh';
  leads = ap address_of here;
  upper = alike;
  walks = same_walks s owner memory' v alike (λ x q j ox lx hx. elim (place x q j ox hx) [
    | inl (ex, ej) ↦ absurd (omega (arith, ap length (same_path x q ex ox)))
    | inr ne ↦ there _ ne
  ]);
  keeps = record { page_kept = λ a k z. (there a (not_entry t i a path v o h z), k, z) };
  same_cr3 = refl;
  same_flushed = refl;
}
  where
    memory' : ℕ → ℕ
    memory' = write s.memory (entry_at t i) e

    here : write s.memory (entry_at t i) e (entry_at t i) ≡ e
    here = write-here s.memory (entry_at t i) e

    there : (b : ℕ) → b ≢ entry_at t i → write s.memory (entry_at t i) e b ≡ s.memory b
    there b ne = write-there s.memory (entry_at t i) e b ne

    place :
        (x : ℕ) (q : List ℕ) (j : ℕ)
        → owner x ≡ some q
        → j < 512
        → ((x ≡ t) × (j ≡ i)) ⊎ (entry_at x j ≢ entry_at t i)
    place x q j ox hx = where_written t x i j (v.aligned t path o).0 (v.aligned x q ox).0 h hx

    same_path : (x : ℕ) (q : List ℕ) → x ≡ t → owner x ≡ some q → path ≡ q
    same_path x q ex ox = cc (ap owner ex)

    alike : AlikeAbove owner s.memory (write s.memory (entry_at t i) e)
    alike x q j ox lx hx = elim (place x q j ox hx) [
      | inl (ex, ej) ↦
          rw (ex, ej)
            (same_table nh (ap is_huge here ∙ nh') (ap is_present here ∙ p' ∙ sym p)
              (ap address_of here ∙ a))
      | inr ne ↦ same (there _ ne)
    ]
