-- ===== src/Vmm/Keeps.antt =====
-- Memory that the page tables leave alone.
use operatingsystem.Common.{ℕ, ◌+◌, ◌*◌, ◌/◌, ◌<◌, ◌≤◌, ◌≡◌, ◌≢◌, refl, ap, ◌∙◌, arith}
use operatingsystem.Common.{◌⊎◌, inl, inr, none, some, List, true, dec_lt}
use operatingsystem.Pmm.{test_bit}
use operatingsystem.Vmm.{Vmm, entry_at}
use operatingsystem.Vmm.Tree.{Owner, IsTree}

-- Memory in the pages that are taken but no tables stays as it is, and these pages stay so.
pub record Keeps (s : Vmm) (owner : Owner) (s' : Vmm) (owner' : Owner) : Type 0 where
  pub page_kept :
      (a : ℕ)
      → test_bit s.pmm.bitmap (a / 4096) ≡ true
      → owner (a / 4096 * 4096) ≡ none
      → (s'.memory a ≡ s.memory a)
        × (test_bit s'.pmm.bitmap (a / 4096) ≡ true)
        × (owner' (a / 4096 * 4096) ≡ none)

pub Keeps-same : (s : Vmm) (owner : Owner) → Keeps s owner s owner
Keeps-same s owner = record { page_kept = λ a k z. (refl, k, z) }

pub Keeps-trans :
    {s s' s'' : Vmm} {owner owner' owner'' : Owner}
    → Keeps s owner s' owner'
    → Keeps s' owner' s'' owner''
    → Keeps s owner s'' owner''
Keeps-trans k l = record {
  page_kept = λ a t z.
      let first = k.page_kept a t z in
      let second = l.page_kept a first.1 first.2 in (second.0 ∙ first.0, second.1, second.2);
}

-- Such memory is no entry of a table.
pub not_entry :
    {s : Vmm} {owner : Owner} (t i a : ℕ) (path : List ℕ)
    → IsTree s owner
    → owner t ≡ some path
    → i < 512
    → owner (a / 4096 * 4096) ≡ none
    → a ≢ entry_at t i
not_entry {s} {owner} t i a path v o h z = λ e.
    let page : a / 4096 * 4096 ≡ t = omega (arith, v.aligned t path o) in cc (o, z, ap owner page)

-- An address off a page is before or behind its entries.
pub off_page : (page a : ℕ) → a / 4096 ≢ page → (a < page * 4096) ⊎ (page * 4096 + 8 * 512 ≤ a)
off_page page a ne = elim (dec_lt a (page * 4096)) [
  | yes below ↦ inl below
  | no above ↦ inr (omega arith)
]
