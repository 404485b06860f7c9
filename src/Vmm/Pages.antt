-- ===== src/Vmm/Pages.antt =====
-- How many pages the operations on the tables take.
use operatingsystem.Common.{ℕ, ◌+◌, ◌≡◌, refl, ◌∙◌, arith}
use operatingsystem.Common.{inl, inr, bit_and, not, ◌==◌, Bool-cases, write}
use operatingsystem.Pmm.{alloc_page}
use operatingsystem.Pmm.Valid.{IsValid}
use operatingsystem.Pmm.Spent.{Spent, Spent-none, Spent-trans, Spent-le, alloc_page-Spent}
use operatingsystem.Vmm.{
  Vmm, is_present, is_huge, entry_at, get_or_create_table, create_address_space, map_page,
}
use operatingsystem.Vmm.Walk.{index, slot}
use operatingsystem.Vmm.Map.{next_level, page_entry, map_page-eq}

pub get_or_create_table-Spent :
    (table i flags : ℕ) (s : Vmm)
    → IsValid s.pmm
    → Spent 1 s.pmm (get_or_create_table table i flags s).1.pmm
unfolding get_or_create_table
get_or_create_table-Spent table i flags s v =
    elim (Bool-cases (is_present (s.memory (entry_at table i)))) [
      | inr none_there ↦ rw none_there (elim (Bool-cases ((alloc_page s.pmm).0 == 0)) [
        | inl full ↦ rw full (alloc_page-Spent v)
        | inr found ↦ rw found (alloc_page-Spent v)
      ])
      | inl there ↦ rw there (elim (Bool-cases (is_huge (s.memory (entry_at table i)))) [
        | inl big ↦ rw big (Spent-none 1 v)
        | inr next ↦ rw next (elim (Bool-cases (not (bit_and flags 4 == 0))) [
          | inl user ↦ rw user (Spent-none 1 v)
          | inr kernel ↦ rw kernel (Spent-none 1 v)
        ])
      ])
    ]

pub create_address_space-Spent :
    (s : Vmm) → IsValid s.pmm → Spent 1 s.pmm (create_address_space s).1.pmm
unfolding create_address_space
create_address_space-Spent s v = elim (Bool-cases ((alloc_page s.pmm).0 == 0)) [
  | inl full ↦ rw full (alloc_page-Spent v)
  | inr found ↦ rw found (alloc_page-Spent v)
]

get_or_create_table-cr3 :
    (table i flags : ℕ) (s : Vmm) → (get_or_create_table table i flags s).1.cr3 ≡ s.cr3
unfolding get_or_create_table
get_or_create_table-cr3 table i flags s = ground arith

-- Over states with their tables, the root that is loaded staying the same.
pub record Takes (n : ℕ) (s s' : Vmm) : Type 0 where
  pub spent : Spent n s.pmm s'.pmm
  pub same_cr3 : s'.cr3 ≡ s.cr3

-- One level down, with what is done after it.
next_level-Takes :
    (table i flags : ℕ) (s : Vmm) {n : ℕ} (then_do : ℕ → Vmm → Vmm)
    → IsValid s.pmm
    → ((t : ℕ) (s' : Vmm) → IsValid s'.pmm → Takes n s' (then_do t s'))
    → Takes (1 + n) s (next_level (get_or_create_table table i flags s) then_do)
next_level-Takes table i flags s {n} then_do v rest =
    let r = get_or_create_table table i flags s in
    let one = get_or_create_table-Spent table i flags s v in
    let cr3 = get_or_create_table-cr3 table i flags s in
    elim (Bool-cases (r.0 == 0)) [
      | inl failed ↦ rw failed (record { spent = Spent-le (omega arith) one; same_cr3 = cr3 })
      | inr found ↦
          let others = rest r.0 r.1 one.valid in
          rw found
            (record { spent = Spent-trans one others.spent; same_cr3 = others.same_cr3 ∙ cr3 })
    ]

-- What `vmm_map_page` does from each level on.
abbrev from_pt : ℕ → ℕ → ℕ → Vmm → Vmm
from_pt v e pt s = record s { memory = write s.memory (slot 1 pt v) e }

abbrev from_pd : ℕ → ℕ → ℕ → ℕ → Vmm → Vmm
from_pd v f e pd s = next_level (get_or_create_table pd (index 2 v) f s) (from_pt v e)

abbrev from_pdpt : ℕ → ℕ → ℕ → ℕ → Vmm → Vmm
from_pdpt v f e pdpt s = next_level (get_or_create_table pdpt (index 3 v) f s) (from_pd v f e)

-- `vmm_map_page` takes three pages at most.
pub map_page-Takes :
    (root v phys_addr flags : ℕ) (s : Vmm)
    → IsValid s.pmm
    → Takes 3 s (map_page root v phys_addr flags s)
map_page-Takes root v phys_addr flags s i =
    let f = bit_and flags 4 in
    let e = page_entry phys_addr flags in
    rw (map_page-eq root v phys_addr flags s) (
      next_level-Takes root (index 4 v) f s (from_pdpt v f e) i (λ pdpt s1 i1.
        next_level-Takes pdpt (index 3 v) f s1 (from_pd v f e) i1 (λ pd s2 i2.
          next_level-Takes pd (index 2 v) f s2 (from_pt v e) i2
            (λ pt s3 i3. record { spent = Spent-none 0 i3; same_cr3 = refl }))))
