-- ===== src/Vmm/Walk.antt =====
-- What the page tables say: the walk through the levels as a recursion, and `vmm_translate` by it.
use operatingsystem.Common.{ℕ, zero, suc, ◌+◌, ◌/◌, ◌%◌, ◌^◌, ◌≡◌, refl, sym, ap, ◌∙◌}
use operatingsystem.Common.{bit_or, and-ones, not, Bool-cases, inl, inr, ◌==◌, if◌then◌else◌}
use operatingsystem.Vmm.{Vmm, is_present, is_huge, address_of, entry_at, split_vaddr, translate}
use operatingsystem.Vmm.Entry.{in_page}

-- The index of an address in a table of level 4, 3, 2 or 1.
abbrev pub index : ℕ → ℕ → ℕ
index zero v = 0
index (suc zero) v = v / 2 ^ 12 % 512
index (suc (suc zero)) v = v / 2 ^ 21 % 512
index (suc (suc (suc zero))) v = v / 2 ^ 30 % 512
index (suc (suc (suc (suc level)))) v = v / 2 ^ 39 % 512

-- Nothing, a huge page at a level above 1, or the entry of a page.
pub data Mapping : Type 0 where
  absent : Mapping
  large : ℕ → ℕ → Mapping
  page : ℕ → Mapping

-- The entry of a table of this level for `v`.
abbrev pub slot : ℕ → ℕ → ℕ → ℕ
slot level table v = entry_at table (index level v)

-- The walk from a table of level `suc left` on.
pub walk : ℕ → ℕ → ℕ → (ℕ → ℕ) → Mapping
walk zero table v memory =
    let e = memory (slot 1 table v) in if is_present e then page e else absent
walk (suc left) table v memory =
    let e = memory (slot (suc (suc left)) table v) in
    let rest = walk left (address_of e) v memory in
    if not (is_present e) then absent else if is_huge e then large (suc (suc left)) e else rest

-- The physical address, 0 for none.
abbrev pub target : ℕ → Mapping → ℕ
target v absent = 0
target v (large level e) =
    if level == 3
    then bit_or (address_of e) (v % 2 ^ 30)
    else if level == 2
    then bit_or (address_of e) (v % 2 ^ 21)
    else 0
target v (page e) = address_of e + v % 4096

pub split_vaddr_lem :
    (v : ℕ)
    → split_vaddr v
      ≡ record { pml4_i = index 4 v; pdpt_i = index 3 v; pd_i = index 2 v; pt_i = index 1 v }
unfolding split_vaddr
split_vaddr_lem v =
    rw
      (
        and-ones 9 (v / 2 ^ 39),
        and-ones 9 (v / 2 ^ 30),
        and-ones 9 (v / 2 ^ 21),
        and-ones 9 (v / 2 ^ 12),
      )
      refl

pub walk-zero :
    (table v : ℕ) (memory : ℕ → ℕ)
    → walk 0 table v memory
      ≡ (let e = memory (slot 1 table v) in if is_present e then page e else absent)
unfolding walk
walk-zero table v memory = refl

pub walk-suc :
    (left table v : ℕ) (memory : ℕ → ℕ)
    → walk (suc left) table v memory ≡ (
        let e = memory (slot (suc (suc left)) table v) in
        if not (is_present e)
        then absent
        else if is_huge e
        then large (suc (suc left)) e
        else walk left (address_of e) v memory)
unfolding walk
walk-suc left table v memory = refl

rung :
    (level e v t big : ℕ) (w : Mapping)
    → target v (large level e) ≡ big
    → t ≡ target v w
    → (if not (is_present e) then 0 else if is_huge e then big else t)
      ≡ target v (if not (is_present e) then absent else if is_huge e then large level e else w)
rung level e v t big w h k = elim (Bool-cases (is_present e)) [
  | inl present ↦
      rw present
        (elim (Bool-cases (is_huge e)) [ inl huge ↦ rw huge (sym h) | inr table ↦ rw table k ])
  | inr not_present ↦ rw not_present refl
]

last_rung :
    (e v : ℕ)
    → (if not (is_present e) then 0 else address_of e + v % 4096)
      ≡ target v (if is_present e then page e else absent)
last_rung e v = elim (Bool-cases (is_present e)) [
  | inl present ↦ rw present refl
  | inr not_present ↦ rw not_present refl
]

-- `vmm_translate` gives the target of the walk from the root.
pub translate_lem :
    (pml4_phys v : ℕ) (s : Vmm) → translate pml4_phys v s ≡ target v (walk 3 pml4_phys v s.memory)
unfolding translate
translate_lem pml4_phys v s =
    let e1 = s.memory (slot 4 pml4_phys v) in
    let e2 = s.memory (slot 3 (address_of e1) v) in
    let e3 = s.memory (slot 2 (address_of e2) v) in
    let e4 = s.memory (slot 1 (address_of e3) v) in
    rw (split_vaddr_lem v, in_page, and-ones 30 v, and-ones 21 v)
      (rung 4 e1 v _ 0 (walk 2 (address_of e1) v s.memory) refl (
          rung 3 e2 v _ _ (walk 1 (address_of e2) v s.memory) refl (
            rung 2 e3 v _ _ (walk 0 (address_of e3) v s.memory) refl
              (last_rung e4 v ∙ ap (target v) (sym (walk-zero (address_of e3) v s.memory)))
            ∙ ap (target v) (sym (walk-suc 0 (address_of e2) v s.memory)))
          ∙ ap (target v) (sym (walk-suc 1 (address_of e1) v s.memory)))
        ∙ ap (target v) (sym (walk-suc 2 pml4_phys v s.memory)))
