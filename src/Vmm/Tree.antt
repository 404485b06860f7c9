-- ===== src/Vmm/Tree.antt =====
-- The invariant of the page tables in memory, and what a changed entry does to the walks.
use operatingsystem.Common.{
  ℕ, zero, suc, ◌+◌, ◌*◌, ◌/◌, ◌%◌, ◌^◌, ◌≤◌, ◌<◌, ◌≡◌, ◌≢◌, refl, ap, ◌∙◌, arith,
}
use operatingsystem.Common.{◌⊎◌, inl, inr, Option, some, List, ◌∷◌, length, write_lem}
use operatingsystem.Common.{true, false, not, if◌then◌else◌, Bool-cases, ℕ_discrete}
use operatingsystem.Pmm.{test_bit}
use operatingsystem.Pmm.Valid.{IsValid}
use operatingsystem.Vmm.{Vmm, is_present, is_huge, address_of, entry_at, zero_entries}
use operatingsystem.Vmm.Walk.{Mapping, absent, large, index, walk, walk-zero, walk-suc}

-- The tables: for the address of a table the indices that lead to it, the last one first, and
-- none for any other address.
abbrev pub Owner : Type 0
Owner = ℕ → Option (List ℕ)

-- Tables are pages that the allocator holds as taken, and an entry above the lowest level that is
-- present and no huge page leads to a table of the next level, and to one under its own index.
pub record IsTree (s : Vmm) (owner : Owner) : Type 0 where
  pub valid : IsValid s.pmm
  pub small : s.pmm.total_pages ≤ 2 ^ 40
  pub aligned : (t : ℕ) (path : List ℕ) → owner t ≡ some path → (t % 4096 ≡ 0) × (0 < t)
  pub taken :
      (t : ℕ) (path : List ℕ) → owner t ≡ some path → test_bit s.pmm.bitmap (t / 4096) ≡ true
  pub child :
      (t : ℕ) (path : List ℕ) (i : ℕ)
      → owner t ≡ some path
      → length path < 3
      → i < 512
      → is_present (s.memory (entry_at t i)) ≡ true
      → is_huge (s.memory (entry_at t i)) ≡ false
      → owner (address_of (s.memory (entry_at t i))) ≡ some (i ∷ path)

pub index-lt : (level v : ℕ) → index level v < 512
index-lt zero v = omega arith
index-lt (suc zero) v = omega arith
index-lt (suc (suc zero)) v = omega arith
index-lt (suc (suc (suc zero))) v = omega arith
index-lt (suc (suc (suc (suc level)))) v = omega arith

pub zero_entries_inside :
    (n table : ℕ) (memory : ℕ → ℕ) (j : ℕ)
    → j < n
    → zero_entries n table memory (entry_at table j) ≡ 0
unfolding zero_entries
zero_entries_inside zero table memory j h = absurd (omega arith)
zero_entries_inside (suc n) table memory j h = ground (
  arith,
  write_lem (zero_entries n table memory) (entry_at table n) 0 (entry_at table j),
  zero_entries_inside n table memory j,
)

pub zero_entries_outside :
    (n table : ℕ) (memory : ℕ → ℕ) (a : ℕ)
    → (a < table) ⊎ (table + 8 * n ≤ a)
    → zero_entries n table memory a ≡ memory a
unfolding zero_entries
zero_entries_outside zero table memory a h = refl
zero_entries_outside (suc n) table memory a h = ground (
  arith,
  write_lem (zero_entries n table memory) (entry_at table n) 0 a,
  zero_entries_outside n table memory a,
)

-- Entries of two different tables, and two entries of one table, do not meet.
pub entry_at-ne :
    (t x i j : ℕ)
    → t % 4096 ≡ 0
    → x % 4096 ≡ 0
    → i < 512
    → j < 512
    → (x ≢ t) ⊎ (j ≢ i)
    → entry_at x j ≢ entry_at t i
entry_at-ne t x i j a b h k (inl ne) = λ e. ne (omega arith)
entry_at-ne t x i j a b h k (inr ne) =
    λ e. elim (ℕ_discrete x t) [ yes same ↦ ne (omega arith) | no other ↦ other (omega arith) ]

-- How an entry of a table above the lowest level may change and leave all the walks as they are.
pub data Alike (memory : ℕ → ℕ) (old new : ℕ) : Type 0 where
  same : new ≡ old → Alike memory old new
  same_table :
      is_huge old ≡ false
      → is_huge new ≡ false
      → is_present new ≡ is_present old
      → address_of new ≡ address_of old
      → Alike memory old new
  empty_table :
      is_present old ≡ false
      → is_present new ≡ true
      → is_huge new ≡ false
      → ((j : ℕ) → j < 512 → memory (entry_at (address_of new) j) ≡ 0)
      → Alike memory old new

not_present_zero : is_present 0 ≡ false
not_present_zero = refl

pub walk-empty :
    (left table v : ℕ) (memory : ℕ → ℕ)
    → ((j : ℕ) → j < 512 → memory (entry_at table j) ≡ 0)
    → walk left table v memory ≡ absent
walk-empty zero table v memory h = rw (walk-zero table v memory, h (index 1 v) (index-lt 1 v)) refl
walk-empty (suc left) table v memory h =
    rw (walk-suc left table v memory, h (index (suc (suc left)) v) (index-lt (suc (suc left)) v))
      refl

-- Two walks that go on alike from an entry.
pub through :
    (level e : ℕ) (w w' : Mapping)
    → (is_present e ≡ true → is_huge e ≡ false → w ≡ w')
    → (if not (is_present e) then absent else if is_huge e then large level e else w)
      ≡ (if not (is_present e) then absent else if is_huge e then large level e else w')
through level e w w' next = elim (Bool-cases (is_present e)) [
  | inl p ↦ rw p (elim (Bool-cases (is_huge e)) [ inl h ↦ rw h refl | inr h ↦ rw h (next p h) ])
  | inr p ↦ rw p refl
]

-- All the walks from the tables stay as they are.
abbrev pub SameWalks : Owner → (ℕ → ℕ) → (ℕ → ℕ) → Type 0
SameWalks owner memory memory' =
    (left t : ℕ) (path : List ℕ) (v : ℕ)
    → owner t ≡ some path
    → length path + left ≡ 3
    → walk left t v memory' ≡ walk left t v memory

-- The entries above the lowest level change in these ways alone.
abbrev pub AlikeAbove : Owner → (ℕ → ℕ) → (ℕ → ℕ) → Type 0
AlikeAbove owner memory memory' =
    (t : ℕ) (path : List ℕ) (j : ℕ)
    → owner t ≡ some path
    → length path < 3
    → j < 512
    → Alike memory' (memory (entry_at t j)) (memory' (entry_at t j))

pub same_walks :
    (s : Vmm) (owner : Owner) (memory' : ℕ → ℕ)
    → IsTree s owner
    → AlikeAbove owner s.memory memory'
    → ((t : ℕ) (path : List ℕ) (j : ℕ)
        → owner t ≡ some path
        → length path ≡ 3
        → j < 512
        → memory' (entry_at t j) ≡ s.memory (entry_at t j))
    → SameWalks owner s.memory memory'
same_walks s owner memory' i upper lowest zero t path v o l =
    rw
      (
        walk-zero t v memory',
        walk-zero t v s.memory,
        lowest t path (index 1 v) o (omega arith) (index-lt 1 v),
      )
      refl
same_walks s owner memory' i upper lowest (suc left) t path v o l =
    let j = index (suc (suc left)) v in
    let old = s.memory (entry_at t j) in
    let next = λ (p : is_present old ≡ true) (h : is_huge old ≡ false).
      same_walks s owner memory' i upper lowest left (address_of old) (j ∷ path) v
        (i.child t path j o (omega arith) (index-lt (suc (suc left)) v) p h) (omega arith) in
    rw (walk-suc left t v memory', walk-suc left t v s.memory)
      (elim (upper t path j o (omega arith) (index-lt (suc (suc left)) v)) [
        | same e ↦ rw e (through (suc (suc left)) old _ _ next)
        | same_table h h' p a ↦
            rw (p, a, h, h')
              (elim (Bool-cases (is_present old)) [ inl q ↦ rw q (next q h) | inr q ↦ rw q refl ])
        | empty_table p p' h z ↦ rw (p, p', h) (walk-empty left _ v memory' z)
      ])

-- The entry `i` of `t` leads to the table `t'`.
pub record Leads (memory : ℕ → ℕ) (t i t' : ℕ) : Type 0 where
  pub present : is_present (memory (entry_at t i)) ≡ true
  pub no_huge : is_huge (memory (entry_at t i)) ≡ false
  pub address : address_of (memory (entry_at t i)) ≡ t'

pub Leads-ext :
    {memory memory' : ℕ → ℕ} {t i t' : ℕ}
    → memory' (entry_at t i) ≡ memory (entry_at t i)
    → Leads memory t i t'
    → Leads memory' t i t'
Leads-ext e k = record {
  present = ap is_present e ∙ k.present;
  no_huge = ap is_huge e ∙ k.no_huge;
  address = ap address_of e ∙ k.address;
}

pub Leads-Alike :
    {memory memory' : ℕ → ℕ} {t i t' : ℕ}
    → Alike memory' (memory (entry_at t i)) (memory' (entry_at t i))
    → Leads memory t i t'
    → Leads memory' t i t'
Leads-Alike (same e) k = Leads-ext e k
Leads-Alike (same_table h h' p a) k = record {
  present = p ∙ k.present;
  no_huge = h';
  address = a ∙ k.address;
}
Leads-Alike (empty_table p p' h z) k = cc (k.present)

pub walk-Leads :
    {memory : ℕ → ℕ} (left t t' v : ℕ)
    → Leads memory t (index (suc (suc left)) v) t'
    → walk (suc left) t v memory ≡ walk left t' v memory
walk-Leads {memory} left t t' v k =
    walk-suc left t v memory ∙ rw (k.present, k.no_huge, k.address) refl

-- The registers and the flushed addresses do not matter.
pub IsTree-registers :
    {s : Vmm} {owner : Owner} (cr3 : ℕ) (flushed : List ℕ)
    → IsTree s owner
    → IsTree (record s { cr3 = cr3; flushed = flushed }) owner
IsTree-registers cr3 flushed i = record {
  valid = i.valid;
  small = i.small;
  aligned = i.aligned;
  taken = i.taken;
  child = i.child;
}
