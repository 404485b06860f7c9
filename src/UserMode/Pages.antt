-- ===== src/UserMode/Pages.antt =====
-- Mapping a page of the demo program, and what the program's address space is.
use operatingsystem.Common.{
  ℕ, zero, suc, ◌+◌, ◌-◌, ◌%◌, ◌^◌, ◌<◌, ◌≡◌, ◌≢◌, refl, sym, ap, ◌∙◌, arith,
}
use operatingsystem.Common.{◌⊎◌, inl, inr, some, List, [], bit_and, and_assoc}
use operatingsystem.Vmm.{Vmm, address_of, entry_at, map_page, translate}
use operatingsystem.Vmm.Entry.{address_of_lem, page_entry_lem}
use operatingsystem.Vmm.Down.{Failed}
use operatingsystem.Vmm.Pages.{map_page-Takes}
use operatingsystem.Pmm.Spent.{all_taken}
use operatingsystem.Vmm.Walk.{absent, page, index, walk, walk-zero, walk-suc, target, translate_lem}
use operatingsystem.Vmm.Tree.{Owner, IsTree, through}
use operatingsystem.Vmm.Keeps.{Keeps}
use operatingsystem.Vmm.Leaf.{page_number}
use operatingsystem.Vmm.Map.{page_entry, map_page-Outcome}
use operatingsystem.UserMode.{user_code_address, user_stack_address}

-- A page is mapped at `a` in the space `root`, or it is not and its walks stay as they were.
pub record OnePage (v : Vmm) (owner : Owner) (root a e : ℕ) (v' : Vmm) : Type 0 where
  pub owner' : Owner
  pub tree : IsTree v' owner'
  pub grows : (x : ℕ) (q : List ℕ) → owner x ≡ some q → owner' x ≡ some q
  pub here : (walk 3 root a v'.memory ≡ page e) ⊎ (walk 3 root a v'.memory ≡ walk 3 root a v.memory)
  pub others :
      (x w : ℕ)
      → owner x ≡ some []
      → page_number w ≢ page_number a
      → walk 3 x w v'.memory ≡ walk 3 x w v.memory
  pub sure :
      walk 3 root a v.memory ≡ absent → 3 < v.pmm.free_pages → walk 3 root a v'.memory ≡ page e
  pub keeps : Keeps v owner v' owner'

pub map_page-OnePage :
    (v : Vmm) (owner : Owner) (root a phys_addr flags : ℕ)
    → IsTree v owner
    → owner root ≡ some []
    → address_of flags ≡ 0
    → OnePage v owner root a (page_entry phys_addr flags) (map_page root a phys_addr flags v)
map_page-OnePage v owner root a phys_addr flags i o h =
    elim (map_page-Outcome v owner root a phys_addr flags i o h) [
      | inl m ↦ record {
        owner' = m.owner';
        tree = m.tree;
        grows = m.grows;
        here = inl m.here;
        others = m.others;
        sure = λ z free. m.here;
        keeps = m.keeps;
      }
      | inr f ↦ record {
        owner' = f.owner';
        tree = f.tree;
        grows = f.grows;
        here = inr (f.walks 3 root [] a o refl);
        others = λ x w ox ne. f.walks 3 x [] w ox refl;
        sure = λ z free. absurd (not_failed z free f);
        keeps = f.keeps;
      }
    ]
  where
    not_failed :
        walk 3 root a v.memory ≡ absent
        → 3 < v.pmm.free_pages
        → ¬ Failed v owner root a (map_page root a phys_addr flags v)
    not_failed z free f = elim f.reason [
      | inl (level, e, big) ↦ cc
      | inr all ↦
          let spent = (map_page-Takes root a phys_addr flags v i.valid).spent in
          all_taken spent.valid (omega (arith, spent.left)) all
    ]

same_indices : (w a level : ℕ) → page_number w ≡ page_number a → index level w ≡ index level a
same_indices w a zero e = refl
same_indices w a (suc zero) e = omega arith
same_indices w a (suc (suc zero)) e = omega arith
same_indices w a (suc (suc (suc zero))) e = omega arith
same_indices w a (suc (suc (suc (suc level)))) e = omega arith

-- A walk depends on the page alone.
pub walk-page_number :
    (left t w a : ℕ) (memory : ℕ → ℕ)
    → page_number w ≡ page_number a
    → walk left t w memory ≡ walk left t a memory
walk-page_number zero t w a memory e =
    rw (walk-zero t w memory, walk-zero t a memory, same_indices w a 1 e) refl
walk-page_number (suc left) t w a memory e =
    let entry = memory (entry_at t (index (suc (suc left)) a)) in
    rw (walk-suc left t w memory, walk-suc left t a memory, same_indices w a (suc (suc left)) e)
      (through (suc (suc left)) entry _ _
        (λ p h. walk-page_number left (address_of entry) w a memory e))

-- What a walk to a page comes to.
pub on_page :
    (v : Vmm) (root a w phys_addr flags : ℕ)
    → address_of flags ≡ 0
    → page_number w ≡ page_number a
    → walk 3 root a v.memory ≡ page (page_entry phys_addr flags)
    → translate root w v ≡ address_of phys_addr + w % 4096
on_page v root a w phys_addr flags h e here =
    translate_lem root w v
    ∙ ap (target w) (walk-page_number 3 root w a v.memory e ∙ here)
    ∙ ap (λ p. p + w % 4096) (page_entry_lem phys_addr flags h).1

pub same_target :
    (v v' : Vmm) (x y w : ℕ)
    → walk 3 x w v'.memory ≡ walk 3 y w v.memory
    → translate x w v' ≡ translate y w v
same_target v v' x y w e = translate_lem x w v' ∙ ap (target w) e ∙ sym (translate_lem y w v)

-- The two pages of the program.
abbrev pub Elsewhere : ℕ → Type 0
Elsewhere w =
    (page_number w ≢ page_number user_code_address)
    × (page_number w ≢ page_number user_stack_address)

pub program_page_lem :
    (p : ℕ)
    → p < 2 ^ 52
    → address_of (bit_and p (2 ^ 64 - 4096)) + (user_code_address + p % 4096) % 4096 ≡ p
program_page_lem p small =
    omega (arith, and_assoc p (2 ^ 64 - 4096) 0x000f_ffff_ffff_f000, address_of_lem p)

-- The new address space `root`, with the demo program's two pages.
pub record Program (s : Vmm) (owner : Owner) (program_phys stack_phys root : ℕ) (v : Vmm)
    : Type 0 where
  pub owner' : Owner
  pub tree : IsTree v owner'
  pub root_in : owner' root ≡ some []
  pub same_cr3 : v.cr3 ≡ s.cr3
  pub entry :
      (translate root (user_code_address + program_phys % 4096) v ≡ program_phys)
      ⊎ (translate root (user_code_address + program_phys % 4096) v
          ≡ translate s.cr3 (user_code_address + program_phys % 4096) s)
  pub stack :
      (w : ℕ)
      → page_number w ≡ page_number user_stack_address
      → (translate root w v ≡ address_of stack_phys + w % 4096)
        ⊎ (translate root w v ≡ translate s.cr3 w s)
  pub kernel : (w : ℕ) → Elsewhere w → index 4 w ≡ 0 → translate root w v ≡ translate s.cr3 w s
  pub nothing_else : (w : ℕ) → Elsewhere w → index 4 w ≢ 0 → translate root w v ≡ 0
  pub others : (x w : ℕ) → owner x ≡ some [] → Elsewhere w → translate x w v ≡ translate x w s
  pub sure :
      walk 3 s.cr3 user_code_address s.memory ≡ absent
      → walk 3 s.cr3 user_stack_address s.memory ≡ absent
      → 8 < s.pmm.free_pages
      → (translate root (user_code_address + program_phys % 4096) v ≡ program_phys)
        × ((w : ℕ)
            → page_number w ≡ page_number user_stack_address
            → translate root w v ≡ address_of stack_phys + w % 4096)
  pub keeps : Keeps s owner v owner'
