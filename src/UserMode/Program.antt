-- ===== src/UserMode/Program.antt =====
-- The steps of `user_mode_prepare_demo_task` make the program's address space.
use operatingsystem.Common.{ℕ, ◌+◌, ◌-◌, ◌%◌, ◌^◌, ◌<◌, ◌≡◌, ◌≢◌, refl, sym, ap, ◌∙◌, arith}
use operatingsystem.Common.{◌⊎◌, inl, inr, some, [], bit_and, bit_or}
use operatingsystem.Common.{◌==◌, ==-eq-false, if◌then◌else◌, ℕ_discrete}
use operatingsystem.Pmm.{alloc_page}
use operatingsystem.Vmm.{Vmm, address_of, map_page, translate}
use operatingsystem.Vmm.Walk.{absent, page, index, walk}
use operatingsystem.Vmm.Pages.{map_page-Takes}
use operatingsystem.Pmm.Spent.{Spent, Spent-trans, alloc_page-Spent}
use operatingsystem.Vmm.Tree.{Owner, IsTree}
use operatingsystem.Vmm.Keeps.{Keeps, Keeps-trans}
use operatingsystem.Vmm.Leaf.{page_number}
use operatingsystem.Vmm.Map.{page_entry}
use operatingsystem.Vmm.Space.{NewSpace}
use operatingsystem.UserMode.{user_code_address, user_stack_address, share_kernel, map_program}
use operatingsystem.UserMode.Pages.{
  OnePage, map_page-OnePage, walk-page_number, on_page, same_target, Elsewhere, program_page_lem,
  Program,
}
use operatingsystem.UserMode.Share.{
  alloc-IsTree, alloc-Keeps, shared-Keeps, shared-IsTree, shared-root, shared-walks,
}

module _ (s spaced : Vmm) (owner : Owner) (program_phys stack_phys root : ℕ)
    (small : program_phys < 2 ^ 52) (k : owner s.cr3 ≡ some [])
    (n : NewSpace s owner (root, spaced)) where
  stacked : Vmm
  stacked = record spaced { pmm = (alloc_page spaced.pmm).1 }

  stacked-cr3 : n.owner' stacked.cr3 ≡ some []
  unfolding stacked
  stacked-cr3 = ap n.owner' n.same_cr3 ∙ n.grows s.cr3 [] k

  stacked-IsTree : IsTree stacked n.owner'
  unfolding stacked
  stacked-IsTree = alloc-IsTree n.tree

  first : Vmm
  first = share_kernel root stacked

  first-IsTree : IsTree first n.owner'
  unfolding first share_kernel
  first-IsTree = shared-IsTree stacked n.owner' root stacked-IsTree n.root stacked-cr3

  first-Keeps : Keeps s owner first n.owner'
  unfolding first share_kernel stacked
  first-Keeps = Keeps-trans n.keeps (
      Keeps-trans (alloc-Keeps n.tree)
        (shared-Keeps stacked n.owner' root stacked-IsTree n.root stacked-cr3))

  code_flags : address_of 4 ≡ 0
  code_flags = refl

  stack_flags : address_of (bit_or (bit_or 4 2) (2 ^ 63)) ≡ 0
  stack_flags = refl

  first-root :
      (w : ℕ) → translate root w first ≡ (if index 4 w == 0 then translate s.cr3 w s else 0)
  unfolding first share_kernel stacked
  first-root w = elim (ℕ_discrete (index 4 w) 0) [
    | yes z ↦ rw z (
        same_target spaced first root spaced.cr3 w
          (shared-root stacked n.owner' root stacked-IsTree n.root stacked-cr3 w ∙ rw z refl)
        ∙ ap (λ c. translate c w spaced) n.same_cr3
        ∙ n.others s.cr3 w k)
    | no ne ↦ rw (==-eq-false ne) (
        same_target spaced first root root w (
          shared-root stacked n.owner' root stacked-IsTree n.root stacked-cr3 w
          ∙ rw (==-eq-false ne) refl)
        ∙ n.empty w)
  ]

  first-others : (x w : ℕ) → owner x ≡ some [] → translate x w first ≡ translate x w s
  unfolding first share_kernel stacked
  first-others x w ox =
      same_target spaced first x x w (
        shared-walks stacked n.owner' root stacked-IsTree n.root stacked-cr3 3 x [] w
          (n.grows x [] ox) refl (λ e. cc (n.fresh, ap owner e)))
      ∙ n.others x w ox

  program_page : ℕ
  program_page = bit_and program_phys (2 ^ 64 - 4096)

  code :
      OnePage first n.owner' root user_code_address
        (page_entry program_page 4)
        (map_page root user_code_address program_page 4 first)
  code =
      map_page-OnePage first n.owner' root user_code_address program_page 4 first-IsTree n.root
        code_flags

  coded : Vmm
  coded = map_page root user_code_address program_page 4 first

  stack_entry : ℕ
  stack_entry = bit_or (bit_or 4 2) (2 ^ 63)

  both :
      OnePage coded code.owner' root user_stack_address
        (page_entry stack_phys stack_entry)
        (map_page root user_stack_address stack_phys stack_entry coded)
  unfolding coded stack_entry
  both =
      map_page-OnePage coded code.owner' root user_stack_address stack_phys stack_entry code.tree
        (code.grows root [] n.root) stack_flags

  final : Vmm
  final = map_page root user_stack_address stack_phys stack_entry coded

  final-walks :
      (x w : ℕ) → n.owner' x ≡ some [] → Elsewhere w → translate x w final ≡ translate x w first
  unfolding final coded
  final-walks x w ox (code_off, stack_off) =
      same_target first final x x w
        (both.others x w (code.grows x [] ox) stack_off ∙ code.others x w ox code_off)

  base : (w : ℕ) → index 4 w ≡ 0 → translate root w first ≡ translate s.cr3 w s
  base w z = first-root w ∙ rw z refl

  entry_address : ℕ
  entry_address = user_code_address + program_phys % 4096

  first-absent :
      (w : ℕ)
      → index 4 w ≡ 0
      → walk 3 s.cr3 w s.memory ≡ absent
      → walk 3 root w first.memory ≡ absent
  unfolding first share_kernel stacked
  first-absent w z h =
      shared-root stacked n.owner' root stacked-IsTree n.root stacked-cr3 w
      ∙ rw z (ap (λ c. walk 3 c w spaced.memory) n.same_cr3 ∙ n.walks 3 s.cr3 [] w k refl ∙ h)

  first-Spent : Spent 2 s.pmm first.pmm
  unfolding first share_kernel stacked
  first-Spent = Spent-trans n.spent (alloc_page-Spent n.tree.valid)

  entry_mapped :
      walk 3 root user_code_address coded.memory ≡ page (page_entry program_page 4)
      → translate root (user_code_address + program_phys % 4096) final ≡ program_phys
  unfolding final coded program_page
  entry_mapped mapped =
      let w = user_code_address + program_phys % 4096 in
      let on_code : page_number w ≡ page_number user_code_address = omega arith in
      let off_stack : page_number w ≢ page_number user_stack_address = (λ e. omega arith) in
      same_target coded final root root w (both.others root w (code.grows root [] n.root) off_stack)
      ∙ on_page coded root user_code_address w program_page 4 code_flags on_code mapped
      ∙ program_page_lem program_phys small

  final-entry :
      (translate root (user_code_address + program_phys % 4096) final ≡ program_phys)
      ⊎ (translate root (user_code_address + program_phys % 4096) final
          ≡ translate s.cr3 (user_code_address + program_phys % 4096) s)
  unfolding final coded program_page
  final-entry =
      let w = user_code_address + program_phys % 4096 in
      let on_code : page_number w ≡ page_number user_code_address = omega arith in
      let off_stack : page_number w ≢ page_number user_stack_address = (λ e. omega arith) in
      let kept = both.others root w (code.grows root [] n.root) off_stack in
      elim code.here [
        | inl mapped ↦ inl (entry_mapped mapped)
        | inr same ↦ inr (
            same_target first final root root w (
              kept
              ∙ walk-page_number 3 root w user_code_address coded.memory on_code
              ∙ same
              ∙ sym (walk-page_number 3 root w user_code_address first.memory on_code))
            ∙ base w (omega arith))
      ]

  final-stack :
      (w : ℕ)
      → page_number w ≡ page_number user_stack_address
      → (translate root w final ≡ address_of stack_phys + w % 4096)
        ⊎ (translate root w final ≡ translate s.cr3 w s)
  unfolding final coded stack_entry
  final-stack w on_stack = elim both.here [
    | inl mapped ↦
        inl (
          on_page final root user_stack_address w stack_phys stack_entry stack_flags on_stack
            mapped)
    | inr same ↦
        let off_code : page_number w ≢ page_number user_code_address = (λ e. omega arith) in
        inr (
          same_target first final root root w (
            walk-page_number 3 root w user_stack_address final.memory on_stack
            ∙ same
            ∙ sym (walk-page_number 3 root w user_stack_address coded.memory on_stack)
            ∙ code.others root w n.root off_code)
          ∙ base w (omega arith))
  ]

  final-sure :
      walk 3 s.cr3 user_code_address s.memory ≡ absent
      → walk 3 s.cr3 user_stack_address s.memory ≡ absent
      → 8 < s.pmm.free_pages
      → (translate root (user_code_address + program_phys % 4096) final ≡ program_phys)
        × ((w : ℕ)
            → page_number w ≡ page_number user_stack_address
            → translate root w final ≡ address_of stack_phys + w % 4096)
  unfolding final coded stack_entry
  final-sure no_code no_stack free =
      let coded_spent =
        (map_page-Takes root user_code_address program_page 4 first first-IsTree.valid).spent in
      let off_code : page_number user_stack_address ≢ page_number user_code_address =
        (λ e. omega arith) in
      let still_absent =
        code.others root user_stack_address n.root off_code
        ∙ first-absent user_stack_address (omega arith) no_stack in
      (
        entry_mapped (
            code.sure (first-absent user_code_address (omega arith) no_code)
              (omega (arith, first-Spent.left))),
        λ w on_stack.
            on_page final root user_stack_address w stack_phys stack_entry stack_flags on_stack
              (both.sure still_absent (omega (arith, first-Spent.left, coded_spent.left))),
      )

  final-cr3 : final.cr3 ≡ s.cr3
  unfolding final coded stack_entry first stacked share_kernel
  final-cr3 =
      (map_page-Takes root user_stack_address stack_phys stack_entry coded code.tree.valid).same_cr3
      ∙ (map_page-Takes root user_code_address program_page 4 first first-IsTree.valid).same_cr3
      ∙ n.same_cr3

  final-eq : map_program program_phys root stack_phys first ≡ final
  unfolding final coded program_page stack_entry map_program
  final-eq = refl

  program : Program s owner program_phys stack_phys root final
  unfolding final coded stack_entry
  program = record {
    owner' = both.owner';
    tree = both.tree;
    root_in = both.grows root [] (code.grows root [] n.root);
    entry = final-entry;
    stack = final-stack;
    kernel = λ w off z. final-walks root w n.root off ∙ base w z;
    nothing_else =
        λ w off ne. final-walks root w n.root off ∙ first-root w ∙ rw (==-eq-false ne) refl;
    others = λ x w ox off. final-walks x w (n.grows x [] ox) off ∙ first-others x w ox;
    sure = final-sure;
    same_cr3 = final-cr3;
    keeps = Keeps-trans first-Keeps (Keeps-trans code.keeps both.keeps);
  }

  pub program_lem : Program s owner program_phys stack_phys root (
      map_program program_phys root stack_phys
        (share_kernel root (record spaced { pmm = (alloc_page spaced.pmm).1 })))
  unfolding first stacked
  program_lem = rw final-eq program
