-- ===== src/UserMode/Prepare.antt =====
-- `user_mode_prepare_demo_task`.
use operatingsystem.Common.{ℕ, ◌+◌, ◌*◌, ◌%◌, arith, ◌^◌, ◌<◌, ◌≡◌, ◌≢◌, refl, sym, ap, ◌∙◌}
use operatingsystem.Common.{◌⊎◌, inl, inr, none, some, [], write, write_lem, bit_and, and-ones}
use operatingsystem.Common.{Bool, true, false, ◌||◌, ◌==◌, ==_refl, ==-eq-false, Bool-cases}
use operatingsystem.Pmm.{Pmm, test_bit, alloc_page}
use operatingsystem.Pmm.Alloc.{alloc_page_lem}
use operatingsystem.Pmm.Valid.{IsValid}
use operatingsystem.Pmm.Spent.{alloc_page-Spent, alloc_page-nonzero}
use operatingsystem.Vmm.{Vmm, create_address_space, translate}
use operatingsystem.Vmm.Tree.{Owner, IsTree}
use operatingsystem.Vmm.Space.{NewSpace, create_address_space_lem}
use operatingsystem.Scheduler.{Task}
use operatingsystem.UserMode.{
  UserMode, user_code_address, user_stack_address, share_kernel, map_program, prepare_demo_task,
}
use operatingsystem.UserMode.Pages.{same_target, Program}
use operatingsystem.UserMode.Program.{program_lem}
use operatingsystem.UserMode.Share.{alloc-IsTree, alloc-Keeps}
use operatingsystem.Vmm.Keeps.{Keeps, Keeps-same, Keeps-trans}
use operatingsystem.Common.{dec_lt, ◌≤◌}

-- Nothing is prepared, since at most one page is free: the tables stay well-formed, every address
-- translates as before and the taken pages keep their memory.
pub record Refused (s : UserMode) (owner : Owner) (r : Bool × UserMode) : Type 0 where
  pub refused : r.0 ≡ false
  pub few_pages : s.vmm.pmm.free_pages ≤ 1
  pub owner' : Owner
  pub tree : IsTree r.1.vmm owner'
  pub walks : (x w : ℕ) → owner x ≡ some [] → translate x w r.1.vmm ≡ translate x w s.vmm
  pub keeps : Keeps s.vmm owner r.1.vmm owner'
  pub same_tasks : r.1.tasks ≡ s.tasks
  pub same_entry : r.1.demo_entry_address ≡ s.demo_entry_address

-- A page of the machine that was free.
pub record IsFreePage (s : Pmm) (phys : ℕ) : Type 0 where
  pub number : ℕ
  pub address : phys ≡ number * 4096
  pub within : number < s.total_pages
  pub was_free : test_bit s.bitmap number ≡ false

-- The task is given the new space.
pub record Ready (s : UserMode) (owner : Owner) (program_phys task : ℕ) (r : Bool × UserMode)
    : Type 0 where
  pub stack_phys : ℕ
  pub accepted : r.0 ≡ true
  pub stack_page : IsFreePage s.vmm.pmm stack_phys
  pub fresh : owner (r.1.tasks task).pml4_phys ≡ none
  pub space : Program s.vmm owner program_phys stack_phys (r.1.tasks task).pml4_phys r.1.vmm
  pub entry_point : r.1.demo_entry_address ≡ user_code_address + program_phys % 4096
  pub stack_top : r.1.demo_stack_top ≡ user_stack_address + 4096
  pub others : (t : ℕ) → t ≢ task → r.1.tasks t ≡ s.tasks t
  pub itself : r.1.tasks task ≡ record (s.tasks task) { pml4_phys = (r.1.tasks task).pml4_phys }

alloc-Refused :
    (s : UserMode) (v : Vmm) (owner owner' : Owner)
    → IsTree v owner'
    → ((x w : ℕ) → owner x ≡ some [] → translate x w v ≡ translate x w s.vmm)
    → Keeps s.vmm owner v owner'
    → s.vmm.pmm.free_pages ≤ 1
    → Refused s owner (false, record s { vmm = record v { pmm = (alloc_page v.pmm).1 } })
alloc-Refused s v owner owner' i walks keeps few = record {
  refused = refl;
  few_pages = few;
  owner' = owner';
  tree = alloc-IsTree i;
  walks =
      λ x w ox. same_target v (record v { pmm = (alloc_page v.pmm).1 }) x x w refl ∙ walks x w ox;
  keeps = Keeps-trans keeps (alloc-Keeps i);
  same_tasks = refl;
  same_entry = refl;
}

space-Ready :
    (s : UserMode) (spaced : Vmm) (owner : Owner) (program_phys stack_phys root task : ℕ)
    → program_phys < 2 ^ 52
    → owner s.vmm.cr3 ≡ some []
    → IsFreePage s.vmm.pmm stack_phys
    → NewSpace s.vmm owner (root, spaced)
    → Ready s owner program_phys task (
      true,
      record s {
        vmm =
            map_program program_phys root stack_phys
              (share_kernel root (record spaced { pmm = (alloc_page spaced.pmm).1 }));
        tasks = write s.tasks task (record (s.tasks task) { pml4_phys = root });
        demo_entry_address = user_code_address + bit_and program_phys 4095;
        demo_stack_top = user_stack_address + 4096;
      },
    )
space-Ready s spaced owner program_phys stack_phys root task small k free n = record {
  stack_phys = stack_phys;
  accepted = refl;
  stack_page = free;
  fresh = ap owner given ∙ n.fresh;
  space = rw given (program_lem s.vmm spaced owner program_phys stack_phys root small k n);
  entry_point = ap (λ p. user_code_address + p) (and-ones 12 program_phys);
  stack_top = refl;
  others = λ t ne. write_lem s.tasks task _ t ∙ rw (==-eq-false ne) refl;
  itself = here ∙ ap (λ p. record (s.tasks task) { pml4_phys = p }) (sym given);
}
  where
    changed : Task
    changed = record (s.tasks task) { pml4_phys = root }

    here : write s.tasks task (record (s.tasks task) { pml4_phys = root }) task ≡ changed
    here =
        write_lem s.tasks task (record (s.tasks task) { pml4_phys = root }) task
        ∙ rw (==_refl task) refl

    given : (write s.tasks task (record (s.tasks task) { pml4_phys = root }) task).pml4_phys ≡ root
    given = ap (λ (t : Task). t.pml4_phys) here

-- The second page was free at the start, too.
stack_free :
    (s : Vmm) (owner : Owner) {r : ℕ × Vmm}
    → NewSpace s owner r
    → (alloc_page r.1.pmm).0 ≢ 0
    → IsFreePage s.pmm (alloc_page r.1.pmm).0
stack_free s owner {r} n found = elim (alloc_page_lem r.1.pmm n.tree.valid) [
  | inr (failed, all) ↦ absurd (found (ap (λ (p : ℕ × Pmm). p.0) failed))
  | inl (page, g) ↦ record {
    number = page;
    address = g.address;
    within = omega (arith, g.within, n.spent.same_total);
    was_free = elim (Bool-cases (test_bit s.pmm.bitmap page)) [
      | inr free ↦ free
      | inl taken ↦ cc (n.spent.taken page taken, g.was_free page (omega arith) (omega arith))
    ];
  }
]

second_found : (a b : ℕ) → (a == 0) || (b == 0) ≡ false → b ≢ 0
second_found a b h = ground (arith, h)

-- With two pages free it does not refuse.
pub prepare_demo_task-accepts :
    (s : UserMode) (program_phys task : ℕ)
    → IsValid s.vmm.pmm
    → 1 < s.vmm.pmm.free_pages
    → (prepare_demo_task program_phys (some task) s).0 ≡ true
unfolding prepare_demo_task create_address_space
prepare_demo_task-accepts s program_phys task v free =
    let spent = alloc_page-Spent v in
    let first = ==-eq-false (alloc_page-nonzero v (omega arith)) in
    let second = ==-eq-false (alloc_page-nonzero spent.valid (omega (arith, spent.left))) in
    rw first (rw (first, second) refl)

-- In address spaces whose tables form a tree, with the kernel's root loaded and the program below
-- 2^52, `user_mode_prepare_demo_task` of a task either refuses, which it does only if at most one page
-- is free, and every address in every space translates as before; or it gives the task a new space, in which, off the two pages of the
-- program, the lowest 512 GiB translate as in the kernel's space and nothing else is mapped; the
-- entry point translates to the program and the stack page to a page that was free, unless the
-- mapping failed and they translate as in the kernel's space, which it does not if nine pages are
-- free and the kernel's space has nothing there; and off these pages every other space translates as
-- before. In both cases the tables form a tree again, and the memory of every page that was taken and
-- is none of them stays as it was.
pub prepare_demo_task_lem :
    (s : UserMode) (owner : Owner) (program_phys task : ℕ)
    → IsTree s.vmm owner
    → owner s.vmm.cr3 ≡ some []
    → program_phys < 2 ^ 52
    → let r = prepare_demo_task program_phys (some task) s in
      Refused s owner r ⊎ Ready s owner program_phys task r
unfolding prepare_demo_task
prepare_demo_task_lem s owner program_phys task i k small =
    elim (create_address_space_lem s.vmm owner i) [
      | inr (failed, all) ↦ rw failed (
          inl (
            alloc-Refused s s.vmm owner owner i (λ x w ox. refl) (Keeps-same s.vmm owner)
              (few (rw failed refl))))
      | inl n ↦
          elim (Bool-cases (
            (create_address_space s.vmm).0 == 0
            || (alloc_page (create_address_space s.vmm).1.pmm).0 == 0)) [
              | inl none_left ↦ rw none_left (
                  inl (
                    alloc-Refused s (create_address_space s.vmm).1 owner n.owner' n.tree n.others
                      n.keeps (few (rw none_left refl))))
              | inr fine ↦ rw fine (
                  inr (
                    space-Ready s (create_address_space s.vmm).1 owner program_phys
                      (alloc_page (create_address_space s.vmm).1.pmm).0
                      (create_address_space s.vmm).0 task small k
                      (stack_free s.vmm owner n (second_found _ _ fine)) n))
            ]
    ]
  where
    few : (prepare_demo_task program_phys (some task) s).0 ≡ false → s.vmm.pmm.free_pages ≤ 1
    few e = elim (dec_lt 1 s.vmm.pmm.free_pages) [
      | yes more ↦ cc (e, prepare_demo_task-accepts s program_phys task i.valid more)
      | no not_more ↦ omega arith
    ]
