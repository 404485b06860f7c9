-- ===== src/Kernel/Boot/Tasks.antt =====
-- The tasks of `kernel_main`, created, prepared and queued.
use operatingsystem.Common.{ℕ, ◌+◌, ◌*◌, ◌/◌, ◌%◌, ◌^◌, ◌<◌, ◌≡◌, refl, sym, ap, ◌∙◌, arith}
use operatingsystem.Common.{inl, inr, none, some, [], ◌∷◌, ℕ_discrete, Bool, true, false}
use operatingsystem.Pmm.{Pmm, test_bit}
use operatingsystem.Scheduler.{Scheduler, Task, add_task}
use operatingsystem.Scheduler
use operatingsystem.Scheduler.Queue.{IsQueue}
use operatingsystem.Scheduler.Calls.{add_task-IsQueue}
use operatingsystem.Pmm.Valid.{IsValid}
use operatingsystem.Vmm.{Vmm, address_of, translate}
use operatingsystem.Vmm.Entry.{address_of_lem}
use operatingsystem.Vmm.Walk.{absent, walk}
use operatingsystem.Vmm.Tree.{Owner}
use operatingsystem.UserMode.{UserMode, user_code_address, user_stack_address, prepare_demo_task}
use operatingsystem.UserMode.Prepare.{Ready, prepare_demo_task-accepts, prepare_demo_task_lem}
use operatingsystem.Kernel.Start.{
  Image, System, pool, scheduler, with_scheduler, user_mode, with_user_mode, scheduler_add_task,
  add_user_task, set_up_tasks,
}
use operatingsystem.Kernel.Boot.Contexts.{
  IsThread, IsThread-ext, SameStack, SameThread, SameThread-refl, SameThread-trans,
}
use operatingsystem.Kernel.Boot.Create.{created, set_up_tasks-eq}
use operatingsystem.Kernel.Boot.Pages.{is_taken}
use operatingsystem.Kernel.Boot.UserSpace.{UserSpace, UserSpace-ext}
use operatingsystem.Kernel.Boot.Queue.{Added, add_task-Added, IsQueue-others}
use operatingsystem.Kernel.Boot.Space.{BootTables, boot_owner, owner-pml4, owner-low, walk-absent}
use operatingsystem.Kernel.Boot.Threads.{Spawned}
use operatingsystem.Kernel.Boot.Queued.{queued, IsQueued, queued-IsQueued}

-- What setting up and starting tasks does not touch.
abbrev pub SameRest : System → System → Type 0
SameRest s t =
    (t.heap ≡ s.heap)
    × (t.files ≡ s.files)
    × (t.console ≡ s.console)
    × (t.keyboard_column ≡ s.keyboard_column)
    × (t.tables.idt ≡ s.tables.idt)
    × (t.tables.idtr ≡ s.tables.idtr)

-- The state `t` with the tasks of `s` set up.
pub record SetUp (image : Image) (s t : System) : Type 0 where
  pub queue : IsQueue (scheduler t) (0 ∷ 1 ∷ 2 ∷ [])
  pub idle : t.current_task ≡ none
  pub kernel : t.kernel_pml4_phys ≡ s.cr3
  pub same_cr3 : t.cr3 ≡ s.cr3
  pub same_switches : t.switches ≡ s.switches
  pub own_space : (t.tasks 0).pml4_phys ≡ 0
  pub valid : IsValid t.pmm
  pub thread_a : IsThread t.tasks t.memory 0 image.thread_a_entry
  pub thread_b : IsThread t.tasks t.memory 1 image.thread_b_entry
  pub user_demo : IsThread t.tasks t.memory 2 image.user_mode_demo_thread
  pub user_space :
      UserSpace image.user_program_start
        (user_mode t).vmm
        s.cr3
        (t.tasks 2).pml4_phys
        t.demo_entry_address
  pub same_rest : SameRest s t

module _ (image : Image) (s : System) (pdpt pd : ℕ)
    (w : Spawned 0 (pool (with_scheduler (Scheduler.init (scheduler s)) s)))
    (b : BootTables s.memory s.cr3 pdpt pd) (small : image.user_program_start < 2 ^ 52) where
  before : IsQueued image s pdpt pd
  before = queued-IsQueued image s pdpt pd w b

  abbrev owner : Owner
  owner = boot_owner s.cr3 pdpt pd

  -- The third one prepared.
  abbrev pub outcome : Bool × UserMode
  outcome = prepare_demo_task image.user_program_start (some 2) (user_mode (queued image s))

  accepted : outcome.0 ≡ true
  accepted =
      prepare_demo_task-accepts (user_mode (queued image s)) image.user_program_start 2
        before.tree.valid (omega (arith, before.enough))

  prepared-Ready : Ready (user_mode (queued image s)) owner image.user_program_start 2 outcome
  prepared-Ready =
      elim (prepare_demo_task_lem (user_mode (queued image s)) owner image.user_program_start 2
        before.tree (ap owner before.same_cr3 ∙ owner-pml4 b) small) [
          | inl refused ↦ cc (accepted, refused.refused)
          | inr ready ↦ ready
        ]

  abbrev pub prepared : System
  prepared = with_user_mode outcome.1 (queued image s)

  -- And (queued image s).
  abbrev pub final : System
  final = scheduler_add_task (some 2) prepared

  set_up_tasks-final : set_up_tasks image s ≡ final
  unfolding add_user_task
  set_up_tasks-final = set_up_tasks-eq image s w ∙ rw accepted refl

  prepared-IsQueue : IsQueue (scheduler prepared) (0 ∷ 1 ∷ [])
  prepared-IsQueue =
      IsQueue-others {s = record (scheduler (queued image s)) { cr3 = prepared.cr3 }} prepared.tasks
        2
        (record {
          chain = before.queue.chain;
          tail = before.queue.tail;
          distinct = before.queue.distinct;
          all_ready = before.queue.all_ready;
        })
        (omega arith, (omega arith, tt)) prepared-Ready.others

  final-IsQueue : IsQueue (scheduler final) (0 ∷ 1 ∷ 2 ∷ [])
  unfolding scheduler_add_task
  final-IsQueue =
      add_task-IsQueue {s = scheduler prepared} {q = 0 ∷ 1 ∷ []} 2 prepared-IsQueue
        (omega arith, (omega arith, tt))

  final-Added : Added (scheduler prepared) (scheduler final)
  unfolding scheduler_add_task
  final-Added = add_task-Added 2 (scheduler prepared)

  -- A stack of the threads, and the contexts on it, stay as they are.
  same_stack : (i : ℕ) → i < 3 → SameStack i (created image s).memory final.memory
  unfolding scheduler_add_task
  same_stack i h a p l =
      let page_taken : test_bit (queued image s).pmm.bitmap (a / 4096) ≡ true =
        ap (λ (m : Pmm). test_bit m.bitmap (a / 4096)) before.same_pmm
        ∙ before.made.spawned.pages.bits (a / 4096) (omega arith)
        ∙ ground arith in
      (prepared-Ready.space.keeps.page_kept a page_taken
        (owner-low b (a / 4096 * 4096) (omega arith))).0
      ∙ ap (λ m. m a) before.same_memory

  prepared-SameThread : (j : ℕ) → SameThread ((queued image s).tasks j) (prepared.tasks j)
  prepared-SameThread j = elim (ℕ_discrete j 2) [
    | yes e ↦
        rw (e, prepared-Ready.itself) (record { pid = refl; base = refl; top = refl; rsp = refl })
    | no ne ↦ rw (prepared-Ready.others j ne) (SameThread-refl ((queued image s).tasks j))
  ]

  final-SameThread : (j : ℕ) → SameThread ((created image s).tasks j) (final.tasks j)
  final-SameThread j =
      SameThread-trans (before.added.thread j)
        (SameThread-trans (prepared-SameThread j) (final-Added.thread j))

  final-IsThread :
      (i entry_point : ℕ)
      → i < 3
      → IsThread (created image s).tasks (created image s).memory i entry_point
      → IsThread final.tasks final.memory i entry_point
  final-IsThread i entry_point h t = IsThread-ext t (final-SameThread i) (same_stack i h)

  no_code : walk 3 (queued image s).cr3 user_code_address (queued image s).memory ≡ absent
  no_code =
      ap (λ r. walk 3 r user_code_address (queued image s).memory) before.same_cr3
      ∙ walk-absent before.tables user_code_address (omega arith) (omega arith)

  no_stack : walk 3 (queued image s).cr3 user_stack_address (queued image s).memory ≡ absent
  no_stack =
      ap (λ r. walk 3 r user_stack_address (queued image s).memory) before.same_cr3
      ∙ walk-absent before.tables user_stack_address (omega arith) (omega arith)

  abbrev after : Vmm
  after = (user_mode prepared).vmm

  prepared-UserSpace :
      UserSpace image.user_program_start after s.cr3
        (prepared.tasks 2).pml4_phys
        prepared.demo_entry_address
  prepared-UserSpace =
      let r = prepared-Ready in
      let p = r.space in
      let sure = p.sure no_code no_stack (omega (arith, before.enough)) in
      let in_kernel : owner (queued image s).cr3 ≡ some [] =
        ap owner before.same_cr3 ∙ owner-pml4 b in
      let bits : is_taken 13 r.stack_page.number ≡ false =
        sym (
          before.made.spawned.pages.bits r.stack_page.number (
            omega (
              arith,
              r.stack_page.within,
              ap (λ (m : Pmm). m.total_pages) before.same_pmm,
              before.made.spawned.pages.total,
            )))
        ∙ ap (λ (m : Pmm). test_bit m.bitmap r.stack_page.number) (sym before.same_pmm)
        ∙ r.stack_page.was_free in
      record {
        entry_point =
            ap (λ e. translate (prepared.tasks 2).pml4_phys e after) r.entry_point ∙ sure.0;
        stack_page = r.stack_page.number;
        apart = ground (arith, bits);
        stack = λ w on. sure.1 w on ∙ ap (λ a. a + w % 4096) page_address;
        kernel = λ w off z.
            p.kernel w off z
            ∙ sym (p.others (queued image s).cr3 w in_kernel off)
            ∙ ap (λ c. translate c w after) before.same_cr3;
        nothing_else = p.nothing_else;
      }
    where
      page_address : address_of prepared-Ready.stack_phys ≡ prepared-Ready.stack_page.number * 4096
      page_address = omega (
        arith,
        address_of_lem prepared-Ready.stack_phys,
        prepared-Ready.stack_page.address,
        prepared-Ready.stack_page.within,
        before.tree.small,
      )

  final-SetUp : SetUp image s final
  unfolding scheduler_add_task Scheduler.init
  final-SetUp = record {
    queue = final-IsQueue;
    idle = final-Added.current ∙ before.added.current;
    kernel = final-Added.kernel ∙ before.added.kernel;
    same_cr3 = final-Added.cr3 ∙ prepared-Ready.space.same_cr3 ∙ before.same_cr3;
    same_switches = final-Added.switches ∙ before.added.switches;
    own_space =
        final-Added.space 0
        ∙ ap (λ (u : Task). u.pml4_phys) (prepared-Ready.others 0 (omega arith))
        ∙ before.added.space 0
        ∙ before.made.kernel_space;
    valid = prepared-Ready.space.tree.valid;
    thread_a = final-IsThread 0 image.thread_a_entry (omega arith) before.made.thread_a;
    thread_b = final-IsThread 1 image.thread_b_entry (omega arith) before.made.thread_b;
    user_demo = final-IsThread 2 image.user_mode_demo_thread (omega arith) before.made.user_demo;
    user_space = UserSpace-ext (user_mode final).vmm (final-Added.space 2) prepared-UserSpace refl;
    same_rest = (refl, refl, refl, refl, refl, refl);
  }

  -- `kernel_main` sets the tasks up.
  pub set_up_tasks-SetUp : SetUp image s (set_up_tasks image s)
  set_up_tasks-SetUp = rw set_up_tasks-final final-SetUp
