-- ===== src/Kernel/Boot/Queued.antt =====
-- The first two threads of `kernel_main` in the queue.
use operatingsystem.Common.{ℕ, ◌≤◌, ◌≡◌, refl, ap, ◌∙◌, arith}
use operatingsystem.Common.{some, [], ◌∷◌}
use operatingsystem.Scheduler.{Scheduler, Task, add_task}
use operatingsystem.Scheduler
use operatingsystem.Scheduler.Queue.{IsQueue}
use operatingsystem.Scheduler.Calls.{add_task-IsQueue}
use operatingsystem.Vmm.Tree.{IsTree}
use operatingsystem.Kernel.Start.{
  Image, System, pool, scheduler, with_scheduler, user_mode, scheduler_add_task,
}
use operatingsystem.Kernel.Boot.Create.{Threads, with_user-Threads, created}
use operatingsystem.Kernel.Boot.Pages.{TakenBelow-free}
use operatingsystem.Kernel.Boot.Queue.{Added, add_task-Added, Added-trans}
use operatingsystem.Kernel.Boot.Space.{BootTables, BootTables-ext, boot_owner, boot-IsTree}
use operatingsystem.Kernel.Boot.Threads.{Spawned}

-- The state in which the two are queued.
abbrev pub queued : Image → System → System
queued image s = scheduler_add_task (some 1) (scheduler_add_task (some 0) (created image s))

-- What is known of it: the queue, the threads, and the tables as boot.S leaves them.
pub record IsQueued (image : Image) (s : System) (pdpt pd : ℕ) : Type 0 where
  pub made : Threads image s.memory (pool (created image s))
  pub queue : IsQueue (scheduler (queued image s)) (0 ∷ 1 ∷ [])
  pub added : Added (scheduler (created image s)) (scheduler (queued image s))
  pub same_pmm : (queued image s).pmm ≡ (created image s).pmm
  pub same_memory : (queued image s).memory ≡ (created image s).memory
  pub same_cr3 : (queued image s).cr3 ≡ s.cr3
  pub tables : BootTables (queued image s).memory s.cr3 pdpt pd
  pub tree : IsTree (user_mode (queued image s)).vmm (boot_owner s.cr3 pdpt pd)
  pub enough : 32000 ≤ (queued image s).pmm.free_pages

created-IsQueue : (image : Image) (s : System) → IsQueue (scheduler (created image s)) []
unfolding Scheduler.init
created-IsQueue image s = record { chain = refl; tail = refl; distinct = tt; all_ready = tt }

-- The two calls of `scheduler_add_task`.
Added-two :
    (image : Image) (s : System)
    → IsQueue (scheduler (queued image s)) (0 ∷ 1 ∷ [])
      × Added (scheduler (created image s)) (scheduler (queued image s))
      × ((queued image s).pmm ≡ (created image s).pmm)
      × ((queued image s).memory ≡ (created image s).memory)
unfolding scheduler_add_task
Added-two image s =
    let c = scheduler (created image s) in
    (
      add_task-IsQueue {s = add_task (some 0) c} {q = 0 ∷ []} 1
          (add_task-IsQueue {s = c} {q = []} 0 (created-IsQueue image s) tt) (omega arith, tt),
      Added-trans (add_task-Added 0 c) (add_task-Added 1 _),
      refl,
      refl,
    )

pub queued-IsQueued :
    (image : Image) (s : System) (pdpt pd : ℕ)
    → Spawned 0 (pool (with_scheduler (Scheduler.init (scheduler s)) s))
    → BootTables s.memory s.cr3 pdpt pd
    → IsQueued image s pdpt pd
unfolding Scheduler.init
queued-IsQueued image s pdpt pd w b =
    let made = with_user-Threads image (pool (with_scheduler (Scheduler.init (scheduler s)) s)) w in
    let (queue, added, pmm, memory) = Added-two image s in
    let t = queued image s in
    let tables : BootTables t.memory s.cr3 pdpt pd =
      BootTables-ext b (λ a h. ap (λ m. m a) memory ∙ made.elsewhere a (omega arith)) in
    record {
      made = made;
      queue = queue;
      added = added;
      same_pmm = pmm;
      same_memory = memory;
      same_cr3 = added.cr3;
      tables = tables;
      tree = boot-IsTree tables 13 t.pmm t.cr3 t.flushed (rw pmm made.spawned.pages);
      enough = rw pmm (TakenBelow-free made.spawned.pages (omega arith));
    }
