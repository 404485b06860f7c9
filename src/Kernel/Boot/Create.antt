-- ===== src/Kernel/Boot/Create.antt =====
-- The three calls of `task_create_kernel_thread` in `kernel_main`.
use operatingsystem.Common.{ℕ, ◌≡◌, refl, ap, ◌∙◌, arith}
use operatingsystem.Common.{some, inr, ◌*◌, ◌≤◌}
use operatingsystem.Task.{TaskPool, create_kernel_thread}
use operatingsystem.Task.Create.{Created}
use operatingsystem.Scheduler
use operatingsystem.Kernel.Start.{
  Image, System, pool, with_pool, scheduler, with_scheduler, thread_a_name, thread_b_name,
  user_demo_name, create_thread, scheduler_add_task, add_user_task, set_up_tasks,
}
use operatingsystem.Kernel.Boot.Contexts.{IsThread, Created-IsThread, Created-others}
use operatingsystem.Kernel.Boot.Threads.{Spawned, create-next, create-Spawned}

-- The pool after each of the calls.
abbrev pub with_a : Image → TaskPool → TaskPool
with_a image p = (create_kernel_thread image.thread_a_entry thread_a_name p).1

abbrev pub with_b : Image → TaskPool → TaskPool
with_b image p = (create_kernel_thread image.thread_b_entry thread_b_name (with_a image p)).1

abbrev pub with_user : Image → TaskPool → TaskPool
with_user image p =
    (create_kernel_thread image.user_mode_demo_thread user_demo_name (with_b image p)).1

-- The three threads are there, and what lies behind their stacks is as `before`.
pub record Threads (image : Image) (before : ℕ → ℕ) (p : TaskPool) : Type 0 where
  pub spawned : Spawned 3 p
  pub thread_a : IsThread p.tasks p.memory 0 image.thread_a_entry
  pub thread_b : IsThread p.tasks p.memory 1 image.thread_b_entry
  pub user_demo : IsThread p.tasks p.memory 2 image.user_mode_demo_thread
  pub kernel_space : (p.tasks 0).pml4_phys ≡ 0
  pub elsewhere : (a : ℕ) → 13 * 4096 ≤ a → p.memory a ≡ before a

module _ (image : Image) (p : TaskPool) (w : Spawned 0 p) where
  Created-a :
      Created p image.thread_a_entry 0 1 (create_kernel_thread image.thread_a_entry thread_a_name p)
  Created-a = create-next w (omega arith) image.thread_a_entry thread_a_name

  Spawned-a : Spawned 1 (with_a image p)
  Spawned-a = create-Spawned w (omega arith) image.thread_a_entry thread_a_name

  Created-b :
      Created
        (with_a image p)
        image.thread_b_entry
        1
        5
        (create_kernel_thread image.thread_b_entry thread_b_name (with_a image p))
  Created-b = create-next Spawned-a (omega arith) image.thread_b_entry thread_b_name

  Spawned-b : Spawned 2 (with_b image p)
  Spawned-b = create-Spawned Spawned-a (omega arith) image.thread_b_entry thread_b_name

  Created-user :
      Created
        (with_b image p)
        image.user_mode_demo_thread
        2
        9
        (create_kernel_thread image.user_mode_demo_thread user_demo_name (with_b image p))
  Created-user = create-next Spawned-b (omega arith) image.user_mode_demo_thread user_demo_name

  pub with_user-Threads : Threads image p.memory (with_user image p)
  with_user-Threads = record {
    spawned = create-Spawned Spawned-b (omega arith) image.user_mode_demo_thread user_demo_name;
    thread_a =
        Created-others Created-user (omega arith)
          (Created-others Created-b (omega arith) (Created-IsThread w.pid Created-a));
    thread_b = Created-others Created-user (omega arith) (Created-IsThread Spawned-a.pid Created-b);
    user_demo = Created-IsThread Spawned-b.pid Created-user;
    kernel_space =
        ap (λ (t : Scheduler.Task). t.pml4_phys)
          (Created-user.others 0 (omega arith) ∙ Created-b.others 0 (omega arith))
        ∙ Created-a.shared_space;
    elsewhere = λ a h.
        Created-user.elsewhere a (inr (omega arith))
        ∙ Created-b.elsewhere a (inr (omega arith))
        ∙ Created-a.elsewhere a (inr (omega arith));
  }

-- The state in which the tasks are added.
abbrev pub created : Image → System → System
created image s =
    let s1 = with_scheduler (Scheduler.init (scheduler s)) s in
    with_pool (with_user image (pool s1)) s1

pub set_up_tasks-eq :
    (image : Image) (s : System)
    → Spawned 0 (pool (with_scheduler (Scheduler.init (scheduler s)) s))
    → set_up_tasks image s
      ≡ add_user_task image
          (some 2)
          (scheduler_add_task (some 1) (scheduler_add_task (some 0) (created image s)))
unfolding set_up_tasks create_thread
set_up_tasks-eq image s w =
    let p = pool (with_scheduler (Scheduler.init (scheduler s)) s) in
    rw
      (
        (Created-a image p w).returns,
        (Created-b image p w).returns,
        (Created-user image p w).returns,
      )
      refl
