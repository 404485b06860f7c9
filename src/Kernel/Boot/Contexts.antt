-- ===== src/Kernel/Boot/Contexts.antt =====
-- The stacks and the first contexts of the threads that `kernel_main` creates.
use operatingsystem.Common.{ℕ, ◌+◌, ◌*◌, ◌≤◌, ◌<◌, ◌≡◌, refl, ap, ◌∙◌, arith}
use operatingsystem.Common.{inl, Option}
use operatingsystem.Scheduler.{Task}
use operatingsystem.Task.{TaskPool}
use operatingsystem.Task.Create.{Created}

-- What does not change when a task is queued or runs.
pub record SameThread (u v : Task) : Type 0 where
  pub pid : v.pid ≡ u.pid
  pub base : v.kernel_stack_base ≡ u.kernel_stack_base
  pub top : v.kernel_stack_top ≡ u.kernel_stack_top
  pub rsp : v.saved_rsp ≡ u.saved_rsp

pub SameThread-refl : (u : Task) → SameThread u u
SameThread-refl u = record { pid = refl; base = refl; top = refl; rsp = refl }

pub SameThread-trans : {u v w : Task} → SameThread u v → SameThread v w → SameThread u w
SameThread-trans a b = record {
  pid = b.pid ∙ a.pid;
  base = b.base ∙ a.base;
  top = b.top ∙ a.top;
  rsp = b.rsp ∙ a.rsp;
}

-- Task `i` has the stack of the four pages from page `1 + 4 * i` on, and there the context from
-- which it starts at `entry_point`.
pub record IsThread (tasks : ℕ → Task) (memory : ℕ → ℕ) (i entry_point : ℕ) : Type 0 where
  pub pid : (tasks i).pid ≡ i + 1
  pub base : (tasks i).kernel_stack_base ≡ (1 + 4 * i) * 4096
  pub top : (tasks i).kernel_stack_top ≡ (5 + 4 * i) * 4096
  pub rsp : (tasks i).saved_rsp + 56 ≡ (5 + 4 * i) * 4096
  pub rip : memory ((tasks i).saved_rsp + 48) ≡ entry_point
  pub registers : (k : ℕ) → k < 6 → memory ((tasks i).saved_rsp + 8 * k) ≡ 0

-- The memory of the stack of thread `i` is the same.
abbrev pub SameStack : ℕ → (ℕ → ℕ) → (ℕ → ℕ) → Type 0
SameStack i memory memory' =
    (a : ℕ) → (1 + 4 * i) * 4096 ≤ a → a < (5 + 4 * i) * 4096 → memory' a ≡ memory a

pub IsThread-ext :
    {tasks tasks' : ℕ → Task} {memory memory' : ℕ → ℕ} {i entry_point : ℕ}
    → IsThread tasks memory i entry_point
    → SameThread (tasks i) (tasks' i)
    → SameStack i memory memory'
    → IsThread tasks' memory' i entry_point
IsThread-ext {tasks} {tasks'} {memory} {memory'} t same stack = record {
  pid = same.pid ∙ t.pid;
  base = same.base ∙ t.base;
  top = same.top ∙ t.top;
  rsp = omega (arith, same.rsp, t.rsp);
  rip =
      ap (λ a. memory' (a + 48)) same.rsp
      ∙ stack _ (omega (arith, t.rsp)) (omega (arith, t.rsp))
      ∙ t.rip;
  registers = λ k h.
      ap (λ a. memory' (a + 8 * k)) same.rsp
      ∙ stack _ (omega (arith, t.rsp)) (omega (arith, t.rsp))
      ∙ t.registers k h;
}

pub Created-IsThread :
    {s : TaskPool} {entry_point i : ℕ} {r : Option ℕ × TaskPool}
    → s.next_pid ≡ i + 1
    → Created s entry_point i (1 + 4 * i) r
    → IsThread r.1.tasks r.1.memory i entry_point
Created-IsThread n c = record {
  pid = c.pid ∙ n;
  base = c.stack;
  top = c.top ∙ omega arith;
  rsp = c.context ∙ omega arith;
  rip = c.rip;
  registers = c.registers;
}

-- A later thread leaves an earlier one alone.
pub Created-others :
    {s : TaskPool} {entry_point i entry_point' j : ℕ} {r : Option ℕ × TaskPool}
    → Created s entry_point i (1 + 4 * i) r
    → j < i
    → IsThread s.tasks s.memory j entry_point'
    → IsThread r.1.tasks r.1.memory j entry_point'
Created-others {s} {entry_point} {i} {entry_point'} {j} {r} c h t =
    IsThread-ext t same (λ a p l. c.elsewhere a (inl (omega (arith, c.context))))
  where
    same : SameThread (s.tasks j) (r.1.tasks j)
    same = rw (c.others j (omega arith)) (SameThread-refl (s.tasks j))
