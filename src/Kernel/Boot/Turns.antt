-- ===== src/Kernel/Boot/Turns.antt =====
-- The three threads take turns once the kernel has started.
use operatingsystem.Common.{ℕ, ◌+◌, ◌%◌}
use operatingsystem.Common.{[], ◌∷◌}
use operatingsystem.Scheduler.{Scheduler}
use operatingsystem.Scheduler.RoundRobin.{Runs}

-- After `n` turns.
abbrev Turn : ℕ → Scheduler → Type 0
Turn n s = Runs s (n % 3) ((n + 1) % 3 ∷ (n + 2) % 3 ∷ [])
