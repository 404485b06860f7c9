-- ===== src/Scheduler/Fair.antt =====
-- Ticks in a row: every task comes to run, in the order of the queue, and then it starts again.
use operatingsystem.Common.{ℕ, zero, suc, ◌≡◌, sym, subst, length}
use operatingsystem.Common.{List, [], ◌∷◌, ◌++◌}
use mathlib.Core.List.{append-nil, append_assoc}
use operatingsystem.Scheduler.{Scheduler, tick}
use operatingsystem.Scheduler.RoundRobin.{Runs, tick_lem, tick_alone}

-- `n` timer ticks.
unfoldable pub ticks : ℕ → Scheduler → Scheduler
ticks zero s = s
ticks (suc n) s = ticks n (tick s)

-- The running task first, then those that wait.
abbrev RunsLine : Scheduler → List ℕ → Type 0
RunsLine s [] = ⊥
RunsLine s (c ∷ q) = Runs s c q

tick-RunsLine :
    (s : Scheduler) (c : ℕ) (q : List ℕ) → Runs s c q → RunsLine (tick s) (q ++ (c ∷ []))
tick-RunsLine s c [] r = subst (λ t. Runs t c []) (sym (tick_alone r)) r
tick-RunsLine s c (x ∷ xs) r = (tick_lem r).runs

-- As many ticks as there are tasks before a point of the line bring that point to the front.
ticks-RunsLine :
    (before rest : List ℕ) (s : Scheduler)
    → RunsLine s (before ++ rest)
    → RunsLine (ticks (length before) s) (rest ++ before)
unfolding ticks
ticks-RunsLine [] rest s r = rw append-nil r
ticks-RunsLine (x ∷ xs) rest s r =
    subst (RunsLine (ticks (length xs) (tick s))) (append_assoc rest (x ∷ []) xs) (
      ticks-RunsLine xs (rest ++ (x ∷ [])) (tick s) (
        subst (RunsLine (tick s)) (append_assoc xs rest (x ∷ []))
          (tick-RunsLine s x (xs ++ rest) r)))

-- From a state in which `c` runs and `q` waits: a task with `before` before it in the line, the
-- running task included, runs after exactly as many ticks, and then those after it wait, followed
-- by those before it. So every task gets its turn within one round.
pub ticks-fair :
    {s : Scheduler} {c : ℕ} {q : List ℕ} (before : List ℕ) (t : ℕ) (after : List ℕ)
    → Runs s c q
    → c ∷ q ≡ before ++ (t ∷ after)
    → Runs (ticks (length before) s) t (after ++ before)
ticks-fair {s} before t after r e = ticks-RunsLine before (t ∷ after) s (subst (RunsLine s) e r)

-- After one tick for each task the same task runs, and the queue is as before.
pub ticks-round :
    {s : Scheduler} {c : ℕ} {q : List ℕ} → Runs s c q → Runs (ticks (length (c ∷ q)) s) c q
ticks-round {s} {c} {q} r = ticks-RunsLine (c ∷ q) [] s (rw append-nil r)
