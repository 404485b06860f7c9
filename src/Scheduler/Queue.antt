-- ===== src/Scheduler/Queue.antt =====
-- The intrusive ready queue as a list of tasks: appending to it and taking its head.
use operatingsystem.Common.{ℕ, ◌≡◌, ◌≢◌, refl, sym, ◌∙◌, arith, ◌==◌, if◌then◌else◌, ==-eq-false}
use operatingsystem.Common.{List, [], ◌∷◌, ◌++◌, Option, none, some, subst, write, write_lem}
use operatingsystem.Scheduler.{Task, ready, Scheduler, set_next}
use operatingsystem.Scheduler.{enqueue, dequeue}

-- Following the links from `p` gives exactly the tasks of the list, and then no more.
abbrev pub IsChain : (ℕ → Task) → Option ℕ → List ℕ → Type 0
IsChain tasks p [] = p ≡ none
IsChain tasks p (x ∷ xs) = (p ≡ some x) × IsChain tasks (tasks x).next xs

abbrev pub IsAbsent : ℕ → List ℕ → Type 0
IsAbsent t [] = Unit {0}
IsAbsent t (x ∷ xs) = (t ≢ x) × IsAbsent t xs

abbrev pub IsDistinct : List ℕ → Type 0
IsDistinct [] = Unit {0}
IsDistinct (x ∷ xs) = IsAbsent x xs × IsDistinct xs

abbrev pub AllReady : (ℕ → Task) → List ℕ → Type 0
AllReady tasks [] = Unit {0}
AllReady tasks (x ∷ xs) = ((tasks x).state ≡ ready) × AllReady tasks xs

abbrev pub last_of : List ℕ → Option ℕ
last_of [] = none
last_of (x ∷ []) = some x
last_of (x ∷ y ∷ ys) = last_of (y ∷ ys)

-- The scheduler's ready queue holds the tasks `q`, each once and each in state READY.
pub record IsQueue (s : Scheduler) (q : List ℕ) : Type 0 where
  pub chain : IsChain s.tasks s.ready_head q
  pub tail : s.ready_tail ≡ last_of q
  pub distinct : IsDistinct q
  pub all_ready : AllReady s.tasks q

module _ (tasks : ℕ → Task) (t : ℕ) (v : Task) where
  pub IsChain-write :
      (p : Option ℕ) (q : List ℕ) → IsAbsent t q → IsChain tasks p q → IsChain (write tasks t v) p q
  IsChain-write p [] a c = c
  IsChain-write p (x ∷ xs) a c = (
    c.0,
    rw (write_lem tasks t v x, ==-eq-false (λ e. a.0 (sym e)))
        (IsChain-write (tasks x).next xs a.1 c.1),
  )

  pub AllReady-write : (q : List ℕ) → IsAbsent t q → AllReady tasks q → AllReady (write tasks t v) q
  AllReady-write [] a r = tt
  AllReady-write (x ∷ xs) a r = (ground (arith, write_lem tasks t v x), AllReady-write xs a.1 r.1)

pub IsAbsent-append : (t u : ℕ) (q : List ℕ) → IsAbsent t q → t ≢ u → IsAbsent t (q ++ (u ∷ []))
IsAbsent-append t u [] a ne = (ne, tt)
IsAbsent-append t u (x ∷ xs) a ne = (a.0, IsAbsent-append t u xs a.1 ne)

pub IsDistinct-append :
    (t : ℕ) (q : List ℕ) → IsDistinct q → IsAbsent t q → IsDistinct (q ++ (t ∷ []))
IsDistinct-append t [] d a = (tt, tt)
IsDistinct-append t (x ∷ xs) d a =
    (IsAbsent-append x t xs d.0 (λ e. a.0 (sym e)), IsDistinct-append t xs d.1 a.1)

pub AllReady-append :
    (tasks : ℕ → Task) (t : ℕ) (q : List ℕ)
    → AllReady tasks q
    → (tasks t).state ≡ ready
    → AllReady tasks (q ++ (t ∷ []))
AllReady-append tasks t [] r e = (e, tt)
AllReady-append tasks t (x ∷ xs) r e = (r.0, AllReady-append tasks t xs r.1 e)

last_of-cons : (x : ℕ) (xs : List ℕ) → (last : ℕ) × (last_of (x ∷ xs) ≡ some last)
last_of-cons x [] = (x, refl)
last_of-cons x (y ∷ ys) = last_of-cons y ys

last_of-append : (t : ℕ) (q : List ℕ) → last_of (q ++ (t ∷ [])) ≡ some t
last_of-append t [] = refl
last_of-append t (x ∷ []) = refl
last_of-append t (x ∷ y ∷ ys) = last_of-append t (y ∷ ys)

last_of-absent : (x last : ℕ) (q : List ℕ) → last_of q ≡ some last → IsAbsent x q → x ≢ last
last_of-absent x last [] e a = cc
last_of-absent x last (y ∷ []) e a = λ h. ground arith
last_of-absent x last (y ∷ z ∷ zs) e a = last_of-absent x last (z ∷ zs) e a.1

next-set_next :
    (tasks : ℕ → Task) (t u : ℕ) (n : Option ℕ)
    → (set_next tasks t n u).next ≡ (if u == t then n else (tasks u).next)
unfolding set_next write
next-set_next tasks t u n = ground arith

state-set_next :
    (tasks : ℕ → Task) (t u : ℕ) (n : Option ℕ) → (set_next tasks t n u).state ≡ (tasks u).state
unfolding set_next write
state-set_next tasks t u n = ground arith

IsChain-snoc :
    (tasks : ℕ → Task) (t last : ℕ) (p : Option ℕ) (q : List ℕ)
    → IsChain tasks p q
    → IsDistinct q
    → last_of q ≡ some last
    → IsAbsent t q
    → (tasks t).next ≡ none
    → IsChain (set_next tasks last (some t)) p (q ++ (t ∷ []))
IsChain-snoc tasks t last p [] c d e a n = cc
IsChain-snoc tasks t last p (x ∷ []) c d e a n = (
  c.0,
  (
    ground (arith, next-set_next tasks last x (some t)),
    ground (arith, next-set_next tasks last t (some t)),
  ),
)
IsChain-snoc tasks t last p (x ∷ y ∷ ys) c d e a n = (
  c.0,
  rw (next-set_next tasks last x (some t), ==-eq-false (last_of-absent x last (y ∷ ys) e d.0))
      (IsChain-snoc tasks t last (tasks x).next (y ∷ ys) c.1 d.1 e a.1 n),
)

AllReady-set_next :
    (tasks : ℕ → Task) (t : ℕ) (n : Option ℕ) (q : List ℕ)
    → AllReady tasks q
    → AllReady (set_next tasks t n) q
AllReady-set_next tasks t n [] r = tt
AllReady-set_next tasks t n (x ∷ xs) r =
    (state-set_next tasks t x n ∙ r.0, AllReady-set_next tasks t n xs r.1)

enqueue-empty :
    (s : Scheduler) (t : ℕ)
    → s.ready_head ≡ none
    → enqueue t s ≡ record s { ready_head = some t; ready_tail = some t }
unfolding enqueue
enqueue-empty s t e = ground arith

enqueue-behind :
    (s : Scheduler) (t h last : ℕ)
    → s.ready_head ≡ some h
    → s.ready_tail ≡ some last
    → enqueue t s ≡ record s { tasks = set_next s.tasks last (some t); ready_tail = some t }
unfolding enqueue
enqueue-behind s t h last e e' = ground arith

-- Appending a task that is ready, linked to nothing and not in the queue.
pub enqueue-IsQueue :
    (s : Scheduler) (t : ℕ) (q : List ℕ)
    → IsQueue s q
    → IsAbsent t q
    → (s.tasks t).next ≡ none
    → (s.tasks t).state ≡ ready
    → IsQueue (enqueue t s) (q ++ (t ∷ []))
enqueue-IsQueue s t [] v a n r =
    subst (λ u. IsQueue u (t ∷ [])) (sym (enqueue-empty s t v.chain))
      (record { chain = (refl, n); tail = refl; distinct = (tt, tt); all_ready = (r, tt) })
enqueue-IsQueue s t (x ∷ xs) v a n r =
    let (last, e) = last_of-cons x xs in
    subst (λ u. IsQueue u ((x ∷ xs) ++ (t ∷ [])))
      (sym (enqueue-behind s t x last v.chain.0 (v.tail ∙ e)))
      (record {
        chain = IsChain-snoc s.tasks t last s.ready_head (x ∷ xs) v.chain v.distinct e a n;
        tail = sym (last_of-append t (x ∷ xs));
        distinct = IsDistinct-append t (x ∷ xs) v.distinct a;
        all_ready =
            AllReady-append (set_next s.tasks last (some t)) t (x ∷ xs)
              (AllReady-set_next s.tasks last (some t) (x ∷ xs) v.all_ready)
              (state-set_next s.tasks last t (some t) ∙ r);
      })

dequeue-last :
    (s : Scheduler) (h : ℕ)
    → (s.tasks h).next ≡ none
    → dequeue h s ≡ record s { ready_head = none; ready_tail = none }
unfolding dequeue
dequeue-last s h e = ground arith

dequeue-more :
    (s : Scheduler) (h n : ℕ)
    → (s.tasks h).next ≡ some n
    → dequeue h s ≡ record s { ready_head = some n }
unfolding dequeue
dequeue-more s h n e = ground arith

-- Taking the head.
pub dequeue-IsQueue :
    (s : Scheduler) (x : ℕ) (xs : List ℕ) → IsQueue s (x ∷ xs) → IsQueue (dequeue x s) xs
dequeue-IsQueue s x [] v =
    subst (λ u. IsQueue u []) (sym (dequeue-last s x v.chain.1))
      (record { chain = refl; tail = refl; distinct = tt; all_ready = tt })
dequeue-IsQueue s x (y ∷ ys) v =
    subst (λ u. IsQueue u (y ∷ ys)) (sym (dequeue-more s x y v.chain.1.0))
      (record {
        chain = (refl, v.chain.1.1);
        tail = v.tail;
        distinct = v.distinct.1;
        all_ready = v.all_ready.1;
      })

-- Neither touches another part of the scheduler.
pub dequeue-rest :
    (s : Scheduler) (h : ℕ)
    → ((dequeue h s).tasks ≡ s.tasks)
      × ((dequeue h s).current_task ≡ s.current_task)
      × ((dequeue h s).kernel_pml4_phys ≡ s.kernel_pml4_phys)
      × ((dequeue h s).cr3 ≡ s.cr3)
      × ((dequeue h s).rsp0 ≡ s.rsp0)
      × ((dequeue h s).switches ≡ s.switches)
unfolding dequeue
dequeue-rest s h = ground arith

pub enqueue-rest :
    (s : Scheduler) (t : ℕ)
    → ((enqueue t s).current_task ≡ s.current_task)
      × ((enqueue t s).kernel_pml4_phys ≡ s.kernel_pml4_phys)
      × ((enqueue t s).cr3 ≡ s.cr3)
      × ((enqueue t s).rsp0 ≡ s.rsp0)
      × ((enqueue t s).switches ≡ s.switches)
      × ((u : ℕ) → ((enqueue t s).tasks u).state ≡ (s.tasks u).state)
      × ((u : ℕ) → ((enqueue t s).tasks u).kernel_stack_top ≡ (s.tasks u).kernel_stack_top)
      × ((u : ℕ) → ((enqueue t s).tasks u).pml4_phys ≡ (s.tasks u).pml4_phys)
unfolding enqueue set_next write
enqueue-rest s t = ground arith
