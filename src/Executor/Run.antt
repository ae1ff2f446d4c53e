-- ===== src/Executor/Run.antt =====
-- `Executor::run` in executor.rs as steps: those of its loop, and between them what the futures that
-- it polls and the reactor that it waits for do with the wakers.
use inel.Base.{
  ℕ, ◌+◌, ◌-◌, ◌*◌, ◌<◌, ◌≡◌, refl, ap, Bool-cases, List, [], ◌∷◌, count, ◌==◌, if◌then◌else◌,
  arith, inl, inr, eq-or-ne,
}
use inel.Executor.{
  Executor, clone_rc, drop_rc, schedule, spawn, begin_poll, end_poll, wake, is_done,
}
use inel.Executor.Tasks.{one_at, tally}
use inel.Executor.Balance.{
  Balances, Balances-cong, clone_rc-Balances, drop_rc-Balances, schedule-Balances,
  begin_poll-Balances, end_poll-Balances, wake-Balances, spawn-Balances, held-within,
}

-- Where the loop stands.
pub data Phase : Type 0 where
  checking draining waiting stopped : Phase
  polling : ℕ → Phase

-- `wakers` are those that futures, the reactor and others keep, by their tasks.
pub record System : Type 0 where
  pub executor : Executor
  pub wakers : List ℕ
  pub phase : Phase

unfoldable pub remove : ℕ → List ℕ → List ℕ
remove j [] = []
remove j (i ∷ is) = let rest = remove j is in if i == j then is else (i ∷ rest)

-- The body of the loop holds the task and its waker.
unfoldable pub by_loop : Phase → ℕ → ℕ
by_loop p i = elim p [ polling j ↦ 2 * one_at j i | _ ↦ 0 ]

unfoldable pub held : System → ℕ → ℕ
unfolding by_loop
held s i = count i s.wakers + by_loop s.phase i

unfoldable pub started : System
started = record { executor = record { tasks = []; queue = [] }; wakers = []; phase = checking }

unfoldable pub check : System → System
check s = record s { phase = if is_done s.executor then stopped else draining }

unfoldable pub poll : ℕ → List ℕ → System → System
poll i rest s = record s { executor = begin_poll i rest s.executor; phase = polling i }

unfoldable pub return_from : ℕ → System → System
return_from i s = record s { executor = end_poll i s.executor; phase = draining }

unfoldable pub clone_waker : ℕ → System → System
clone_waker i s = record s { executor = clone_rc i s.executor; wakers = i ∷ s.wakers }

unfoldable pub wake_by_value : ℕ → System → System
unfolding remove
wake_by_value i s = record s { executor = wake i s.executor; wakers = remove i s.wakers }

unfoldable pub wake_by_ref : ℕ → System → System
wake_by_ref i s = record s { executor = schedule i s.executor }

unfoldable pub drop_waker : ℕ → System → System
unfolding remove
drop_waker i s = record s { executor = drop_rc i s.executor; wakers = remove i s.wakers }

unfoldable pub spawn_task : System → System
spawn_task s = record s { executor = spawn s.executor }

pub data Step (s : System) : System → Type 0 where
  checks : s.phase ≡ checking → Step s (check s)
  polls :
      (i : ℕ) (rest : List ℕ)
      → s.phase ≡ draining
      → s.executor.queue ≡ i ∷ rest
      → Step s (poll i rest s)
  waits : s.phase ≡ draining → s.executor.queue ≡ [] → Step s (record s { phase = waiting })
  resumes : s.phase ≡ waiting → Step s (record s { phase = checking })
  returns : (i : ℕ) → s.phase ≡ polling i → Step s (return_from i s)
  clones : (i : ℕ) → 0 < held s i → Step s (clone_waker i s)
  wakes : (i : ℕ) → 0 < count i s.wakers → Step s (wake_by_value i s)
  wakes_by_ref : (i : ℕ) → 0 < held s i → Step s (wake_by_ref i s)
  drops : (i : ℕ) → 0 < count i s.wakers → Step s (drop_waker i s)
  spawns : Step s (spawn_task s)

pub data Reached : System → Type 0 where
  start : Reached started
  next : {s t : System} → Reached s → Step s t → Reached t

count-remove : (i j : ℕ) (xs : List ℕ) → count i (remove j xs) ≡ count i xs - one_at j i
unfolding remove
count-remove i j [] = ground arith
count-remove i j (x ∷ xs) = ground (arith, count-remove i j xs)

removed :
    (s : System) (i k : ℕ)
    → 0 < count i s.wakers
    → held s k - one_at i k ≡ count k (remove i s.wakers) + by_loop s.phase k
unfolding held
removed s i k h = elim (eq-or-ne k i) [
  | inl y ↦ rw y (ground (arith, count-remove i i s.wakers, h))
  | inr y ↦ ground (arith, y, count-remove k i s.wakers)
]

rephase-Balances :
    (s : System) (p : Phase)
    → ((k : ℕ) → by_loop s.phase k ≡ by_loop p k)
    → Balances s.executor (held s)
    → Balances s.executor (held (record s { phase = p }))
unfolding held
rephase-Balances s p same b =
    Balances-cong s.executor (held s) (held (record s { phase = p }))
      (λ k. ap (count k s.wakers +◌) (same k)) b

pub step-Balances :
    {s t : System} → Balances s.executor (held s) → Step s t → Balances t.executor (held t)
unfolding held by_loop check poll return_from clone_waker wake_by_value wake_by_ref drop_waker
    spawn_task
step-Balances {s} b (checks p) =
    rephase-Balances s ((check s).phase)
      (λ k. elim (Bool-cases (is_done s.executor)) [
        | inl y ↦ rw (p, y) refl
        | inr y ↦ rw (p, y) refl
      ])
      b
step-Balances {s} b (polls i rest p q) =
    Balances-cong _ _ _ (λ k. omega (arith, ap (λ p. by_loop p k) p))
      (begin_poll-Balances s.executor (held s) i b rest q)
step-Balances {s} b (waits p q) = rephase-Balances s waiting (λ k. ap (λ p. by_loop p k) p) b
step-Balances {s} b (resumes p) = rephase-Balances s checking (λ k. ap (λ p. by_loop p k) p) b
step-Balances {s} b (returns i p) =
    Balances-cong _ _ _ (λ k. omega (arith, ap (λ p. by_loop p k) p))
      (end_poll-Balances s.executor (held s) i b (ground (arith, ap (λ p. by_loop p i) p)))
step-Balances {s} b (clones i h) =
    Balances-cong _ _ _ (λ k. ground arith)
      (clone_rc-Balances s.executor (held s) i b (held-within s.executor (held s) i b h))
step-Balances {s} b (wakes i h) =
    Balances-cong _ _ _ (λ k. removed s i k h)
      (wake-Balances s.executor (held s) i b (omega (arith, h)))
step-Balances {s} b (wakes_by_ref i h) =
    schedule-Balances s.executor (held s) i b (held-within s.executor (held s) i b h)
step-Balances {s} b (drops i h) =
    Balances-cong _ _ _ (λ k. removed s i k h)
      (drop_rc-Balances s.executor (held s) i b (omega (arith, h)))
step-Balances {s} b spawns = spawn-Balances s.executor (held s) b

-- In every state that spawning, the steps of the loop, and clones, wakes and drops of wakers lead
-- to, in any order, each task is counted once for each place in the queue, once for each waker that
-- is kept, and twice while it is polled; it stands in the queue once if its flag is set, and
-- nowhere if it is not.
pub Reached-Balances : {s : System} → Reached s → Balances s.executor (held s)
unfolding started held Balances tally
Reached-Balances start = λ i. (refl, refl)
Reached-Balances (next r t) = step-Balances (Reached-Balances r) t
