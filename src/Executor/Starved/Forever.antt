-- ===== src/Executor/Starved/Forever.antt =====
-- A task that is alone in the queue and wakes itself is polled any number of times.
use inel.Base.{
  ℕ, zero, suc, ◌+◌, ◌≡◌, refl, ap, true, false, Bool-cases, List, [], ◌∷◌, count, arith, inl, inr,
}
use inel.Executor.{
  Executor, Task, modify, more, with_flag, is_scheduled, schedule, begin_poll, end_poll, clone_rc,
  drop_rc,
}
use inel.Executor.Tasks.{is_scheduled-flag}
use inel.Executor.Balance.{Balances, held-within}
use inel.Executor.Run.{
  System, draining, polling, by_loop, held, Step, polls, returns, wakes_by_ref, Reached, next, poll,
  return_from, wake_by_ref, Reached-Balances,
}
use inel.Executor.Starved.{polled-held, sets_flag, wakes_itself}
use inel.Executor.Turns.{Steps, none, then_one, begun, polls_begun}

-- One turn of the loop with a task that wakes itself.
turn : ℕ → System → System
turn i s = return_from i (wake_by_ref i (poll i [] s))

-- The loop drains a queue that holds the task and no other.
unfoldable pub IsAlone : ℕ → System → Type 0
IsAlone i s = (s.phase ≡ draining) × (s.executor.queue ≡ i ∷ [])

polled_unscheduled :
    (s : System) (i : ℕ)
    → Reached s
    → s.phase ≡ polling i
    → s.executor.queue ≡ []
    → is_scheduled s.executor.tasks i ≡ false
unfolding Balances held by_loop
polled_unscheduled s i r p q = elim (Bool-cases (is_scheduled s.executor.tasks i)) [
  | inr y ↦ y
  | inl y ↦ absurd (
      ground (
        arith,
        y,
        (Reached-Balances r i).1,
        ap (count i) q,
        is_scheduled-flag s.executor.tasks i
            (held-within s.executor (held s) i (Reached-Balances r) (polled-held s i p)),
      ))
]

flag_set :
    (i : ℕ) (ts : List Task) → is_scheduled (modify i more (modify i (with_flag true) ts)) i ≡ true
unfolding is_scheduled modify
flag_set i [] = refl
flag_set zero (t ∷ ts) = refl
flag_set (suc i) (t ∷ ts) = flag_set i ts

schedule-is_scheduled : (i : ℕ) (e : Executor) → is_scheduled (schedule i e).tasks i ≡ true
unfolding schedule clone_rc
schedule-is_scheduled i e = elim (Bool-cases (is_scheduled e.tasks i)) [
  | inl y ↦ rw y y
  | inr n ↦ rw n (flag_set i e.tasks)
]

turn-IsAlone :
    {s : System} (t : System) (i : ℕ) (path : Steps s t)
    → Reached t
    → IsAlone i t
    → wakes_itself i path ≡ true
    → (onward : Steps s (turn i t)) × (polls_begun onward ≡ polls_begun path + 1)
      × (wakes_itself i onward ≡ true)
      × Reached (turn i t)
      × IsAlone i (turn i t)
unfolding turn IsAlone poll return_from wake_by_ref begin_poll end_poll clone_rc drop_rc schedule
    polls_begun begun wakes_itself sets_flag
turn-IsAlone t i path r (p, q) w = (
  then_one (then_one (then_one path first) second) third,
  omega arith,
  rw (schedule-is_scheduled i (begin_poll i [] t.executor), w) (ground arith),
  next (next r1 second) third,
  (refl, rw (polled_unscheduled (poll i [] t) i r1 refl refl) refl),
)
  where
    first : Step t (poll i [] t)
    first = polls i [] p q

    r1 : Reached (poll i [] t)
    r1 = next r first

    second : Step (poll i [] t) (wake_by_ref i (poll i [] t))
    second = wakes_by_ref i (polled-held (poll i [] t) i refl)

    third : Step (wake_by_ref i (poll i [] t)) (turn i t)
    third = returns i refl

-- From a state that the loop reaches and in which it drains a queue of one task, for any number there
-- are steps with that many polls, each of which wakes the task, that lead back to such a state.
pub starves :
    (s : System) (i : ℕ)
    → Reached s
    → IsAlone i s
    → (n : ℕ)
    → (t : System) × (path : Steps s t) × (polls_begun path ≡ n)
      × (wakes_itself i path ≡ true)
      × Reached t
      × IsAlone i t
unfolding polls_begun wakes_itself
starves s i r alone zero = (s, none, refl, refl, r, alone)
starves s i r alone (suc n) =
    let (t, path, e, w, r', alone') = starves s i r alone n in
    let (onward, f, w', r'', alone'') = turn-IsAlone t i path r' alone' w in
    (turn i t, onward, omega (arith, e, f), w', r'', alone'')
