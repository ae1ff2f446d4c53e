-- ===== src/Executor/Done.antt =====
-- When the loop of the executor stops, and what a wake does to the queue.
use inel.Base.{
  ℕ, ◌+◌, ◌<◌, ◌≡◌, ◌↔◌, refl, ap, Bool-cases, true, List, [], ◌∷◌, length, count, count-append,
  arith, inl, inr,
}
use inel.Executor.{Executor, is_scheduled, schedule, senders, is_done, wake, drop_rc}
use inel.Executor.Tasks.{
  tally, strong_of, flag_of, is_scheduled-flag, none_of_senders, senders_of_none,
}
use inel.Executor.Balance.{Balances, held-within}
use inel.Executor.Run.{
  System, checking, by_loop, held, Reached, Reached-Balances, wake_by_value, wake_by_ref,
}

nil_of_count : (xs : List ℕ) → ((i : ℕ) → count i xs ≡ 0) → xs ≡ []
nil_of_count [] h = refl
nil_of_count (x ∷ xs) h = absurd (ground (arith, h x))

is_done-senders : (e : Executor) → (is_done e ≡ true) ↔ (senders e.tasks ≡ 0)
unfolding is_done
is_done-senders e = (λ h. ground (arith, h), λ h. ground (arith, h))

-- Where the loop checks, in a state that it reaches, it stops exactly when no task is queued and no
-- waker of any task is kept: it never stops while a task can still run.
pub stops_iff :
    (s : System)
    → Reached s
    → s.phase ≡ checking
    → (is_done s.executor ≡ true) ↔ ((s.executor.queue ≡ []) × (s.wakers ≡ []))
unfolding Balances held by_loop
stops_iff s r p = (forth, back)
  where
    balance :
        (i : ℕ)
        → (tally strong_of s.executor.tasks i
            ≡ count i s.executor.queue + (count i s.wakers + by_loop s.phase i))
          × (count i s.executor.queue ≡ tally flag_of s.executor.tasks i)
    balance = Reached-Balances r

    forth : is_done s.executor ≡ true → (s.executor.queue ≡ []) × (s.wakers ≡ [])
    forth h =
        let none : (i : ℕ) → tally strong_of s.executor.tasks i ≡ 0 =
          none_of_senders s.executor.tasks ((is_done-senders s.executor).0 h) in
        (
          nil_of_count s.executor.queue (λ i. omega (arith, none i, (balance i).0)),
          nil_of_count s.wakers (λ i. omega (arith, none i, (balance i).0)),
        )

    back : (s.executor.queue ≡ []) × (s.wakers ≡ []) → is_done s.executor ≡ true
    back (q, w) = (is_done-senders s.executor).1 (
        senders_of_none s.executor.tasks (λ i.
          omega (arith, (balance i).0, ap (count i) q, ap (count i) w, ap (λ f. by_loop f i) p)))

schedule-queued :
    (e : Executor) (others : ℕ → ℕ) (j : ℕ)
    → Balances e others
    → j < length e.tasks
    → count j (schedule j e).queue ≡ 1
unfolding Balances schedule
schedule-queued e others j b h = elim (Bool-cases (is_scheduled e.tasks j)) [
  | inl y ↦ rw y (ground (arith, y, (b j).1, is_scheduled-flag e.tasks j h))
  | inr y ↦
      rw y
        (ground (arith, y, (b j).1, is_scheduled-flag e.tasks j h, count-append j e.queue (j ∷ [])))
]

-- In a state that the loop reaches, waking a task by a waker that is kept, by value or by
-- reference, leaves the task in the queue exactly once, whether it was there or not.
pub wake-queued :
    (s : System) (i : ℕ)
    → Reached s
    → 0 < count i s.wakers
    → (count i (wake_by_value i s).executor.queue ≡ 1)
      × (count i (wake_by_ref i s).executor.queue ≡ 1)
unfolding wake_by_value wake_by_ref wake drop_rc held
wake-queued s i r h = (once, once)
  where
    once : count i (schedule i s.executor).queue ≡ 1
    once =
        schedule-queued s.executor (held s) i (Reached-Balances r)
          (held-within s.executor (held s) i (Reached-Balances r) (omega (arith, h)))
