-- ===== src/Executor/Turns.antt =====
-- The tasks are polled in the order in which they were queued.
use inel.Base.{
  ℕ, zero, suc, ◌+◌, ◌≤◌, ◌≡◌, refl, sym, ap, ◌∙◌, Bool-cases, List, [], ◌∷◌, ◌++◌, length, drop,
  append_assoc, append-nil, arith, ◌⊎◌, inl, inr,
}
use inel.Executor.{
  Executor, schedule, spawn, wake, drop_rc, end_poll, clone_rc, is_scheduled, begin_poll,
}
use inel.Executor.Run.{
  System, Step, poll, check, return_from, clone_waker, wake_by_value, wake_by_ref, drop_waker,
  spawn_task, polls, checks, waits, resumes, returns, clones, wakes, wakes_by_ref, drops, spawns,
}

pub data Steps (s : System) : System → Type 0 where
  none : Steps s s
  then_one : {t u : System} → Steps s t → Step t u → Steps s u

-- Whether a step begins a poll, and how many of the steps do.
unfoldable pub begun : {s t : System} → Step s t → ℕ
begun (polls i rest p q) = 1
begun (checks p) = 0
begun (waits p q) = 0
begun (resumes p) = 0
begun (returns i p) = 0
begun (clones i h) = 0
begun (wakes i h) = 0
begun (wakes_by_ref i h) = 0
begun (drops i h) = 0
begun spawns = 0

unfoldable pub polls_begun : {s t : System} → Steps s t → ℕ
unfolding begun
polls_begun none = 0
polls_begun (then_one r t) = polls_begun r + begun t

pub schedule-queue :
    (i : ℕ) (e : Executor) → (more : List ℕ) × ((schedule i e).queue ≡ e.queue ++ more)
unfolding schedule clone_rc
schedule-queue i e = elim (Bool-cases (is_scheduled e.tasks i)) [
  | inl y ↦ ([], rw y (sym (append-nil e.queue)))
  | inr y ↦ (i ∷ [], rw y refl)
]

pub step-queue :
    {s t : System} (m : Step s t)
    → ((begun m ≡ 0) × ((more : List ℕ) × (t.executor.queue ≡ s.executor.queue ++ more)))
      ⊎ ((begun m ≡ 1) × ((i : ℕ) × (s.executor.queue ≡ i ∷ t.executor.queue)))
unfolding begun check poll return_from clone_waker wake_by_value wake_by_ref drop_waker spawn_task
    wake spawn drop_rc clone_rc end_poll begin_poll
step-queue {s} (polls i rest p q) = inr (refl, (i, q))
step-queue {s} (checks p) = inl (refl, ([], sym (append-nil s.executor.queue)))
step-queue {s} (waits p q) = inl (refl, ([], sym (append-nil s.executor.queue)))
step-queue {s} (resumes p) = inl (refl, ([], sym (append-nil s.executor.queue)))
step-queue {s} (returns i p) = inl (refl, ([], sym (append-nil s.executor.queue)))
step-queue {s} (clones i h) = inl (refl, ([], sym (append-nil s.executor.queue)))
step-queue {s} (wakes i h) = inl (refl, schedule-queue i s.executor)
step-queue {s} (wakes_by_ref i h) = inl (refl, schedule-queue i s.executor)
step-queue {s} (drops i h) = inl (refl, ([], sym (append-nil s.executor.queue)))
step-queue {s} spawns = inl (refl, schedule-queue (length s.executor.tasks) _)

next_in_front :
    (n : ℕ) (front back : List ℕ) (i : ℕ) (rest : List ℕ)
    → suc n ≤ length front
    → drop n front ++ back ≡ i ∷ rest
    → rest ≡ drop (suc n) front ++ back
next_in_front n [] back i rest h q = absurd (omega (arith, h))
next_in_front zero (x ∷ front) back i rest h q = ap (drop 1) (sym q)
next_in_front (suc n) (x ∷ front) back i rest h q =
    next_in_front n front back i rest (omega (arith, h)) q

-- Whatever happens meanwhile, while no more polls begin than there are tasks in front of a queued
-- task, that task stays in the queue, behind exactly those that have not been polled yet: after
-- that many polls it is the next.
pub polled_in_turn :
    {s t : System} (r : Steps s t) (front back : List ℕ) (j : ℕ)
    → s.executor.queue ≡ front ++ (j ∷ back)
    → polls_begun r ≤ length front
    → (later : List ℕ) × (t.executor.queue ≡ drop (polls_begun r) front ++ (j ∷ later))
unfolding polls_begun
polled_in_turn none front back j q h = (back, q)
polled_in_turn (then_one {t} {u} r m) front back j q h =
    let (later, e) = polled_in_turn r front back j q (omega (arith, h)) in
    elim (step-queue m) [
      | inl (begun_eq, (more, f)) ↦ (
        later ++ more,
        let same : polls_begun r + begun m ≡ polls_begun r = omega (arith, begun_eq) in
            rw same
              (f ∙ ap (◌++ more) e ∙ append_assoc (drop (polls_begun r) front) (j ∷ later) more),
      )
      | inr (begun_eq, (i, f)) ↦ (
        later,
        let one_more : polls_begun r + begun m ≡ suc (polls_begun r) = omega (arith, begun_eq) in
            rw one_more (
              next_in_front (polls_begun r) front (j ∷ later) i u.executor.queue
                (omega (arith, h, begun_eq)) (sym e ∙ f)),
      )
    ]
