-- ===== src/Executor/Starved.antt =====
-- A task that wakes itself while it is polled, and the loop that drains the queue in executor.rs.
pub mod Forever
use inel.Base.{
  and_left, and_right, ℕ, ◌≢◌, sym, eq-or-ne, append-nil, length, zero, suc, ◌+◌, ◌<◌, ◌≡◌, refl,
  ap, Bool, true, false, not, ◌||◌, ◌&&◌, ◌==◌, Bool-cases, List, ◌++◌, ◌⊎◌, ◌∙◌, [], ◌∷◌, count,
  count-append, arith, inl, inr,
}
use inel.Executor.{
  Executor, Task, modify, more, with_flag, is_scheduled, wake, spawn, schedule, begin_poll,
  end_poll, clone_rc, drop_rc,
}
use inel.Executor.Tasks.{is_scheduled-flag}
use inel.Executor.Balance.{Balances, held-within}
use inel.Executor.Run.{
  System, draining, polling, by_loop, held, Step, checking, waiting, checks, polls, waits, resumes,
  returns, clones, wakes, wakes_by_ref, drops, spawns, clone_waker, wake_by_value, drop_waker,
  spawn_task, Reached, next, poll, return_from, wake_by_ref, Reached-Balances,
}
use inel.Executor.Turns.{Steps, none, then_one, begun, polls_begun, schedule-queue}

pub polled-held : (s : System) (i : ℕ) → s.phase ≡ polling i → 0 < held s i
unfolding held by_loop
polled-held s i p = ground (arith, ap (λ f. by_loop f i) p)

-- Whether a poll of the task that ends here has set its flag, as a task that wakes itself does.
unfoldable pub sets_flag : ℕ → {s t : System} → Step s t → Bool
sets_flag i {s} (returns j p) = not (j == i) || is_scheduled s.executor.tasks i
sets_flag i (polls j rest p q) = true
sets_flag i (checks p) = true
sets_flag i (waits p q) = true
sets_flag i (resumes p) = true
sets_flag i (clones j h) = true
sets_flag i (wakes j h) = true
sets_flag i (wakes_by_ref j h) = true
sets_flag i (drops j h) = true
sets_flag i spawns = true

unfoldable pub wakes_itself : ℕ → {s t : System} → Steps s t → Bool
unfolding sets_flag
wakes_itself i none = true
wakes_itself i (then_one path m) = sets_flag i m && wakes_itself i path

-- The loop drains its queue, which holds the task unless it is being polled.
IsBusy : ℕ → System → Type 0
IsBusy i s =
    ((s.phase ≡ draining) × (0 < count i s.executor.queue))
    ⊎ ((j : ℕ) × (s.phase ≡ polling j) × ((j ≡ i) ⊎ (0 < count i s.executor.queue)))

count-more : (i : ℕ) (xs ys : List ℕ) → 0 < count i xs → 0 < count i (xs ++ ys)
count-more i xs ys h = omega (arith, h, count-append i xs ys)

-- A step that leaves the phase, and takes nothing off the queue.
kept-IsBusy :
    (i : ℕ) (s t : System) (more : List ℕ)
    → t.phase ≡ s.phase
    → t.executor.queue ≡ s.executor.queue ++ more
    → IsBusy i s
    → IsBusy i t
unfolding IsBusy
kept-IsBusy i s t more p q (inl (d, h)) = inl (p ∙ d, rw q (count-more i s.executor.queue more h))
kept-IsBusy i s t more p q (inr (j, d, inl e)) = inr (j, p ∙ d, inl e)
kept-IsBusy i s t more p q (inr (j, d, inr h)) =
    inr (j, p ∙ d, inr (rw q (count-more i s.executor.queue more h)))

polled_scheduled :
    (s : System) (i : ℕ)
    → Reached s
    → s.phase ≡ polling i
    → is_scheduled s.executor.tasks i ≡ true
    → 0 < count i s.executor.queue
unfolding Balances held by_loop
polled_scheduled s i r p flag = ground (
  arith,
  flag,
  (Reached-Balances r i).1,
  is_scheduled-flag s.executor.tasks i
      (held-within s.executor (held s) i (Reached-Balances r) (polled-held s i p)),
)

-- One that the loop begins to poll.
polls-IsBusy :
    (s : System) (i j : ℕ) (rest : List ℕ)
    → s.phase ≡ draining
    → s.executor.queue ≡ j ∷ rest
    → IsBusy i s
    → IsBusy i (poll j rest s)
unfolding IsBusy poll begin_poll clone_rc
polls-IsBusy s i j rest p q (inl (d, h)) = elim (eq-or-ne j i) [
  | inl y ↦ inr (j, refl, inl y)
  | inr n ↦ inr (j, refl, inr (ground (arith, n, h, ap (count i) q)))
]
polls-IsBusy s i j rest p q (inr (k, d, h)) = cc

-- The end of a poll, of the task with its flag set or of another.
returns-IsBusy :
    (s : System) (i j : ℕ)
    → Reached s
    → s.phase ≡ polling j
    → (not (j == i) || is_scheduled s.executor.tasks i) ≡ true
    → IsBusy i s
    → IsBusy i (return_from j s)
unfolding IsBusy return_from end_poll drop_rc
returns-IsBusy s i j r p flag (inl (d, h)) = cc
returns-IsBusy s i j r p flag (inr (k, d, inr h)) = inl (refl, h)
returns-IsBusy s i j r p flag (inr (k, d, inl e)) =
    let same : j ≡ k = cc in
    let mine : j ≡ i = same ∙ e in
    inl (refl, polled_scheduled s i r (d ∙ ap polling e) (ground (arith, flag, mine)))

-- The other phases, and a wait, are not those of a busy loop.
elsewhere : (s : System) (i : ℕ) → IsBusy i s → (s.phase ≡ checking) ⊎ (s.phase ≡ waiting) → ⊥
unfolding IsBusy
elsewhere s i (inl (d, h)) (inl p) = cc
elsewhere s i (inl (d, h)) (inr p) = cc
elsewhere s i (inr (j, d, h)) (inl p) = cc
elsewhere s i (inr (j, d, h)) (inr p) = cc

not_empty : (s : System) (i : ℕ) → s.phase ≡ draining → s.executor.queue ≡ [] → IsBusy i s → ⊥
unfolding IsBusy
not_empty s i p q (inl (d, h)) = omega (arith, h, ap (count i) q)
not_empty s i p q (inr (j, d, h)) = cc

draining≢waiting : draining ≢ waiting
draining≢waiting e = cc

polling≢waiting : (j : ℕ) → polling j ≢ waiting
polling≢waiting j e = cc

step-IsBusy :
    {s t : System} (i : ℕ)
    → Reached s
    → IsBusy i s
    → (m : Step s t) → sets_flag i m ≡ true
    → IsBusy i t
unfolding sets_flag clone_waker wake_by_value wake_by_ref drop_waker spawn_task wake spawn drop_rc
    clone_rc
step-IsBusy {s} i r busy (returns j p) flag = returns-IsBusy s i j r p flag busy
step-IsBusy {s} i r busy (polls j rest p q) flag = polls-IsBusy s i j rest p q busy
step-IsBusy {s} i r busy (checks p) flag = absurd (elsewhere s i busy (inl p))
step-IsBusy {s} i r busy (waits p q) flag = absurd (not_empty s i p q busy)
step-IsBusy {s} i r busy (resumes p) flag = absurd (elsewhere s i busy (inr p))
step-IsBusy {s} i r busy (clones j h) flag =
    kept-IsBusy i s _ [] refl (sym (append-nil s.executor.queue)) busy
step-IsBusy {s} i r busy (drops j h) flag =
    kept-IsBusy i s _ [] refl (sym (append-nil s.executor.queue)) busy
step-IsBusy {s} i r busy (wakes j h) flag =
    let (more, q) = schedule-queue j s.executor in kept-IsBusy i s _ more refl q busy
step-IsBusy {s} i r busy (wakes_by_ref j h) flag =
    let (more, q) = schedule-queue j s.executor in kept-IsBusy i s _ more refl q busy
step-IsBusy {s} i r busy spawns flag =
    let (more, q) = schedule-queue (length s.executor.tasks) _ in kept-IsBusy i s _ more refl q busy

steps-IsBusy :
    {s t : System} (i : ℕ) (path : Steps s t)
    → Reached s
    → IsBusy i s
    → wakes_itself i path ≡ true
    → Reached t × IsBusy i t
unfolding wakes_itself
steps-IsBusy i none r busy w = (r, busy)
steps-IsBusy i (then_one path m) r busy w =
    let (r', busy') = steps-IsBusy i path r busy (and_right (sets_flag i m) _ w) in
    (next r' m, step-IsBusy i r' busy' m (and_left (sets_flag i m) _ w))

-- From a state that the loop reaches and in which it drains its queue with some task in it, along
-- whatever steps of the loop, of the futures and of others, in which each poll of that task ends
-- with its flag set, as it does if the task wakes itself: the loop goes on draining the queue or
-- polling a task of it. It never comes to wait for the reactor, nor to check whether it is done.
pub never_waits :
    {s t : System} (i : ℕ) (path : Steps s t)
    → Reached s
    → s.phase ≡ draining
    → 0 < count i s.executor.queue
    → wakes_itself i path ≡ true
    → (t.phase ≢ waiting) × ((t.phase ≡ draining) ⊎ ((j : ℕ) × (t.phase ≡ polling j)))
unfolding IsBusy
never_waits {t = t} i path r d h w = elim ((steps-IsBusy i path r (inl (d, h)) w).1) [
  | inl (e, _) ↦ (λ x. draining≢waiting (sym e ∙ x), inl e)
  | inr (j, e, _) ↦ (λ x. polling≢waiting j (sym e ∙ x), inr (j, e))
]
