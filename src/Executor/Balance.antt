-- ===== src/Executor/Balance.antt =====
-- What each operation of the executor does to the counts and the flags of the tasks.
use inel.Base.{
  ℕ, ◌+◌, ◌-◌, ◌*◌, ◌<◌, ◌≡◌, refl, sym, ap, ◌∙◌, Bool-cases, true, false, List, [], ◌∷◌, ◌++◌,
  length, length-append, count, count-append, arith, eq-or-ne, inl, inr,
}
use inel.Executor.{
  Task, Executor, modify, more, fewer, with_flag, clone_rc, drop_rc, is_scheduled, schedule, spawn,
  begin_poll, end_poll, wake,
}
use inel.Executor.Tasks.{
  tally, strong_of, flag_of, length-modify, within_of_tally, tally-append, is_scheduled-flag,
  one_at, more-strong, fewer-strong, same-tally, flagged,
}

-- Each task is held once by each place of it in the queue and by `others`, and stands in the queue
-- once if its flag is set and nowhere if it is not.
unfoldable pub Balances : Executor → (ℕ → ℕ) → Type 0
Balances e others =
    (i : ℕ)
    → (tally strong_of e.tasks i ≡ count i e.queue + others i)
      × (count i e.queue ≡ tally flag_of e.tasks i)

pub Balances-cong :
    (e : Executor) (f g : ℕ → ℕ) → ((i : ℕ) → f i ≡ g i) → Balances e f → Balances e g
unfolding Balances
Balances-cong e f g same b i = ((b i).0 ∙ ap (count i e.queue +◌) (same i), (b i).1)

module _ (e : Executor) (others : ℕ → ℕ) (j : ℕ) (b : Balances e others) where
  pub held-within : 0 < others j → j < length e.tasks
  unfolding Balances
  held-within h = within_of_tally strong_of e.tasks j (omega (arith, (b j).0, h))

  queued-within : 0 < count j e.queue → j < length e.tasks
  unfolding Balances
  queued-within h = within_of_tally strong_of e.tasks j (omega (arith, (b j).0, h))

  pub clone_rc-Balances : j < length e.tasks → Balances (clone_rc j e) (λ i. others i + one_at j i)
  unfolding Balances clone_rc
  clone_rc-Balances h i = (
    omega (arith, more-strong e.tasks j i h, (b i).0),
    (b i).1 ∙ sym (same-tally e.tasks j flag_of more i (λ t. refl) h),
  )

  pub drop_rc-Balances : 0 < others j → Balances (drop_rc j e) (λ i. others i - one_at j i)
  unfolding Balances drop_rc
  drop_rc-Balances h i = (
    elim (eq-or-ne i j) [
      | inl y ↦ rw y (ground (arith, fewer-strong e.tasks j j (held-within h), (b j).0, h))
      | inr y ↦ ground (arith, y, fewer-strong e.tasks j i (held-within h), (b i).0)
    ],
    (b i).1 ∙ sym (same-tally e.tasks j flag_of fewer i (λ t. refl) (held-within h)),
  )

  pub schedule-Balances : j < length e.tasks → Balances (schedule j e) others
  unfolding Balances schedule
  schedule-Balances h = elim (Bool-cases (is_scheduled e.tasks j)) [
    | inl y ↦ rw y b
    | inr y ↦ rw y (λ i. (strong i, flags y i))
  ]
    where
      flagged_tasks : List Task
      flagged_tasks = modify j (with_flag true) e.tasks

      h' : j < length flagged_tasks
      h' = omega (arith, h, length-modify j (with_flag true) e.tasks)

      strong :
          (i : ℕ)
          → tally strong_of (modify j more flagged_tasks) i
            ≡ count i (e.queue ++ (j ∷ [])) + others i
      strong i = ground (
        arith,
        more-strong flagged_tasks j i h',
        same-tally e.tasks j strong_of (with_flag true) i (λ t. refl) h,
        count-append i e.queue (j ∷ []),
        (b i).0,
      )

      flags :
          is_scheduled e.tasks j ≡ false
          → (i : ℕ) → count i (e.queue ++ (j ∷ [])) ≡ tally flag_of (modify j more flagged_tasks) i
      flags y i = elim (eq-or-ne i j) [
        | inl z ↦ rw z (
            ground (
              arith,
              y,
              same-tally flagged_tasks j flag_of more j (λ t. refl) h',
              flagged e.tasks j true j h,
              count-append j e.queue (j ∷ []),
              (b j).1,
              is_scheduled-flag e.tasks j h,
            ))
        | inr z ↦ ground (
          arith,
          z,
          same-tally flagged_tasks j flag_of more i (λ t. refl) h',
          flagged e.tasks j true i h,
          count-append i e.queue (j ∷ []),
          (b i).1,
        )
      ]

  pub begin_poll-Balances :
      (rest : List ℕ)
      → e.queue ≡ j ∷ rest
      → Balances (begin_poll j rest e) (λ i. others i + 2 * one_at j i)
  unfolding Balances begin_poll clone_rc
  begin_poll-Balances rest q i = (
    ground (
      arith,
      more-strong cleared j i h',
      same-tally e.tasks j strong_of (with_flag false) i (λ t. refl) h,
      counted i,
      (b i).0,
    ),
    flags i,
  )
    where
      cleared : List Task
      cleared = modify j (with_flag false) e.tasks

      counted : (i : ℕ) → count i e.queue ≡ one_at j i + count i rest
      counted i = ground (arith, ap (count i) q)

      h : j < length e.tasks
      h = queued-within (ground (arith, counted j))

      h' : j < length cleared
      h' = omega (arith, h, length-modify j (with_flag false) e.tasks)

      flags : (i : ℕ) → count i rest ≡ tally flag_of (modify j more cleared) i
      flags i = elim (eq-or-ne i j) [
        | inl z ↦ rw z (
            ground (
              arith,
              same-tally cleared j flag_of more j (λ t. refl) h',
              flagged e.tasks j false j h,
              counted j,
              (b j).1,
              is_scheduled-flag e.tasks j h,
            ))
        | inr z ↦ ground (
          arith,
          z,
          same-tally cleared j flag_of more i (λ t. refl) h',
          flagged e.tasks j false i h,
          counted i,
          (b i).1,
        )
      ]

module _ (e : Executor) (others : ℕ → ℕ) (j : ℕ) (b : Balances e others) where
  pub wake-Balances : 0 < others j → Balances (wake j e) (λ i. others i - one_at j i)
  unfolding wake
  wake-Balances h =
      drop_rc-Balances (schedule j e) others j
        (schedule-Balances e others j b (held-within e others j b h)) h

  pub end_poll-Balances : 1 < others j → Balances (end_poll j e) (λ i. others i - 2 * one_at j i)
  unfolding end_poll
  end_poll-Balances h =
      Balances-cong (drop_rc j (drop_rc j e)) (λ i. others i - one_at j i - one_at j i)
        (λ i. others i - 2 * one_at j i) (λ i. omega arith)
        (drop_rc-Balances (drop_rc j e) (λ i. others i - one_at j i) j
          (drop_rc-Balances e others j b (omega (arith, h))) (ground (arith, h)))

pub spawn-Balances : (e : Executor) (others : ℕ → ℕ) → Balances e others → Balances (spawn e) others
unfolding spawn Balances
spawn-Balances e others b =
    Balances-cong (spawn e) (λ i. others i + one_at n i - one_at n i) others (λ i. omega arith)
      (drop_rc-Balances (schedule n added) (λ i. others i + one_at n i) n
        (schedule-Balances added (λ i. others i + one_at n i) n added-Balances
          (omega (arith, length-append e.tasks (fresh ∷ []))))
        (ground arith))
  where
    n : ℕ
    n = length e.tasks

    fresh : Task
    fresh = record { scheduled = false; strong = 1 }

    added : Executor
    added = record e { tasks = e.tasks ++ (fresh ∷ []) }

    added-Balances : Balances added (λ i. others i + one_at n i)
    added-Balances i = (
      ground (arith, tally-append strong_of e.tasks fresh i, (b i).0),
      ground (arith, tally-append flag_of e.tasks fresh i, (b i).1),
    )
