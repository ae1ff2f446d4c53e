-- ===== src/Submission/Single.antt =====
-- A future against the phase of its key, and what becomes of one that is used too long.
use inel.Base.{
  ℕ, ◌≡◌, refl, Bool, true, false, Option, none, some, List, [], ◌∷◌, ◌==◌, if◌then◌else◌, done,
  panic, moved_out, polled_after_completion,
}
use inel.RingResult.{Cqueue, RingResult}
use inel.Slab.{Slab}
use inel.IoUring.{IoUring}
use inel.Completion.{Completion}
use inel.Completion.Spec
use inel.Completion.Spec.{Phase, ongoing, closed, discarded}
use inel.Completion.Frame.{phase}
use inel.Op.{Op}
use inel.Ring.{Ring}
use inel.Ring.Counts.{Counts, check_result-Leaky}
use inel.Submission.{
  submitted, completed, Poll, pending, ready, poll, receive, cancel, resolve, resolve_with, fails,
  next_state,
}
use inel.Submission.Marked.{Marked}
use inel.Submission.Stream.{held}

-- A key whose operation completes once: its result has not come, or is the only one.
abbrev pub is_single : Phase → Bool
is_single (ongoing w []) = true
is_single (closed (r ∷ [])) = true
is_single p = false

abbrev pub resolved : {A : Type 0} → (RingResult → A) → Option RingResult → Poll A
resolved f none = pending
resolved f (some r) = ready (f r)

module _ (Q : Cqueue) (U : IoUring) (S : Slab Completion) (O : Op) where
  receive-eq :
      (r : Ring Q U S) (k : ℕ) (op : O.Self) (f : RingResult → O.Output) (p : Phase)
      → ((x : RingResult) → O.result op x ≡ done (f x))
      → Marked Q p
      → is_single p ≡ true
      → receive Q U S O (some op) k (
          done
            (record { ring = r; value = (Spec.result p).value; effects = (Spec.result p).effects }))
        ≡ record {
          submission = held op k (Spec.result p).next;
          outcome =
              done (record { ring = r; value = resolved f (Spec.result p).value; effects = [] });
        }
  unfolding receive Spec.result Marked next_state
  receive-eq r k op f (ongoing w []) t m l = refl
  receive-eq r k op f (ongoing w (x ∷ rs)) t m l = cc
  receive-eq r k op f (closed []) t m l = cc
  receive-eq r k op f (closed (x ∷ [])) t m l = rw (t x, m) refl
  receive-eq r k op f (closed (x ∷ y ∷ rs)) t m l = cc
  receive-eq r k op f (discarded c) t m l = cc

  -- On a ring whose counters are right, polling the future of an operation that completes once, and
  -- whose `result` does not panic, waits until the result has come, then gives it, frees the key
  -- and is completed, with the operation consumed. The counters stay right and the other keys are
  -- as they were.
  pub poll-follows :
      {r : Ring Q U S} (k : ℕ) (op : O.Self) (waker : ℕ) (f : RingResult → O.Output) {p : Phase}
      → Counts Q U S r
      → phase S r.completions k ≡ some p
      → Marked Q p
      → is_single p ≡ true
      → ((x : RingResult) → O.result op x ≡ done (f x))
      → (r' : Ring Q U S) × (poll Q U S O r (record { op = some op; state = submitted k }) waker
          ≡ record {
            submission = held op k (Spec.result p).next;
            outcome =
                done (record { ring = r'; value = resolved f (Spec.result p).value; effects = [] });
          })
        × Counts Q U S r'
        × ((j : ℕ)
            → phase S r'.completions j
              ≡ (if j == k then (Spec.result p).next else phase S r.completions j))
  unfolding poll
  poll-follows {r} k op waker f {p} v at m l t =
      let (r', e, v', same, phases) = check_result-Leaky Q U S k v at in
      (r', rw e (receive-eq r' k op f p t m l), v', phases)

  -- A submitted future that has a result which announces more gives that result and stays submitted
  -- with its operation moved out, so that dropping it moves the operation out again.
  pub poll-moves_out :
      {r : Ring Q U S} (k : ℕ) (op : O.Self) (waker w : ℕ) (f : RingResult → O.Output)
      (x : RingResult) (rs : List RingResult)
      → Counts Q U S r
      → phase S r.completions k ≡ some (ongoing w (x ∷ rs))
      → Marked Q (ongoing w (x ∷ rs))
      → ((y : RingResult) → O.result op y ≡ done (f y))
      → let p = poll Q U S O r (record { op = some op; state = submitted k }) waker in
        (r' : Ring Q U S) × (p.outcome
          ≡ done (record { ring = r'; value = ready (f x); effects = [] }))
        × (cancel Q U S O r' p.submission ≡ panic moved_out)
  unfolding poll cancel receive Spec.result Marked next_state resolve resolve_with
  poll-moves_out {r} k op waker w f x rs v at m t =
      let (r', e, _, _, _) = check_result-Leaky Q U S k v at in
      (r', rw (e, t x) refl, rw (e, t x, m.0) refl)

  -- Polling a completed future panics, and leaves it in its first state with no operation: the drop
  -- that follows moves the operation out again.
  pub poll-completed :
      (r : Ring Q U S) (waker : ℕ)
      → let p = poll Q U S O r (record { op = none; state = completed }) waker in
        (p.outcome ≡ panic polled_after_completion)
        × (cancel Q U S O r p.submission ≡ panic moved_out)
  unfolding poll cancel fails
  poll-completed r waker = (refl, refl)
