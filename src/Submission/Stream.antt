-- ===== src/Submission/Stream.antt =====
-- A stream of results against the phase of its key.
use inel.Base.{
  ℕ, ◌≡◌, refl, Bool, true, false, Option, none, some, List, [], ◌∷◌, ◌==◌, if◌then◌else◌, done,
}
use inel.RingResult.{Cqueue, RingResult}
use inel.Cancellation.{Effect}
use inel.Slab.{Slab}
use inel.IoUring.{IoUring}
use inel.Completion.{Completion}
use inel.Completion.Spec
use inel.Completion.Spec.{Phase, ongoing, closed, discarded}
use inel.Completion.Frame.{phase}
use inel.Op.{Op, MultiOp}
use inel.Ring.{Ring}
use inel.Ring.Counts.{Counts, check_result-Leaky}
use inel.Submission.{
  Submission, submitted, completed, Poll, pending, ready, poll_next, receive_next,
}
use inel.Submission.Marked.{Marked}

-- The submission while its key is held, and once it is free.
abbrev pub held : {O : Op} → O.Self → ℕ → Option Phase → Submission O
held self k none = record { op = none; state = completed }
held self k (some p) = record { op = some self; state = submitted k }

abbrev pub shown : {A : Type 0} → (RingResult → A) → Option RingResult → Poll (Option A)
shown f none = pending
shown f (some r) = ready (some (f r))

-- The operation is dropped with its last result.
abbrev pub dropped : List Effect → Option Phase → List Effect
dropped effects none = effects
dropped effects (some p) = []

-- Phases of a key that a live submission holds.
abbrev pub is_live : Phase → Bool
is_live (ongoing w rs) = true
is_live (closed rs) = true
is_live (discarded c) = false

module _ (Q : Cqueue) (U : IoUring) (S : Slab Completion) (M : MultiOp) where
  open M use {op, next}

  -- What `poll_next` makes of the answer of `check_result`.
  receive_next-eq :
      (r : Ring Q U S) (k : ℕ) (self : op.Self) (f : RingResult → op.Output) (p : Phase)
      → ((x : RingResult) → next self x ≡ done (f x))
      → Marked Q p
      → is_live p ≡ true
      → receive_next Q U S M (some self) k (
          done
            (record { ring = r; value = (Spec.result p).value; effects = (Spec.result p).effects }))
        ≡ record {
          submission = held self k (Spec.result p).next;
          outcome = done (record {
            ring = r;
            value = shown f (Spec.result p).value;
            effects = dropped (op.release self) (Spec.result p).next;
          });
        }
  unfolding receive_next Spec.result Marked
  receive_next-eq r k self f (ongoing w []) t m l = refl
  receive_next-eq r k self f (ongoing w (x ∷ rs)) t m l = rw (t x, m.0) refl
  receive_next-eq r k self f (closed []) t m l = cc
  receive_next-eq r k self f (closed (x ∷ [])) t m l = rw (t x, m) refl
  receive_next-eq r k self f (closed (x ∷ y ∷ rs)) t m l = rw (t x, m.0) refl
  receive_next-eq r k self f (discarded c) t m l = cc

  -- On a ring whose counters are right, polling a submitted stream whose key is live, whose results
  -- are marked and whose operation makes an item of every result gives the item of the oldest
  -- result, or waits where there is none; with the last one the operation is dropped, the key is
  -- freed and the stream is over, and not before. The counters stay right and the other keys are as
  -- they were.
  pub poll_next-follows :
      {r : Ring Q U S} (k : ℕ) (self : op.Self) (waker : ℕ) (f : RingResult → op.Output) {p : Phase}
      → Counts Q U S r
      → phase S r.completions k ≡ some p
      → Marked Q p
      → is_live p ≡ true
      → ((x : RingResult) → next self x ≡ done (f x))
      → (r' : Ring Q U S) × (poll_next Q U S M r
            (record { op = some self; state = submitted k })
            waker
          ≡ record {
            submission = held self k (Spec.result p).next;
            outcome = done (record {
              ring = r';
              value = shown f (Spec.result p).value;
              effects = dropped (op.release self) (Spec.result p).next;
            });
          })
        × Counts Q U S r'
        × ((j : ℕ)
            → phase S r'.completions j
              ≡ (if j == k then (Spec.result p).next else phase S r.completions j))
  unfolding poll_next
  poll_next-follows {r} k self waker f {p} v at m l t =
      let (r', e, v', same, phases) = check_result-Leaky Q U S k v at in
      (r', rw e (receive_next-eq r' k self f p t m l), v', phases)
