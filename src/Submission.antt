-- ===== src/Submission.antt =====
-- crates/inel-reactor/src/submission.rs: the future and the stream that drive an operation. The ring
-- that the reactor reaches is passed in and out.
pub mod Marked
pub mod Stream
pub mod Single
pub mod Life
pub mod Dropped
mod Tests
use inel.Base.{
  ℕ, Bool, true, false, Option, none, some, List, [], if◌then◌else◌, Outcome, done, panic, Panic,
  expect, moved_out, polled_after_completion, ◌>>=◌, ◌++◌,
}
use inel.RingResult.{Cqueue, RingResult, has_more}
use inel.Cancellation.{Effect}
use inel.Slab.{Slab}
use inel.IoUring.{IoUring}
use inel.Key
use inel.Completion.{Completion}
use inel.Op.{Op, MultiOp}
use inel.Ring
use inel.Ring.{Ring, After}

pub data SubmissionState : Type 0 where
  initial : SubmissionState
  submitted : ℕ → SubmissionState
  completed : SubmissionState

-- `op` is `none` once it has been moved out of its `ManuallyDrop`; moving it out again would be a
-- use after a move, which the source does not check.
pub record Submission (O : Op) : Type 0 where
  pub op : Option O.Self
  pub state : SubmissionState

pub data Poll (A : Type 0) : Type 0 where
  pending : Poll A
  ready : A → Poll A

unfoldable pub new : (O : Op) → O.Self → Submission O
new O op = record { op = some op; state = initial }

-- `FusedFuture::is_terminated`.
unfoldable pub is_terminated : {O : Op} → Submission O → Bool
is_terminated s = elim s.state [ completed ↦ true | _ ↦ false ]

module _ (Q : Cqueue) (U : IoUring) (S : Slab Completion) where
  -- What a poll leaves: the submission, also after a panic, and the result.
  pub record Polling (O : Op) (A : Type 0) : Type 0 where
    pub submission : Submission O
    pub outcome : Outcome (After Q U S (Poll A))

  -- `take` leaves the state `Initial` while a poll runs.
  module _ (O : Op) {A : Type 0} where
    unfoldable pub started : O.Self → Outcome (Ring Q U S × ℕ) → Polling O A
    started op (panic e) = record {
      submission = record { op = some op; state = initial };
      outcome = panic e;
    }
    started op (done (ring, key)) = record {
      submission = record { op = some op; state = submitted key };
      outcome = done (record { ring = ring; value = pending; effects = [] });
    }

    -- The first poll, which submits.
    unfoldable pub begin : Ring Q U S → Option O.Self → ℕ → Polling O A
    unfolding started
    begin r none waker = record {
      submission = record { op = none; state = initial };
      outcome = panic moved_out;
    }
    begin r (some op) waker =
        let (entry, used) = O.entry op in started used (Ring.submit Q U S r entry waker)

    unfoldable pub waits : Ring Q U S → Option O.Self → ℕ → List Effect → Polling O A
    waits r op key effects = record {
      submission = record { op = op; state = submitted key };
      outcome = done (record { ring = r; value = pending; effects = effects });
    }

    -- A poll on a panic of the ring or of the operation, with what is left of the operation.
    unfoldable pub fails : Option O.Self → Panic → Polling O A
    fails op e = record { submission = record { op = op; state = initial }; outcome = panic e }

    unfoldable pub yields :
        Ring Q U S → Option O.Self → SubmissionState → A → List Effect → Polling O A
    yields r op state value effects = record {
      submission = record { op = op; state = state };
      outcome = done (record { ring = r; value = ready value; effects = effects });
    }

  unfoldable pub next_state : RingResult → ℕ → SubmissionState
  unfolding has_more
  next_state result key = if has_more Q result then submitted key else completed

  -- `Future::poll` where a result has come: the operation is moved out, whatever the next state.
  module _ (O : Op) where
    resolve_with : Ring Q U S → ℕ → RingResult → List Effect → Outcome O.Output → Polling O O.Output
    unfolding fails yields next_state
    resolve_with r key result effects (panic e) = fails O none e
    resolve_with r key result effects (done value) =
        yields O r none (next_state result key) value effects

    resolve : Ring Q U S → ℕ → RingResult → List Effect → Option O.Self → Polling O O.Output
    unfolding fails resolve_with
    resolve r key result effects none = fails O none moved_out
    resolve r key result effects (some op) = resolve_with r key result effects (O.result op result)

    unfoldable pub receive :
        Option O.Self → ℕ → Outcome (After Q U S (Option RingResult)) → Polling O O.Output
    unfolding fails waits resolve
    receive op key (panic e) = fails O op e
    receive op key (done a) = elim a.value [
      | none ↦ waits O a.ring op key a.effects
      | some result ↦ resolve a.ring key result a.effects op
    ]

    unfoldable pub poll : Ring Q U S → Submission O → ℕ → Polling O O.Output
    unfolding begin receive fails
    poll r s waker = elim s.state [
      | initial ↦ begin O r s.op waker
      | submitted key ↦ receive s.op key (Ring.check_result Q U S r key)
      | completed ↦ fails O s.op polled_after_completion
    ]

    -- `Submission::cancel`, which is the drop.
    unfoldable pub cancel : Ring Q U S → Submission O → Outcome (After Q U S (Unit {0}))
    cancel r s = elim s.state [
      | initial ↦ (do
        op ← expect moved_out s.op
        done (record { ring = r; value = tt; effects = O.release op }))
      | submitted key ↦ (do
        op ← expect moved_out s.op
        Ring.cancel Q U S r key (O.entry_cancel (Key.as_u64 key)) (O.cancel op))
      | completed ↦ done (record { ring = r; value = tt; effects = [] })
    ]

  -- `Stream::poll_next`.
  module _ (M : MultiOp) where
    open M use {op, next}

    item_with :
        Ring Q U S
        → ℕ
        → RingResult
        → List Effect
        → op.Self
        → Outcome op.Output
        → Polling op (Option op.Output)
    unfolding fails yields has_more
    item_with r key result effects self (panic e) = fails op (some self) e
    item_with r key result effects self (done value) =
        if has_more Q result
        then yields op r (some self) (submitted key) (some value) effects
        else yields op r none completed (some value) (effects ++ op.release self)

    item :
        Ring Q U S → ℕ → RingResult → List Effect → Option op.Self → Polling op (Option op.Output)
    unfolding fails item_with
    item r key result effects none = fails op none moved_out
    item r key result effects (some self) = item_with r key result effects self (next self result)

    unfoldable pub receive_next :
        Option op.Self
        → ℕ
        → Outcome (After Q U S (Option RingResult))
        → Polling op (Option op.Output)
    unfolding fails waits item
    receive_next self key (panic e) = fails op self e
    receive_next self key (done a) = elim a.value [
      | none ↦ waits op a.ring self key a.effects
      | some result ↦ item a.ring key result a.effects self
    ]

    unfoldable pub poll_next : Ring Q U S → Submission op → ℕ → Polling op (Option op.Output)
    unfolding begin receive_next yields
    poll_next r s waker = elim s.state [
      | initial ↦ begin op r s.op waker
      | submitted key ↦ receive_next s.op key (Ring.check_result Q U S r key)
      | completed ↦ yields op r s.op completed none []
    ]
