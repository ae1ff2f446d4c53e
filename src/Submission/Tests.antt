-- ===== src/Submission/Tests.antt =====
-- Concrete submissions: an operation without data that answers with its whole result.
use inel.Base.{
  ℕ, zero, suc, ◌≡◌, refl, false, Option, none, some, [], ◌∷◌, ◌==◌, if◌then◌else◌, done, arith,
}
use inel.RingResult.{RingResult, has_more}
use inel.Cancellation.{release_rc}
use inel.Cancellation
use inel.IoUring.{nop}
use inel.Completion.Examples.{
  linux, V, one, last_one, one_of_many, answered, answered-Inv, streaming, streaming-Inv,
}
use inel.Completion.Spec
use inel.Completion.Spec.{ongoing, closed, Reply}
use inel.Completion.Frame.{phase}
use inel.Op.{Op, MultiOp}
use inel.Ring.{Ring, After}
use inel.Ring.Counts.{Counts}
use inel.Ring.Examples.{accepting, busy, busy-Counts}
use inel.Submission.{initial, submitted, completed, Poll, ready, poll, poll_next, cancel}
use inel.Submission.Marked.{Marked, AllMarked, AllMore, Ends, new-Marked}
use inel.Submission.Stream.{poll_next-follows}
use inel.Submission.Single.{poll-follows}
use inel.Submission.Life.{Sound, fresh, waiting, Room, poll_next-Sound, cancel-Sound}

abbrev plain : Op
plain = record {
  Self = Unit {0};
  Output = RingResult;
  entry = λ self. (record { opcode = nop; user_data = 0; linked = false }, self);
  result = λ self r. done r;
  cancel = λ self. Cancellation.of_box 64;
  entry_cancel = λ key. none;
  release = λ self. release_rc 1 ∷ [];
}

abbrev many : MultiOp
many = record { op = plain; next = λ self r. done r }

room : Room linux accepting V busy
room = record { accepts = λ e. ([], refl); key = λ w. omega arith; small = omega arith }

cancel-Sound_example :
    (a : After linux accepting V (Unit {0})) × (cancel linux accepting V plain busy
        (record { op = some tt; state = submitted 0 })
      ≡ done a)
    × Counts linux accepting V a.ring
    × (a.ring.active ≡ 1)
cancel-Sound_example =
    cancel-Sound linux accepting V plain {r = busy} busy-Counts room
      (waiting tt 0 (ongoing 5 []) refl (new-Marked linux 5) refl)

poll_next-Sound_example :
    (a : After linux accepting V (Poll (Option RingResult))) × ((poll_next linux accepting V many
        busy
        (record { op = some tt; state = initial })
        9).outcome
      ≡ done a)
    × Counts linux accepting V a.ring
    × Sound linux accepting V a.ring
        (poll_next linux accepting V many busy
          (record { op = some tt; state = initial })
          9).submission
poll_next-Sound_example =
    poll_next-Sound linux accepting V many {r = busy} {s = record { op = some tt; state = initial }}
      9 (λ self r. r) (λ self r. refl) busy-Counts room (fresh tt)

marks : AllMarked linux V one
unfolding AllMarked Marked AllMore
marks zero p e = ground (arith, e)
marks (suc k) p e = cc

-- The ring of task 5, with its only result, and with the first of many.
abbrev with_answer : Ring linux accepting V
with_answer = record busy { active = 0; completions = answered }

with_answer-Counts : Counts linux accepting V with_answer
with_answer-Counts = record {
  valid = answered-Inv;
  active = refl;
  canceled = omega arith;
  detached = omega arith;
  small = omega arith;
}

abbrev with_stream : Ring linux accepting V
with_stream = record busy { completions = streaming }

with_stream-Counts : Counts linux accepting V with_stream
with_stream-Counts = record {
  valid = streaming-Inv;
  active = refl;
  canceled = omega arith;
  detached = omega arith;
  small = omega arith;
}

poll-follows_example :
    (r : Ring linux accepting V) × (poll linux accepting V plain with_answer
        (record { op = some tt; state = submitted 0 })
        9
      ≡ record {
        submission = record { op = none; state = completed };
        outcome = done (record { ring = r; value = ready last_one; effects = [] });
      })
    × Counts linux accepting V r
    × ((j : ℕ) → phase V r.completions j ≡ (if j == 0 then none else phase V answered j))
unfolding Spec.result Marked Ends has_more
poll-follows_example =
    poll-follows linux accepting V plain {r = with_answer} 0 tt 9 (λ r. r)
      {p = closed (last_one ∷ [])} with_answer-Counts refl refl refl (λ x. refl)

poll_next-follows_example :
    (r : Ring linux accepting V) × (poll_next linux accepting V many with_stream
        (record { op = some tt; state = submitted 0 })
        9
      ≡ record {
        submission = record { op = some tt; state = submitted 0 };
        outcome = done (record { ring = r; value = ready (some one_of_many); effects = [] });
      })
    × Counts linux accepting V r
    × ((j : ℕ)
        → phase V r.completions j ≡ (if j == 0 then some (ongoing 5 []) else phase V streaming j))
unfolding Spec.result Marked AllMore has_more
poll_next-follows_example =
    poll_next-follows linux accepting V many {r = with_stream} 0 tt 9 (λ r. r)
      {p = ongoing 5 (one_of_many ∷ [])} with_stream-Counts refl (refl, tt) refl (λ x. refl)
