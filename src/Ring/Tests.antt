-- ===== src/Ring/Tests.antt =====
-- Runs of concrete rings.
use inel.Base.{ℕ, ◌+◌, ◌≡◌, ◌↔◌, refl, true, none, some, List, [], ◌∷◌, done, arith}
use inel.Base.Int.{pos}
use inel.RingResult.{has_more, Cqe, from_completion}
use inel.Cancellation.{wake}
use inel.Slab
use inel.Slab.{Slab}
use inel.IoUring.{IoUring}
use inel.Key
use inel.Completion
use inel.Completion.{Completion, with_completion, try_notify, is_finished}
use inel.Completion.Examples.{linux, V, fresh, fresh-Inv, one, one-Inv, answered, last_one}
use inel.Completion.Spec
use inel.Completion.Spec.{ongoing, closed, discarded}
use inel.Completion.Frame.{phase}
use inel.Completion.Run.{update}
use inel.Ring.{
  wait, submit_and_wait, handle_completions, handle_completion, Ring, ignore_key, submit, want,
  handle_all, is_done,
}
use inel.Ring.Counts.{Counts}
use inel.Ring.Examples.{accepting, slots, slots-Lent, idle, idle-Lending, entry}
use inel.Ring.Waiting.{Called, wait-delivers}
use inel.Ring.Reached.{Reached, start, next, submits, waits, Reached-Leaky}
use inel.Ring.Delivery.{Delivery, nothing, delivered, leak}
use inel.Ring.Slots.{Lending, is_done_iff}

-- A kernel without room for buffers.
abbrev refusing : IoUring
refusing = record {
  Instance = List Cqe;
  build = λ n. some [];
  push = λ e u. some u;
  submit_and_wait = λ n u. some u;
  completion = λ u. (u, []);
  register = λ r u. none;
}

abbrev arrived : List Cqe
arrived =
    record { user_data = ignore_key; result = pos 0; entry_flags = 0 }
    ∷ record { user_data = 0; result = pos 8; entry_flags = 0 }
    ∷ []

abbrev Nothing : List ℕ → List ℕ → List ℕ → Type 0
Nothing a b c =
    (idle.active ≡ 0)
    × (idle.detached ≡ 0)
    × (Slab.len V fresh.slab ≡ 0)
    × (a ≡ [])
    × (b ≡ [])
    × (c ≡ [])

is_done_iff_example : (is_done linux accepting V idle ≡ true) ↔ Nothing [] [] []
is_done_iff_example = is_done_iff linux accepting V {r = idle} idle-Lending

abbrev full : Ring linux refusing V
full = record {
  ring = [];
  active = 0;
  detached = 0;
  canceled = 0;
  completions = fresh;
  direct_files = slots;
  fixed_buffers = slots;
  buffer_groups = slots;
}

full-Lending : Lending linux refusing V full [] [] []
full-Lending = record {
  counts = record {
    valid = fresh-Inv;
    active = refl;
    canceled = omega arith;
    detached = omega arith;
    small = omega arith;
  };
  direct_files = slots-Lent;
  fixed_buffers = slots-Lent;
  buffer_groups = slots-Lent;
}

-- An entry is submitted, and completes in the wait that follows.
abbrev answer : List Cqe
answer = record { user_data = 0; result = pos 8; entry_flags = 0 } ∷ []

abbrev before : Ring linux accepting V
before = record idle { ring = answer }

abbrev between : Ring linux accepting V
between = record idle { ring = answer; active = 1; completions = one }

abbrev final : Ring linux accepting V
final = record idle { ring = []; completions = answered }

before-Counts : Counts linux accepting V before
before-Counts = record {
  valid = fresh-Inv;
  active = refl;
  canceled = omega arith;
  detached = omega arith;
  small = omega arith;
}

between-Counts : Counts linux accepting V between
between-Counts = record {
  valid = one-Inv;
  active = refl;
  canceled = omega arith;
  detached = omega arith;
  small = omega arith;
}

asked : Called linux accepting V between answer []
asked = record { after = answer; returns = λ h. refl; idle = λ h. refl; ready = refl }

delivery :
    Delivery linux accepting V
      (phase V one)
      answer
      (update (phase V one) 0 (some (closed (last_one ∷ []))))
      (wake 5 ∷ [])
      0
      0
unfolding Spec.notify from_completion leak
delivery = delivered _ (ongoing 5 []) _ (omega arith) refl refl nothing

wait-delivers_example :
    (r : Ring linux accepting V) × (wait linux accepting V between
      ≡ done (record { ring = r; value = tt; effects = wake 5 ∷ [] }))
    × Counts linux accepting V r
    × (phase V r.completions ≡ update (phase V one) 0 (some (closed (last_one ∷ []))))
    × (r.detached + 0 ≡ 0)
wait-delivers_example =
    wait-delivers linux accepting V {r = between} between-Counts (omega arith) (omega arith) asked
      delivery

history : Reached linux accepting V before 0 final
unfolding submit Completion.insert Key.from_usize Key.as_u64 wait submit_and_wait want
    handle_completions handle_all handle_completion from_completion has_more Completion.notify
    with_completion try_notify is_finished Key.as_usize Key.from_u64
history =
    next (next start (submits entry 5 0 answer between (omega arith) (omega arith) refl refl)) (
      waits _ answer _ 0 0 [] (record { ring = final; value = tt; effects = wake 5 ∷ [] })
        (omega arith) (omega arith) asked delivery refl)

Reached-Leaky_example : Counts linux accepting V final
Reached-Leaky_example = Reached-Leaky linux accepting V before-Counts history
