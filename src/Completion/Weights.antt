-- ===== src/Completion/Weights.antt =====
-- How an entry counts: as in flight, and as waiting with a cancellation. The counts depend on its
-- phase alone.
use inel.Base.{ℕ, ◌≤◌, ◌≡◌, refl, true, false, Option, none, some, arith}
use inel.Queues.{ResultQueues}
use inel.Completion.{Completion, vacant, single, multiple, cancelled, finished, is_finished}
use inel.Completion.Spec.{Phase, ongoing, closed, discarded}
use inel.Completion.Frame.{phase_of, left}

-- 1 for an entry that has not had its last completion.
abbrev pub in_flight : Completion → ℕ
in_flight (vacant waker) = 1
in_flight (single result) = 0
in_flight (multiple waker handle true) = 1
in_flight (multiple waker handle false) = 0
in_flight (cancelled cancel) = 1
in_flight finished = 0

abbrev pub pending : Option Phase → ℕ
pending none = 0
pending (some (ongoing waker rs)) = 1
pending (some (closed rs)) = 0
pending (some (discarded c)) = 1

pub pending-phase_of :
    (c : Completion) (q : ResultQueues) → pending (some (phase_of c q)) ≡ in_flight c
pending-phase_of (vacant w) q = refl
pending-phase_of (single r) q = refl
pending-phase_of (multiple w h true) q = refl
pending-phase_of (multiple w h false) q = refl
pending-phase_of (cancelled c) q = refl
pending-phase_of finished q = refl

pub pending-left : (c : Completion) (q : ResultQueues) → pending (left c q) ≡ in_flight c
unfolding is_finished
pending-left (vacant w) q = refl
pending-left (single r) q = refl
pending-left (multiple w h true) q = refl
pending-left (multiple w h false) q = refl
pending-left (cancelled c) q = refl
pending-left finished q = refl

-- 1 for an entry that waits for its last completion with a cancellation.
abbrev pub is_cancelled : Completion → ℕ
is_cancelled (cancelled cancel) = 1
is_cancelled (vacant waker) = 0
is_cancelled (single result) = 0
is_cancelled (multiple waker handle more) = 0
is_cancelled finished = 0

pub is_cancelled-le : (c : Completion) → is_cancelled c ≤ in_flight c
is_cancelled-le (vacant w) = omega arith
is_cancelled-le (single r) = omega arith
is_cancelled-le (multiple w h true) = omega arith
is_cancelled-le (multiple w h false) = omega arith
is_cancelled-le (cancelled c) = omega arith
is_cancelled-le finished = omega arith

abbrev pub discards : Option Phase → ℕ
discards none = 0
discards (some (ongoing waker rs)) = 0
discards (some (closed rs)) = 0
discards (some (discarded c)) = 1

pub discards-phase_of :
    (c : Completion) (q : ResultQueues) → discards (some (phase_of c q)) ≡ is_cancelled c
discards-phase_of (vacant w) q = refl
discards-phase_of (single r) q = refl
discards-phase_of (multiple w h true) q = refl
discards-phase_of (multiple w h false) q = refl
discards-phase_of (cancelled c) q = refl
discards-phase_of finished q = refl

pub discards-left : (c : Completion) (q : ResultQueues) → discards (left c q) ≡ is_cancelled c
unfolding is_finished
discards-left (vacant w) q = refl
discards-left (single r) q = refl
discards-left (multiple w h true) q = refl
discards-left (multiple w h false) q = refl
discards-left (cancelled c) q = refl
discards-left finished q = refl
