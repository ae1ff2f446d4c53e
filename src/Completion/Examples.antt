-- ===== src/Completion/Examples.antt =====
-- Concrete completion sets over the vector slab, with the flags of Linux.
use inel.Base.{
  ◌≡◌, refl, sym, ap, subst, true, Outcome, done, panic, ◌/◌, ◌%◌, ◌^◌, some, none, [], ◌∷◌, ◌==◌,
  if◌then◌else◌, arith,
}
use inel.Base.Int.{pos}
use inel.RingResult.{RingResult, Cqueue, has_more}
use inel.Slab.{Slab}
use inel.Slab.Vector.{vector_slab}
use inel.Key
use inel.Queues
use inel.Completion.{
  Completion, vacant, CompletionSet, Done, with_capacity, insert, single, multiple, notify,
  with_completion, try_notify, is_finished,
}
use inel.Completion.Own.{Inv}
use inel.Completion.Refine.{with_capacity-Inv, insert_refines, notify_refines}
use inel.Completion.Spec
use inel.Completion.Spec.{ongoing, Reply}

-- IORING_CQE_F_BUFFER is bit 0, IORING_CQE_F_MORE is bit 1, and a buffer id stands above bit 16.
abbrev pub linux : Cqueue
linux = record {
  more = λ flags. flags / 2 % 2 == 1;
  buffer_select = λ flags. if flags % 2 == 1 then some (flags / 2 ^ 16) else none;
}

abbrev pub V : Slab Completion
V = vector_slab Completion

abbrev pub fresh : CompletionSet V
fresh = record {
  slab = [];
  queues = record { queues = [] ∷ [] ∷ [] ∷ [] ∷ []; unused = 3 ∷ 2 ∷ 1 ∷ 0 ∷ [] };
}

pub fresh-Inv : Inv V fresh
unfolding with_capacity Queues.with_capacity
fresh-Inv = (with_capacity-Inv V 16).0

-- Two entries, of tasks 5 and 6.
abbrev pub two : CompletionSet V
two = record fresh { slab = some (vacant 5) ∷ some (vacant 6) ∷ [] }

pub two-Inv : Inv V two
unfolding insert Key.from_usize
two-Inv = (insert_refines V 6 (insert_refines V 5 fresh-Inv (omega arith)).1 (omega arith)).1

-- One entry, of task 5.
abbrev pub one : CompletionSet V
one = record fresh { slab = some (vacant 5) ∷ [] }

pub one-Inv : Inv V one
unfolding insert Key.from_usize
one-Inv = (insert_refines V 5 fresh-Inv (omega arith)).1

abbrev pub last_one : RingResult
last_one = record { ret = pos 8; flags = 0 }

abbrev pub one_of_many : RingResult
one_of_many = record { ret = pos 7; flags = 2 }

-- The entry of task 5 has its only result.
abbrev pub answered : CompletionSet V
answered = record fresh { slab = some (single last_one) ∷ [] }

-- The entry of task 5 has the first of many results.
abbrev pub streaming : CompletionSet V
streaming = record {
  slab = some (multiple 5 3 true) ∷ [];
  queues = record { queues = [] ∷ [] ∷ [] ∷ (one_of_many ∷ []) ∷ []; unused = 2 ∷ 1 ∷ 0 ∷ [] };
}

notified : Outcome (Done V (Unit {0})) → CompletionSet V
notified (done d) = d.set
notified (panic e) = fresh

after_first :
    (r : RingResult) {reply : Reply (Unit {0})}
    → Spec.notify linux (ongoing 5 []) r ≡ some reply
    → Inv V (notified (notify V linux one 0 r))
unfolding notified
after_first r h =
    let m = notify_refines V one-Inv 0 linux r (omega arith) refl h in
    subst (Inv V) (ap notified (sym m.returns)) m.valid

pub answered-Inv : Inv V answered
unfolding notified notify with_completion try_notify is_finished Key.as_usize Spec.notify has_more
answered-Inv = after_first last_one refl

pub streaming-Inv : Inv V streaming
unfolding notified notify with_completion try_notify is_finished Key.as_usize Spec.notify has_more
    Queues.handle Queues.push_back
streaming-Inv = after_first one_of_many refl
