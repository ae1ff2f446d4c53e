-- ===== src/Completion/Tests.antt =====
-- Completion sets over the vector slab, with the flags of Linux.
use inel.Base.{
  ◌≡◌, refl, sym, ap, subst, Bool, true, some, none, [], ◌∷◌, ◌++◌, Outcome, done, panic,
  unexpected_key, arith,
}
use inel.Cancellation.{wake, consuming, consume, consume_all, drop_raw}
use inel.Completion.Examples.{linux, V, fresh, two, two-Inv, one, one-Inv, last_one, one_of_many}
use inel.Key
use inel.Completion.{
  Completion, CompletionSet, Done, cancel, notify, with_completion, try_cancel, is_finished,
}
use inel.Completion.Own.{Inv}
use inel.Completion.Spec
use inel.Completion.Spec.{ongoing, closed, discarded, Reply}
use inel.Completion.Refine.{Refined, cancel_refines}
use inel.Completion.Run.{notifies, cancels, asks, nothing, told, gave, stop, next, run, run_refines}
use inel.Completion.Multishot.{notify_after_cancel}

run_refines_example :
    (t : CompletionSet V) × (run linux V two (
        (0, notifies one_of_many)
        ∷ (1, notifies last_one)
        ∷ (0, asks)
        ∷ (0, asks)
        ∷ (0, cancels (consuming 30 2))
        ∷ (0, notifies last_one)
        ∷ (1, asks)
        ∷ [])
      ≡ done (
        t,
        (nothing, wake 5 ∷ [])
            ∷ (nothing, wake 6 ∷ [])
            ∷ (gave (some one_of_many), [])
            ∷ (gave none, [])
            ∷ (told true, [])
            ∷ (nothing, consume (consuming 30 2) last_one ++ drop_raw (consuming 30 2))
            ∷ (gave (some last_one), [])
            ∷ [],
      ))
    × Inv V t
unfolding Spec.notify Spec.cancel Spec.result consume_all
run_refines_example = run_refines linux V two-Inv (omega arith) (
    next 0 (ongoing 5 []) (notifies one_of_many) _ refl refl (
      next 1 (ongoing 6 []) (notifies last_one) _ refl refl (
        next 0 (ongoing 5 (one_of_many ∷ [])) asks _ refl refl (
          next 0 (ongoing 5 []) asks _ refl refl (
            next 0 (ongoing 5 []) (cancels (consuming 30 2)) _ refl refl (
              next 0 (discarded (consuming 30 2)) (notifies last_one) _ refl refl
                (next 1 (closed (last_one ∷ [])) asks _ refl refl stop)))))))

-- The first entry has received one of many results, then was cancelled.
abbrev dropped : CompletionSet V
dropped = record { slab = some (Completion.cancelled (consuming 30 2)) ∷ []; queues = fresh.queues }

set_of : Outcome (Done V Bool) → CompletionSet V
set_of (done d) = d.set
set_of (panic e) = fresh

dropped-Inv : Inv V dropped
unfolding set_of Spec.cancel consume_all cancel with_completion try_cancel is_finished Key.as_usize
dropped-Inv = subst (Inv V) (ap set_of (sym m.returns)) m.valid
  where
    reply : Reply Bool
    reply = record { next = some (discarded (consuming 30 2)); value = true; effects = [] }

    m : Refined V one 0 reply (cancel V one 0 (consuming 30 2))
    m = cancel_refines V one-Inv 0 (consuming 30 2) refl refl

notify_after_cancel_example :
    (d : Done V (Unit {0})) × (notify V linux dropped 0 one_of_many ≡ done d)
    × (d.effects ≡ consume (consuming 30 2) one_of_many ++ drop_raw (consuming 30 2))
    × (notify V linux d.set 0 last_one ≡ panic unexpected_key)
notify_after_cancel_example =
    notify_after_cancel V linux 0 (consuming 30 2) one_of_many last_one dropped-Inv (omega arith)
      refl
