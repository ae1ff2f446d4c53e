-- ===== src/Completion/Multishot.antt =====
-- An entry that completes many times, cancelled while its completions are on their way.
use inel.Base.{
  ℕ, ◌<◌, ◌≡◌, ◌^◌, refl, ◌∙◌, ==_refl, some, none, ◌++◌, length, done, panic, unexpected_key,
}
use inel.RingResult.{RingResult, Cqueue}
use inel.Cancellation.{Cancellation, consume, drop_raw}
use inel.Slab.{Slab}
use inel.Completion.{Completion, CompletionSet, Done, notify}
use inel.Completion.Own.{Inv}
use inel.Completion.Spec
use inel.Completion.Spec.{discarded, Reply}
use inel.Completion.Frame.{phase}
use inel.Completion.Refine.{notify_refines, absent_panics}

module _ (S : Slab Completion) (Q : Cqueue) where
  discarded_reply : Cancellation → RingResult → Reply (Unit {0})
  discarded_reply x r = record { next = none; value = tt; effects = consume x r ++ drop_raw x }

  -- After a cancellation the first completion to arrive frees the key and drops the cancellation,
  -- also if it announces more: a completion that follows panics.
  pub notify_after_cancel :
      {s : CompletionSet S} (k : ℕ) (x : Cancellation) (r next : RingResult)
      → Inv S s
      → length s.queues.queues < 2 ^ 32
      → phase S s k ≡ some (discarded x)
      → (d : Done S (Unit {0})) × (notify S Q s k r ≡ done d)
        × (d.effects ≡ consume x r ++ drop_raw x)
        × (notify S Q d.set k next ≡ panic unexpected_key)
  unfolding Spec.notify discarded_reply
  notify_after_cancel k x r next v b e =
      let m = notify_refines S v k Q r {reply = discarded_reply x r} b e refl in
      (
        record { set = m.set; value = tt; effects = consume x r ++ drop_raw x },
        m.returns,
        refl,
        (absent_panics S m.set k Q x next (m.phases k ∙ rw (==_refl k))).1,
      )
