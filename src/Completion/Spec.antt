-- ===== src/Completion/Spec.antt =====
-- What a completion set promises for one key, with no slab and no queues: the results that wait, in
-- order of arrival, until the last one is taken, or the cancellation that will receive the next one.
use inel.Base.{Bool, true, false, ℕ, Option, none, some, List, [], ◌∷◌, ◌++◌, if◌then◌else◌}
use inel.RingResult.{RingResult, Cqueue, has_more}
use inel.Cancellation.{Cancellation, Effect, wake, consume, consume_all, drop_raw}

-- `ongoing` expects more results and has a task to wake, `closed` has the last one.
pub data Phase : Type 0 where
  ongoing : ℕ → List RingResult → Phase
  closed : List RingResult → Phase
  discarded : Cancellation → Phase

-- What is left under the key (`none` once it is free), what is returned, and what happens outside.
pub record Reply (A : Type 0) : Type 0 where
  pub next : Option Phase
  pub value : A
  pub effects : List Effect

-- `none` where a call is against the protocol.
unfoldable pub notify : Cqueue → Phase → RingResult → Option (Reply (Unit {0}))
unfolding has_more
notify Q (ongoing waker rs) r = some (record {
  next = some (if has_more Q r then ongoing waker (rs ++ r ∷ []) else closed (rs ++ r ∷ []));
  value = tt;
  effects = wake waker ∷ [];
})
notify Q (closed rs) r = none
notify Q (discarded c) r =
    some (record { next = none; value = tt; effects = consume c r ++ drop_raw c })

unfoldable pub cancel : Phase → Cancellation → Option (Reply Bool)
cancel (ongoing waker rs) c =
    some (record { next = some (discarded c); value = true; effects = consume_all c rs })
cancel (closed rs) c =
    some (record { next = none; value = false; effects = consume_all c rs ++ drop_raw c })
cancel (discarded old) c = none

abbrev pub rest : List RingResult → Option Phase
rest [] = none
rest (r ∷ rs) = some (closed (r ∷ rs))

unfoldable pub result : Phase → Reply (Option RingResult)
result (ongoing waker []) = record { next = some (ongoing waker []); value = none; effects = [] }
result (ongoing waker (r ∷ rs)) = record {
  next = some (ongoing waker rs);
  value = some r;
  effects = [];
}
result (closed []) = record { next = none; value = none; effects = [] }
result (closed (r ∷ rs)) = record { next = rest rs; value = some r; effects = [] }
result (discarded c) = record { next = some (discarded c); value = none; effects = [] }
