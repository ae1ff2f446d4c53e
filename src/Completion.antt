-- ===== src/Completion.antt =====
-- `Completion` and `CompletionSet` of crates/inel-reactor/src/ring/completion.rs: the state of each
-- submitted entry. Wakers are task numbers, and what a call does outside is a list of effects.
pub mod Own
pub mod Spec
pub mod Frame
pub mod Moves
pub mod Methods
pub mod Weights
pub mod Refine
pub mod Run
pub mod Multishot
pub mod Examples
mod Tests
use inel.Base.{
  ℕ, Bool, true, false, not, ◌&&◌, Option, none, some, List, [], ◌∷◌, ◌++◌, if◌then◌else◌, Outcome,
  done, panic, expect, unexpected_key, already_cancelled, already_finished, ◌>>=◌,
}
use inel.RingResult.{RingResult, Cqueue, has_more}
use inel.Cancellation.{Cancellation, Effect, wake, consume, consume_all, drop_raw}
use inel.Slab
use inel.Slab.{Slab}
use inel.Key
use inel.Queues
use inel.Queues.{ResultQueues}

pub data Completion : Type 0 where
  vacant : ℕ → Completion
  single : RingResult → Completion
  multiple : ℕ → ℕ → Bool → Completion
  cancelled : Cancellation → Completion
  finished : Completion

unfoldable pub is_finished : Completion → Bool
is_finished finished = true
is_finished _ = false

-- What a method on `&mut self, &mut ResultQueues` leaves and returns.
pub record Step (A : Type 0) : Type 0 where
  pub completion : Completion
  pub queues : ResultQueues
  pub value : A
  pub effects : List Effect

unfoldable pub try_cancel : Completion → ResultQueues → Cancellation → Outcome (Step Bool)
unfolding Queues.get Queues.release
try_cancel (vacant waker) q cancel =
    done (record { completion = cancelled cancel; queues = q; value = true; effects = [] })
try_cancel (single result) q cancel = done (record {
  completion = finished;
  queues = q;
  value = false;
  effects = consume cancel result ++ drop_raw cancel;
})
try_cancel (multiple waker handle more) q cancel = do
  results ← Queues.get q handle
  released ← Queues.release q handle
  if more
      then done (record {
        completion = cancelled cancel;
        queues = released;
        value = true;
        effects = consume_all cancel results;
      })
      else done (record {
        completion = finished;
        queues = released;
        value = false;
        effects = consume_all cancel results ++ drop_raw cancel;
      })
try_cancel (cancelled old) q cancel = panic already_cancelled
try_cancel finished q cancel = panic already_cancelled

module _ (Q : Cqueue) where
  unfoldable pub try_notify : Completion → ResultQueues → RingResult → Outcome (Step (Unit {0}))
  unfolding Queues.handle Queues.push_back has_more
  try_notify (vacant waker) q result =
      if has_more Q result
      then (do
        let handle = (Queues.handle q).0
        pushed ← Queues.push_back (Queues.handle q).1 handle result
        done (record {
          completion = multiple waker handle true;
          queues = pushed;
          value = tt;
          effects = wake waker ∷ [];
        }))
      else done
          (record { completion = single result; queues = q; value = tt; effects = wake waker ∷ [] })
  try_notify (single old) q result = panic already_finished
  try_notify (multiple waker handle more) q result = do
    pushed ← Queues.push_back q handle result
    done (record {
      completion = multiple waker handle (has_more Q result);
      queues = pushed;
      value = tt;
      effects = wake waker ∷ [];
    })
  try_notify (cancelled cancel) q result = done (record {
    completion = finished;
    queues = q;
    value = tt;
    effects = consume cancel result ++ drop_raw cancel;
  })
  try_notify finished q result = panic already_finished

-- `pop_front`: what is returned, and what stays.
pop_front : List RingResult → Option RingResult × List RingResult
pop_front [] = (none, [])
pop_front (r ∷ rs) = (some r, rs)

abbrev is_nil : List RingResult → Bool
is_nil [] = true
is_nil (r ∷ rs) = false

unfoldable pub take_result : Completion → ResultQueues → Outcome (Step (Option RingResult))
unfolding Queues.get Queues.put Queues.release pop_front
take_result (single result) q =
    done (record { completion = finished; queues = q; value = some result; effects = [] })
take_result (multiple waker handle more) q = do
  results ← Queues.get q handle
  let (result, rest) = pop_front results
  let popped = Queues.put q handle rest
  if is_nil rest && not more
      then (do
        released ← Queues.release popped handle
        done (record { completion = finished; queues = released; value = result; effects = [] }))
      else done (record {
        completion = multiple waker handle more;
        queues = popped;
        value = result;
        effects = [];
      })
take_result (vacant waker) q =
    done (record { completion = vacant waker; queues = q; value = none; effects = [] })
take_result (cancelled cancel) q =
    done (record { completion = cancelled cancel; queues = q; value = none; effects = [] })
take_result finished q =
    done (record { completion = finished; queues = q; value = none; effects = [] })

module _ (S : Slab Completion) where
  open S use {Store, get, write, remove}

  pub record CompletionSet : Type 0 where
    pub slab : Store
    pub queues : ResultQueues

  -- The state, the value and the effects that a method on `&mut CompletionSet` leaves.
  pub record Done (A : Type 0) : Type 0 where
    pub set : CompletionSet
    pub value : A
    pub effects : List Effect

  unfoldable pub with_capacity : ℕ → CompletionSet
  with_capacity n = record { slab = S.with_capacity n; queues = Queues.with_capacity 4 }

  unfoldable pub is_empty : CompletionSet → Bool
  unfolding Slab.is_empty Queues.is_empty
  is_empty s = Slab.is_empty S s.slab && Queues.is_empty s.queues

  unfoldable pub insert : CompletionSet → ℕ → ℕ × CompletionSet
  unfolding Key.from_usize
  insert s waker =
      let added = S.insert (vacant waker) s.slab in
      (Key.from_usize added.0, record s { slab = added.1 })

  -- The completion is changed in place, and removed once it is finished.
  unfoldable pub with_completion :
      {A : Type 0}
      → CompletionSet
      → ℕ
      → (Completion → ResultQueues → Outcome (Step A))
      → Outcome (Done A)
  unfolding Key.as_usize is_finished
  with_completion s key fun = do
    completion ← expect unexpected_key (get (Key.as_usize key) s.slab)
    step ← fun completion s.queues
    let slab = write (Key.as_usize key) step.completion s.slab
    done (record {
      set = record {
        slab = if is_finished step.completion then remove (Key.as_usize key) slab else slab;
        queues = step.queues;
      };
      value = step.value;
      effects = step.effects;
    })

  unfoldable pub cancel : CompletionSet → ℕ → Cancellation → Outcome (Done Bool)
  unfolding with_completion
  cancel s key c = with_completion s key (λ completion q. try_cancel completion q c)

  unfoldable pub notify : Cqueue → CompletionSet → ℕ → RingResult → Outcome (Done (Unit {0}))
  unfolding with_completion
  notify Q s key r = with_completion s key (λ completion q. try_notify Q completion q r)

  unfoldable pub result : CompletionSet → ℕ → Outcome (Done (Option RingResult))
  unfolding with_completion
  result s key = with_completion s key take_result
