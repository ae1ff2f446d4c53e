-- ===== src/Runtime.antt =====
-- `GlobalReactor` and `init` of crates/inel/src/lib.rs, and the calls of
-- crates/inel-reactor/src/reactor.rs that reach the ring through it. The ring of a thread is `none`
-- once the thread has destroyed it. No call of the ring comes back to it, so that the borrows of its
-- `RefCell` are left out.
pub mod Init
pub mod Gone
mod Tests
use inel.Base.{
  ℕ, Bool, if◌then◌else◌, Option, none, some, [], List, Outcome, done, panic, expect, unwrap_failed,
  reactor_gone, reactor_running, ◌>>=◌,
}
use inel.RingResult.{Cqueue, RingResult}
use inel.Cancellation.{Cancellation, Effect, drop_raw}
use inel.Slab.{Slab}
use inel.IoUring.{IoUring, Entry}
use inel.Completion.{Completion}
use inel.Ring
use inel.Ring.{Ring, After, IoResult}
use inel.Ring.Options.{RingOptions, build}

module _ (Q : Cqueue) (U : IoUring) (S : Slab Completion) where
  pub record Left (A : Type 0) : Type 0 where
    pub local : Option (Ring Q U S)
    pub value : A
    pub effects : List Effect

  -- `GlobalReactor::with`: where the ring is gone, what the closure owns is dropped, which the
  -- effects `unused` are.
  unfoldable pub with_ring :
      {A : Type 0}
      → Option (Ring Q U S)
      → List Effect
      → (Ring Q U S → Outcome (After Q U S A))
      → Outcome (Left (Option A))
  with_ring none unused f = done (record { local = none; value = none; effects = unused })
  with_ring (some r) unused f = do
    a ← f r
    done (record { local = some a.ring; value = some a.value; effects = a.effects })

  -- `.unwrap()` on what `with` gives.
  unfoldable pub unwrapped : {A : Type 0} → Left (Option A) → Outcome (Left A)
  unwrapped l = do
    value ← expect unwrap_failed l.value
    done (record { local = l.local; value = value; effects = l.effects })

  -- A call without effects.
  abbrev plain : {A : Type 0} → Ring Q U S × A → After Q U S A
  plain (r, value) = record { ring = r; value = value; effects = [] }

  -- The task's waker in the closure has no effect here when it is dropped.
  unfoldable pub submit : Option (Ring Q U S) → Entry → ℕ → Outcome (Left ℕ)
  unfolding with_ring unwrapped
  submit l entry waker = do
    left ← with_ring l [] (λ r. do a ← Ring.submit Q U S r entry waker; done (plain a))
    unwrapped left

  unfoldable pub submit_detached : Option (Ring Q U S) → Entry → Outcome (Left (Option (Unit {0})))
  unfolding with_ring
  submit_detached l entry =
      with_ring l [] (λ r. do r' ← Ring.submit_detached Q U S r entry; done (plain (r', tt)))

  unfoldable pub cancel :
      Option (Ring Q U S) → ℕ → Option Entry → Cancellation → Outcome (Left (Option (Unit {0})))
  unfolding with_ring
  cancel l key entry c = with_ring l (drop_raw c) (λ r. Ring.cancel Q U S r key entry c)

  unfoldable pub check_result : Option (Ring Q U S) → ℕ → Outcome (Left (Option RingResult))
  unfolding with_ring unwrapped
  check_result l key = do left ← with_ring l [] (λ r. Ring.check_result Q U S r key); unwrapped left

  unfoldable pub register_buffer : Option (Ring Q U S) → ℕ → ℕ → Outcome (Left (IoResult ℕ))
  unfolding with_ring unwrapped
  register_buffer l ptr size = do
    left ← with_ring l [] (λ r. done (plain (Ring.register_buffer Q U S r ptr size)))
    unwrapped left

  unfoldable pub get_direct_slot : Option (Ring Q U S) → Outcome (Left (IoResult ℕ))
  unfolding with_ring unwrapped
  get_direct_slot l = do
    left ← with_ring l [] (λ r. done (plain (Ring.get_direct_slot Q U S r)))
    unwrapped left

  unfoldable pub get_buffer_group : Option (Ring Q U S) → Outcome (Left (IoResult ℕ))
  unfolding with_ring unwrapped
  get_buffer_group l = do
    left ← with_ring l [] (λ r. done (plain (Ring.get_buffer_group Q U S r)))
    unwrapped left

  -- The calls that give a slot back.
  released : Option (Ring Q U S) → (Ring Q U S → Ring Q U S) → Outcome (Left (Option (Unit {0})))
  unfolding with_ring
  released l f = with_ring l [] (λ r. done (plain (f r, tt)))

  unfoldable pub unregister_buffer : Option (Ring Q U S) → ℕ → Outcome (Left (Option (Unit {0})))
  unfolding released
  unregister_buffer l slot = released l (λ r. Ring.unregister_buffer Q U S r slot)

  unfoldable pub release_direct_slot : Option (Ring Q U S) → ℕ → Outcome (Left (Option (Unit {0})))
  unfolding released
  release_direct_slot l slot = released l (λ r. Ring.release_direct_slot Q U S r slot)

  unfoldable pub release_buffer_group : Option (Ring Q U S) → ℕ → Outcome (Left (Option (Unit {0})))
  unfolding released
  release_buffer_group l slot = released l (λ r. Ring.release_buffer_group Q U S r slot)

  -- `GlobalReactor::wait`.
  unfoldable pub wait : Option (Ring Q U S) → Outcome (After Q U S (Unit {0}))
  wait l = do r ← expect reactor_gone l; Ring.wait Q U S r

  -- `is_done` of the crate.
  unfoldable pub is_done : Option (Ring Q U S) → Outcome Bool
  is_done l = do r ← expect reactor_gone l; done (Ring.is_done Q U S r)

  unfoldable pub init : Option (Ring Q U S) → RingOptions → Outcome (Option (Ring Q U S))
  unfolding is_done build
  init l o = do
    idle ← is_done l
    if idle then (do r ← build Q U S o; done (some r)) else panic reactor_running
