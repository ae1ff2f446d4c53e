-- ===== src/Runtime/Gone.antt =====
-- What the calls do once a thread has destroyed its ring.
use inel.Base.{ℕ, ◌<◌, ◌≡◌, refl, inl, inr, Option, none, done, panic, unwrap_failed, arith}
use inel.RingResult.{Cqueue}
use inel.Cancellation.{Cancellation}
use inel.Slab.{Slab}
use inel.IoUring.{IoUring, Entry}
use inel.Completion.{Completion}
use inel.Buffer.Kept.{Keeps, Frees}
use inel.Runtime.{
  Left, with_ring, unwrapped, cancel, submit, check_result, get_direct_slot, get_buffer_group,
}

module _ (Q : Cqueue) (U : IoUring) (S : Slab Completion) where
  -- Cancelling an entry on a thread whose ring is gone does not panic, and frees at once the memory
  -- that the cancellation keeps, whether or not the kernel has done with it.
  pub cancel-Frees :
      (key : ℕ) (entry : Option Entry) (c : Cancellation) (p n : ℕ)
      → 0 < n
      → Keeps c p n
      → (l : Left Q U S (Option (Unit {0}))) × (cancel Q U S none key entry c ≡ done l)
        × (l.local ≡ none)
        × Frees p n l.effects
  unfolding cancel with_ring Keeps
  cancel-Frees key entry c p n some_bytes (inl z) = absurd (omega (arith, z, some_bytes))
  cancel-Frees key entry c p n some_bytes (inr frees) = (_, refl, refl, frees)

  -- The calls that must answer panic on such a thread.
  pub answers_panic :
      (entry : Entry) (waker key : ℕ)
      → (submit Q U S none entry waker ≡ panic unwrap_failed)
        × (check_result Q U S none key ≡ panic unwrap_failed)
        × (get_direct_slot Q U S none ≡ panic unwrap_failed)
        × (get_buffer_group Q U S none ≡ panic unwrap_failed)
  unfolding submit check_result get_direct_slot get_buffer_group with_ring unwrapped
  answers_panic entry waker key = (refl, refl, refl, refl)
