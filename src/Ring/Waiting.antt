-- ===== src/Ring/Waiting.antt =====
-- A whole wait: the call of the kernel, and the completions that it delivers.
use inel.Base.{
  ℕ, ◌+◌, ◌%◌, ◌≤◌, ◌<◌, ◌≡◌, ◌^◌, refl, ap, Bool-cases, inl, inr, some, List, length, ◌==◌, done,
  arith,
}
use inel.RingResult.{Cqueue, Cqe}
use inel.Cancellation.{Effect}
use inel.Slab.{Slab}
use inel.IoUring.{IoUring}
use inel.Completion.{Completion}
use inel.Completion.Frame.{phase}
use inel.Completion.Run.{Phases}
use inel.Ring.{Ring, want, submit_and_wait, handle_completions, wait}
use inel.Ring.Counts.{Leaky}
use inel.Ring.Delivery.{Delivery, handle_all_delivers}

module _ (Q : Cqueue) (U : IoUring) (S : Slab Completion) where
  -- The ring after the call of the kernel, and what is then ready. The kernel is called while
  -- something is outstanding.
  pub record Called (r : Ring Q U S) (es : List Cqe) (left : U.Instance) : Type 0 where
    pub after : U.Instance
    pub returns : (0 < r.active + r.detached → U.submit_and_wait (want Q U S r) r.ring ≡ some after)
    pub idle : r.active + r.detached ≡ 0 → after ≡ r.ring
    pub ready : U.completion after ≡ (es, left)

  module _ {before : ℕ} (r : Ring Q U S) (v : Leaky Q U S before r) {es : List Cqe}
      {left : U.Instance} (c : Called r es left) where
    called : Ring Q U S
    called = record r { ring = c.after; canceled = 0 }

    called-Leaky : Leaky Q U S before called
    unfolding called
    called-Leaky = record {
      valid = v.valid;
      active = v.active;
      canceled = omega arith;
      detached = omega arith;
      small = v.small;
    }

    submit_and_wait-done : submit_and_wait Q U S r ≡ done called
    unfolding submit_and_wait called
    submit_and_wait-done = elim (Bool-cases ((r.active + r.detached) % 2 ^ 32 == 0)) [
      | inl y ↦
          let idle : c.after ≡ r.ring = c.idle (ground (arith, y, v.small)) in
          let none_canceled : r.canceled ≡ 0 = ground (arith, y, v.small, v.detached) in
          rw (y, idle) (ap (λ n. done (record r { canceled = n })) none_canceled)
      | inr y ↦ rw (y, c.returns (ground (arith, y))) refl
    ]

  -- A wait, in which the kernel is called if something is outstanding and does not fail, returns,
  -- provided that what is then ready are ignored entries and completions of keys that expect them.
  -- Each of those reaches its key as the specification says, in order, and each ignored entry is
  -- taken off the detached ones. `active` goes on counting the entries in flight and as many more as
  -- it did before, with one more for each of the completions that announces more for an entry that
  -- has been cancelled, which is freed and never taken off: where there is none of these, counters
  -- that were right stay so.
  pub wait-delivers :
      {before leaks : ℕ} {r : Ring Q U S} {τ : Phases} {es : List Cqe} {fx : List Effect} {n : ℕ}
      {left : U.Instance}
      → Leaky Q U S before r
      → length r.completions.queues.queues + length es < 2 ^ 32
      → n ≤ r.detached
      → Called r es left
      → Delivery Q U S (phase S r.completions) es τ fx n leaks
      → (r' : Ring Q U S) × (wait Q U S r ≡ done (record { ring = r'; value = tt; effects = fx }))
        × Leaky Q U S (before + leaks) r'
        × (phase S r'.completions ≡ τ)
        × (r'.detached + n ≡ r.detached)
  unfolding wait handle_completions called
  wait-delivers {before} {r = r} {left = left} v b le c d =
      let calm : Leaky Q U S before (record (called r v c) { ring = left }) = record {
        valid = v.valid;
        active = v.active;
        canceled = omega arith;
        detached = omega arith;
        small = v.small;
      } in
      let (r', e, v', p, same) =
        handle_all_delivers Q U S {r = record (called r v c) { ring = left }} calm refl b le refl
          d in
      (r', rw (submit_and_wait-done r v c, c.ready) e, v', p, same)
