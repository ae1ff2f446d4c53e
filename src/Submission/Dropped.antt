-- ===== src/Submission/Dropped.antt =====
-- A future that is polled once and dropped while its operation is in flight.
use inel.Base.{ℕ, ◌+◌, ◌<◌, ◌^◌, ◌≡◌, refl, ap, ◌∙◌, ==_refl, some, [], Outcome, done, panic, arith}
use inel.RingResult.{Cqueue}
use inel.Cancellation.{Cancellation, consume_all}
use inel.Slab.{Slab}
use inel.IoUring.{IoUring, Entry}
use inel.Key
use inel.Completion
use inel.Completion.{Completion, vacant}
use inel.Completion.Spec
use inel.Completion.Spec.{Phase, ongoing, discarded}
use inel.Completion.Frame.{phase}
use inel.Op.{Op}
use inel.Ring.{Ring, submit}
use inel.Ring.Counts.{Counts, submit-Leaky, cancel-Leaky}
use inel.Submission.{new, pending, Polling, poll, cancel, begin, started}

module _ (Q : Cqueue) (U : IoUring) (S : Slab Completion) where
  -- The queue of the kernel always has room, the keys have room for one more and the counters for
  -- two.
  pub record Spare (r : Ring Q U S) : Type 0 where
    pub accepts : (e : Entry) (u : U.Instance) → (v : U.Instance) × (U.push e u ≡ some v)
    pub key : (waker : ℕ) → (S.insert (vacant waker) r.completions.slab).0 < 2 ^ 32
    pub small : r.active + r.detached + 2 < 2 ^ 31

  -- A first poll that hands the entry `e` to the kernel, and after which a drop leaves `c` to the
  -- entry that is in flight.
  pub record InFlight {O : Op} {A : Type 0} (r : Ring Q U S) (p : Polling Q U S O A) (e : Entry)
      (c : Cancellation) : Type 0 where
    pub polled : Ring Q U S
    pub dropped : Ring Q U S
    pub key : ℕ
    pub waits : p.outcome ≡ done (record { ring = polled; value = pending; effects = [] })
    pub pushed : U.push (record e { user_data = Key.as_u64 key }) r.ring ≡ some polled.ring
    pub cancels :
        cancel Q U S O polled p.submission
        ≡ done (record { ring = dropped; value = tt; effects = [] })
    pub left : phase S dropped.completions key ≡ some (discarded c)
    pub counts : Counts Q U S dropped

  of_done : {A : Type 0} → A → Outcome A → A
  of_done a (done b) = b
  of_done a (panic e) = a

  -- What `submit` has pushed, and that no entry is detached by it.
  submit-pushed :
      (r : Ring Q U S) {r' : Ring Q U S} (entry : Entry) (waker : ℕ) {u : U.Instance}
      → let k = (Completion.insert S r.completions waker).0 in
        U.push (record entry { user_data = Key.as_u64 k }) r.ring ≡ some u
        → submit Q U S r entry waker ≡ done (r', k)
        → (u ≡ r'.ring) × (r.detached ≡ r'.detached)
  unfolding submit of_done
  submit-pushed r {r'} entry waker pushed e =
      let same = ap (of_done (r', 0)) (rw pushed at e) in
      (ap (λ x. x.0.ring) same, ap (λ x. x.0.detached) same)

  -- A future whose entry the ring takes is in flight after its first poll.
  pub new-InFlight :
      (O : Op) {r : Ring Q U S} (self : O.Self) (waker : ℕ)
      → Counts Q U S r
      → Spare r
      → InFlight r (poll Q U S O r (new O self) waker) (O.entry self).0 (O.cancel (O.entry self).1)
  unfolding poll new begin started cancel Spec.cancel consume_all
  new-InFlight O {r} self waker v room =
      let k = (Completion.insert S r.completions waker).0 in
      let (u, pushed) =
        room.accepts (record (O.entry self).0 { user_data = Key.as_u64 k }) r.ring in
      let (r', e, v', more, _, at, _) =
        submit-Leaky Q U S (O.entry self).0 waker v (room.key waker) (omega (arith, room.small))
          pushed in
      let (ring, detached) = submit-pushed r (O.entry self).0 waker pushed e in
      let (r'', e', v'', _, phases) =
        cancel-Leaky Q U S k (O.entry_cancel (Key.as_u64 k)) (O.cancel (O.entry self).1) v'
          (omega (arith, room.small, more, detached)) (λ e. room.accepts _ _) at refl in
      record {
        polled = r';
        dropped = r'';
        key = k;
        waits = rw e refl;
        pushed = pushed ∙ ap some ring;
        cancels = rw e e';
        left = phases k ∙ rw (==_refl k) refl;
        counts = v'';
      }
