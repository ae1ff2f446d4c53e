-- ===== src/Ring/Counts.antt =====
-- The counters of a ring against the entries of its completion set.
use inel.Base.{
  ℕ, ◌+◌, ◌≤◌, ◌<◌, ◌≡◌, ◌≢◌, ◌^◌, refl, ap, ◌∙◌, ==_refl, Bool, Bool-cases, inl, inr, Option, none,
  some, [], ◌∷◌, ◌==◌, if◌then◌else◌, done, arith,
}
use inel.RingResult.{Cqueue}
use inel.Cancellation.{Cancellation}
use inel.Slab.{Slab}
use inel.IoUring.{IoUring, Entry}
use inel.Key
use inel.Completion
use inel.Completion.{Completion, vacant}
use inel.Completion.Own.{Inv}
use inel.Completion.Spec
use inel.Completion.Spec.{Phase, ongoing, closed, discarded, Reply}
use inel.Completion.Frame.{phase}
use inel.Completion.Refine.{Refined, insert_refines, cancel_refines, result_refines}
use inel.Completion.Weights.{in_flight, is_cancelled, pending, discards}
use inel.Ring.{Ring, ignore_key, increment, submit, push_cancel, cancel, check_result}

-- What cancelling does to the counts of one entry.
cancel_counts :
    (p : Phase) (x : Cancellation) {reply : Reply Bool}
    → Spec.cancel p x ≡ some reply
    → (pending reply.next ≡ pending (some p))
      × (discards reply.next ≡ (if reply.value then 1 else 0))
      × (discards (some p) ≡ 0)
unfolding Spec.cancel
cancel_counts (ongoing w rs) x e = ground (arith, e)
cancel_counts (closed rs) x e = ground (arith, e)
cancel_counts (discarded c) x e = cc

result_counts :
    (p : Phase)
    → (pending (Spec.result p).next ≡ pending (some p))
      × (discards (Spec.result p).next ≡ discards (some p))
unfolding Spec.result
result_counts (ongoing w []) = (refl, refl)
result_counts (ongoing w (r ∷ rs)) = (refl, refl)
result_counts (closed []) = (refl, refl)
result_counts (closed (r ∷ [])) = (refl, refl)
result_counts (closed (r ∷ x ∷ rs)) = (refl, refl)
result_counts (discarded c) = (refl, refl)

module _ (Q : Cqueue) (U : IoUring) (S : Slab Completion) where
  open S use {total, total-insert}

  -- `active` counts the entries in flight and, beyond them, `leaks`: those that a completion with
  -- MORE has freed after their cancellation. The cancellations since the last wait are those of
  -- entries in flight, each with a detached entry.
  pub record Leaky (leaks : ℕ) (r : Ring Q U S) : Type 0 where
    pub valid : Inv S r.completions
    pub active : r.active ≡ total in_flight r.completions.slab + leaks
    pub canceled : r.canceled ≤ total is_cancelled r.completions.slab
    pub detached : r.canceled ≤ r.detached
    pub small : r.active + r.detached < 2 ^ 31

  -- The counters are right.
  abbrev pub Counts : Ring Q U S → Type 0
  Counts r = Leaky 0 r

  -- With room in the keys and the counters, on a ring whose counters are right but for leaks, an
  -- entry that the kernel takes is counted, and its task waits under a key that was free and
  -- that, as user data, is not the one that the ring ignores.
  pub submit-Leaky :
      {leaks : ℕ} {r : Ring Q U S} (entry : Entry) (waker : ℕ) {ring : U.Instance}
      → Leaky leaks r
      → (S.insert (vacant waker) r.completions.slab).0 < 2 ^ 32
      → r.active + r.detached + 1 < 2 ^ 31
      → let k = (Completion.insert S r.completions waker).0 in
        U.push (record entry { user_data = Key.as_u64 k }) r.ring ≡ some ring
        → (r' : Ring Q U S) × (submit Q U S r entry waker ≡ done (r', k))
          × Leaky leaks r'
          × (r'.active ≡ r.active + 1)
          × (phase S r.completions k ≡ none)
          × (phase S r'.completions k ≡ some (ongoing waker []))
          × (Key.as_u64 k ≢ ignore_key)
  unfolding submit Completion.insert Key.as_u64 Key.from_usize
  submit-Leaky {r = r} entry waker {ring} v b small e =
      let (free, valid, phases) = insert_refines S waker v.valid b in
      (
        record r {
          ring = ring;
          completions = (Completion.insert S r.completions waker).1;
          active = increment r.active;
        },
        rw e,
        record {
          valid = valid;
          active =
              omega (
                arith,
                v.active,
                total-insert in_flight (vacant waker) r.completions.slab,
                v.small,
              );
          canceled =
              omega
                (arith, v.canceled, total-insert is_cancelled (vacant waker) r.completions.slab);
          detached = v.detached;
          small = omega (arith, small);
        },
        omega (arith, small),
        free,
        phases _ ∙ rw (==_refl (Key.from_usize (S.insert (vacant waker) r.completions.slab).0)),
        omega arith,
      )

  Cancelled : ℕ → Ring Q U S → ℕ → Option Entry → Cancellation → Reply Bool → Type 0
  Cancelled leaks r k entry x reply =
      (r' : Ring Q U S) × (cancel Q U S r k entry x
        ≡ done (record { ring = r'; value = tt; effects = reply.effects }))
      × Leaky leaks r'
      × (r'.active ≡ r.active)
      × ((j : ℕ)
          → phase S r'.completions j ≡ (if j == k then reply.next else phase S r.completions j))

  module _ (leaks : ℕ) (r : Ring Q U S) (v : Leaky leaks r)
      (small : r.active + r.detached + 1 < 2 ^ 31) (k : ℕ) (x : Cancellation) {p : Phase}
      {reply : Reply Bool} (e : phase S r.completions k ≡ some p)
      (facts : (pending reply.next ≡ pending (some p))
        × (discards reply.next ≡ (if reply.value then 1 else 0))
        × (discards (some p) ≡ 0))
      (m : Refined S r.completions k reply (Completion.cancel S r.completions k x)) where
    -- The set is counted as before, but for an entry that waits with a cancellation.
    kept : total in_flight m.set.slab ≡ total in_flight r.completions.slab
    kept = ground (arith, m.counted, facts.0, ap pending e)

    more :
        total is_cancelled m.set.slab
        ≡ total is_cancelled r.completions.slab + (if reply.value then 1 else 0)
    more = ground (arith, m.dropped, facts.1, facts.2, ap discards e)

    quiet : Ring Q U S
    quiet = record r { completions = m.set }

    quiet-Leaky : Leaky leaks quiet
    unfolding quiet
    quiet-Leaky = record {
      valid = m.valid;
      active = omega (arith, v.active, kept);
      canceled = omega (arith, v.canceled, more);
      detached = v.detached;
      small = v.small;
    }

    -- The result in the cases where no entry is pushed.
    unpushed :
        (entry : Option Entry)
        → cancel Q U S r k entry x
          ≡ done (record { ring = quiet; value = tt; effects = reply.effects })
        → Cancelled leaks r k entry x reply
    unfolding quiet Cancelled
    unpushed entry e' = (quiet, e', quiet-Leaky, refl, m.phases)

    cancel_cases :
        (entry : Option Entry)
        → ((n : Entry)
            → (ring : U.Instance) × (U.push (record n { user_data = ignore_key }) r.ring
                ≡ some ring))
        → Cancelled leaks r k entry x reply
    unfolding cancel push_cancel quiet Cancelled
    cancel_cases none accepts = unpushed none (ground (arith, m.returns))
    cancel_cases (some n) accepts = elim (Bool-cases reply.value) [
      | inr no_push ↦ unpushed (some n) (rw (m.returns, no_push))
      | inl push ↦
          let (ring, e') = accepts n in
          (
            record quiet {
              ring = ring;
              detached = increment r.detached;
              canceled = increment r.canceled;
            },
            rw (m.returns, push, e'),
            record {
              valid = m.valid;
              active = omega (arith, v.active, kept);
              canceled = ground (arith, v.canceled, more, push, v.detached, small);
              detached = omega (arith, v.detached, small);
              small = omega (arith, small);
            },
            refl,
            m.phases,
          )
    ]

  -- On a ring whose counters are right but for leaks and have room, and where the kernel's queue
  -- has room, a cancellation that the specification allows returns with the specified effects,
  -- keeps the leaks and the number of active entries the same, and leaves the key as specified
  -- and the other keys as they were.
  pub cancel-Leaky :
      {leaks : ℕ} {r : Ring Q U S} (k : ℕ) (entry : Option Entry) (x : Cancellation) {p : Phase}
      {reply : Reply Bool}
      → Leaky leaks r
      → r.active + r.detached + 1 < 2 ^ 31
      → ((e : Entry)
          → (ring : U.Instance) × (U.push (record e { user_data = ignore_key }) r.ring ≡ some ring))
      → phase S r.completions k ≡ some p
      → Spec.cancel p x ≡ some reply
      → (r' : Ring Q U S) × (cancel Q U S r k entry x
          ≡ done (record { ring = r'; value = tt; effects = reply.effects }))
        × Leaky leaks r'
        × (r'.active ≡ r.active)
        × ((j : ℕ)
            → phase S r'.completions j ≡ (if j == k then reply.next else phase S r.completions j))
  unfolding Cancelled
  cancel-Leaky {leaks} {r} k entry x {p} {reply} v small accepts e h =
      cancel_cases leaks r v small k x e (cancel_counts p x h) (cancel_refines S v.valid k x e h)
        entry accepts

  -- On a ring whose counters are right but for leaks, asking for a result under a key that holds
  -- something answers as specified, keeps the leaks and the number of active entries the same,
  -- and leaves the other keys as they were.
  pub check_result-Leaky :
      {leaks : ℕ} {r : Ring Q U S} (k : ℕ) {p : Phase}
      → Leaky leaks r
      → phase S r.completions k ≡ some p
      → (r' : Ring Q U S) × (check_result Q U S r k
          ≡ done (record {
            ring = r';
            value = (Spec.result p).value;
            effects = (Spec.result p).effects;
          }))
        × Leaky leaks r'
        × (r'.active ≡ r.active)
        × ((j : ℕ)
            → phase S r'.completions j
              ≡ (if j == k then (Spec.result p).next else phase S r.completions j))
  unfolding check_result
  check_result-Leaky {r = r} k {p} v e =
      let m = result_refines S v.valid k e in
      let (same, kept) = result_counts p in
      (
        record r { completions = m.set },
        rw m.returns,
        record {
          valid = m.valid;
          active = ground (arith, v.active, m.counted, same, ap pending e);
          canceled = ground (arith, v.canceled, m.dropped, kept, ap discards e);
          detached = v.detached;
          small = v.small;
        },
        refl,
        m.phases,
      )
