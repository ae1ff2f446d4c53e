-- ===== src/Ring/Delivery.antt =====
-- The completions that a wait delivers, against the phases of the keys.
use inel.Base.{
  ℕ, suc, ◌+◌, ◌%◌, ◌≤◌, ◌<◌, ◌≡◌, ◌≢◌, ◌^◌, refl, ap, fun_ext, ◌∙◌, ==_ne, true, false, Bool-cases,
  ◌⊎◌, inl, inr, some, List, [], ◌∷◌, ◌++◌, length, ◌==◌, if◌then◌else◌, Outcome, done, arith,
}
use inel.RingResult.{Cqueue, Cqe, RingResult, from_completion, has_more}
use inel.Cancellation.{Effect}
use inel.Slab.{Slab}
use inel.IoUring.{IoUring}
use inel.Key
use inel.Completion
use inel.Completion.{Completion}
use inel.Completion.Spec
use inel.Completion.Spec.{Phase, ongoing, closed, discarded, Reply}
use inel.Completion.Frame.{phase}
use inel.Completion.Refine.{Refined, notify_refines}
use inel.Completion.Weights.{in_flight, pending}
use inel.Completion.Run.{Phases, update}
use inel.Ring.{Ring, After, ignore_key, decrement, handle_completion, handle_all}
use inel.Ring.Counts.{Leaky}

-- 1 for a completion that announces more for a cancelled entry, which it frees all the same.
unfoldable pub leak : Cqueue → Phase → RingResult → ℕ
unfolding has_more
leak Q (discarded c) r = if has_more Q r then 1 else 0
leak Q (ongoing w rs) r = 0
leak Q (closed rs) r = 0

notify_counts :
    (Q : Cqueue) (p : Phase) (r : RingResult) {reply : Reply (Unit {0})}
    → Spec.notify Q p r ≡ some reply
    → (pending (some p) ≡ 1) × (pending reply.next + leak Q p r ≡ (if has_more Q r then 1 else 0))
unfolding Spec.notify has_more leak
notify_counts Q (ongoing w rs) r e = (refl, ground (arith, e))
notify_counts Q (closed rs) r e = cc
notify_counts Q (discarded c) r e = (refl, ground (arith, e))

module _ (Q : Cqueue) (U : IoUring) (S : Slab Completion) where
  -- Entries that the kernel may deliver: those with the ignored key, and completions of keys that
  -- expect them, which leave the phases, and have the effects, of the specification. `n` counts the
  -- ignored ones, and `leaks` those that announce more for a cancelled entry.
  pub data Delivery : Phases → List Cqe → Phases → List Effect → ℕ → ℕ → Type 0 where
    nothing : {σ : Phases} → Delivery σ [] σ [] 0 0
    ignored :
        {σ τ : Phases} (e : Cqe) {es : List Cqe} {fx : List Effect} {n leaks : ℕ}
        → e.user_data ≡ ignore_key
        → Delivery σ es τ fx n leaks
        → Delivery σ (e ∷ es) τ fx (suc n) leaks
    delivered :
        {σ τ : Phases} (e : Cqe) (p : Phase) (reply : Reply (Unit {0})) {es : List Cqe}
        {fx : List Effect} {n leaks : ℕ}
        → e.user_data < 2 ^ 32
        → σ e.user_data ≡ some p
        → Spec.notify Q p (from_completion e) ≡ some reply
        → Delivery (update σ e.user_data reply.next) es τ fx n leaks
        → Delivery σ (e ∷ es) τ (reply.effects ++ fx) n (leak Q p (from_completion e) + leaks)

  -- What one completion leaves.
  pub record Handled (leaks : ℕ) (r : Ring Q U S) (k : ℕ) (reply : Reply (Unit {0}))
      (o : Outcome (After Q U S (Unit {0}))) : Type 0 where
    pub ring : Ring Q U S
    pub returns : o ≡ done (record { ring = ring; value = tt; effects = reply.effects })
    pub counts : Leaky Q U S leaks ring
    pub uncancelled : ring.canceled ≡ 0
    pub detached : ring.detached ≡ r.detached
    pub grown : length ring.completions.queues.queues ≤ length r.completions.queues.queues + 1
    pub phases :
        (j : ℕ)
        → phase S ring.completions j ≡ (if j == k then reply.next else phase S r.completions j)

  handle_completion-Handled :
      {leaks : ℕ} {r : Ring Q U S} (e : Cqe) (p : Phase) {reply : Reply (Unit {0})}
      → Leaky Q U S leaks r
      → r.canceled ≡ 0
      → length r.completions.queues.queues < 2 ^ 32
      → e.user_data < 2 ^ 32
      → phase S r.completions e.user_data ≡ some p
      → Spec.notify Q p (from_completion e) ≡ some reply
      → Handled
          (leaks + leak Q p (from_completion e))
          r
          e.user_data
          reply
          (handle_completion Q U S r e)
  unfolding handle_completion Key.from_u64
  handle_completion-Handled {leaks} {r} e p {reply} v c b small at h = record {
    ring = record r {
      active = if has_more Q (from_completion e) then r.active else decrement r.active;
      completions = m.set;
    };
    returns = rw (==_ne e.user_data ignore_key other, cut, m.returns);
    counts = record {
      valid = m.valid;
      active = counted (Bool-cases (has_more Q (from_completion e)));
      canceled = omega (arith, c);
      detached = omega (arith, c);
      small = fewer (Bool-cases (has_more Q (from_completion e)));
    };
    uncancelled = c;
    detached = refl;
    grown = m.grown;
    phases = m.phases;
  }
    where
      other : e.user_data ≢ ignore_key
      other q = omega (arith, small)

      cut : e.user_data % 2 ^ 32 ≡ e.user_data
      cut = omega arith

      m :
          Refined S r.completions e.user_data reply
            (Completion.notify S Q r.completions e.user_data (from_completion e))
      m = notify_refines S v.valid e.user_data Q (from_completion e) b at h

      facts :
          (pending (some p) ≡ 1)
          × (pending reply.next + leak Q p (from_completion e)
              ≡ (if has_more Q (from_completion e) then 1 else 0))
      facts = notify_counts Q p (from_completion e) h

      counted :
          ((has_more Q (from_completion e) ≡ true) ⊎ (has_more Q (from_completion e) ≡ false))
          → (if has_more Q (from_completion e) then r.active else decrement r.active)
            ≡ S.total in_flight m.set.slab + (leaks + leak Q p (from_completion e))
      counted (inl y) =
          rw y (ground (arith, v.active, m.counted, ap pending at, facts.0, facts.1, y))
      counted (inr n) =
          rw n (ground (arith, v.active, v.small, m.counted, ap pending at, facts.0, facts.1, n))

      fewer :
          ((has_more Q (from_completion e) ≡ true) ⊎ (has_more Q (from_completion e) ≡ false))
          → (if has_more Q (from_completion e) then r.active else decrement r.active) + r.detached
            < 2 ^ 31
      fewer (inl y) = rw y v.small
      fewer (inr n) =
          rw n (ground (arith, v.active, v.small, m.counted, ap pending at, facts.0, facts.1, n))

  handle_ignored :
      (r : Ring Q U S) (e : Cqe)
      → e.user_data ≡ ignore_key
      → handle_completion Q U S r e
        ≡ done (record {
          ring = record r { detached = decrement r.detached };
          value = tt;
          effects = [];
        })
  unfolding handle_completion
  handle_ignored r e i = rw i

  sum-Leaky :
      (a b c : ℕ) {r : Ring Q U S} → Leaky Q U S ((a + b) + c) r → Leaky Q U S (a + (b + c)) r
  sum-Leaky a b c {r} v = record {
    valid = v.valid;
    active = omega (arith, v.active);
    canceled = v.canceled;
    detached = v.detached;
    small = v.small;
  }

  -- On a ring whose counters are right but for leaks and whose count of cancellations is 0, the
  -- completions of one wait, in order: each reaches its key as the specification says, `active`
  -- keeps what they leak beyond the entries in flight, and each ignored entry is taken off the
  -- detached ones.
  pub handle_all_delivers :
      {before leaks : ℕ} {r : Ring Q U S} {σ τ : Phases} {es : List Cqe} {fx : List Effect} {n : ℕ}
      → Leaky Q U S before r
      → r.canceled ≡ 0
      → length r.completions.queues.queues + length es < 2 ^ 32
      → n ≤ r.detached
      → phase S r.completions ≡ σ
      → Delivery σ es τ fx n leaks
      → (r' : Ring Q U S) × (handle_all Q U S r es
          ≡ done (record { ring = r'; value = tt; effects = fx }))
        × Leaky Q U S (before + leaks) r'
        × (phase S r'.completions ≡ τ)
        × (r'.detached + n ≡ r.detached)
  unfolding handle_all
  handle_all_delivers {before} {r = r} v c b le p nothing = (
    r,
    refl,
    record {
      valid = v.valid;
      active = omega (arith, v.active);
      canceled = v.canceled;
      detached = v.detached;
      small = v.small;
    },
    p,
    omega arith,
  )
  handle_all_delivers {before} {r = r} v c b le p (ignored e {fx = fx} i rest) =
      let less : Leaky Q U S before (record r { detached = decrement r.detached }) = record {
        valid = v.valid;
        active = v.active;
        canceled = v.canceled;
        detached = omega (arith, c);
        small = omega (arith, v.small, le);
      } in
      let (r', q, v', p', d) =
        handle_all_delivers {before = before} {r = record r { detached = decrement r.detached }}
          less c (omega (arith, b)) (omega (arith, le, v.small)) p rest in
      (r', rw (handle_ignored r e i, q), v', p', omega (arith, d, le, v.small))
  handle_all_delivers {before} {r = r} v c b le p
        (delivered e ph reply {leaks = leaks} small at h rest) =
      let m =
        handle_completion-Handled e ph v c (omega (arith, b)) small (ap (λ σ. σ e.user_data) p ∙ at)
          h in
      let (r', q, v', p', d) =
        handle_all_delivers {before = before + leak Q ph (from_completion e)} {r = m.ring} m.counts
          m.uncancelled (omega (arith, b, m.grown)) (omega (arith, le, m.detached))
          (fun_ext (λ j. m.phases j ∙ ap (λ τ. update τ e.user_data reply.next j) p)) rest in
      (
        r',
        rw (m.returns, q),
        sum-Leaky before (leak Q ph (from_completion e)) leaks v',
        p',
        omega (arith, d, m.detached),
      )
