-- ===== src/Ring/Reached.antt =====
-- The rings that a program reaches.
use inel.Base.{
  done_eq, arith, refl, ℕ, ◌+◌, ◌≤◌, ◌<◌, ◌≡◌, ◌^◌, ◌∙◌, sym, subst, Bool, Option, some, List,
  length, done,
}
use inel.RingResult.{Cqueue, Cqe, RingResult}
use inel.Cancellation.{Cancellation, Effect}
use inel.Slab.{Slab}
use inel.IoUring.{IoUring, Entry}
use inel.Key
use inel.Completion
use inel.Completion.{Completion, vacant}
use inel.Completion.Spec
use inel.Completion.Spec.{Phase, Reply}
use inel.Completion.Frame.{phase}
use inel.Completion.Run.{Phases}
use inel.Ring.{
  Ring, After, ignore_key, submit, submit_detached, increment, cancel, check_result, wait,
}
use inel.Ring.Counts.{Leaky, Counts, submit-Leaky, cancel-Leaky, check_result-Leaky}
use inel.Ring.Delivery.{Delivery}
use inel.Ring.Waiting.{Called, wait-delivers}

module _ (Q : Cqueue) (U : IoUring) (S : Slab Completion) where
  -- One call on a ring, with what its caller has to see to: a live key, room in the queue of the
  -- kernel, and a kernel that answers only what was asked.
  -- The number is that of the completions that announce more for a cancelled entry.
  pub data Step (r : Ring Q U S) : ℕ → Ring Q U S → Type 0 where
    submits :
        (entry : Entry) (waker k : ℕ) (u : U.Instance) (r' : Ring Q U S)
        → r.active + r.detached + 1 < 2 ^ 31
        → (S.insert (vacant waker) r.completions.slab).0 < 2 ^ 32
        → U.push
            (record entry { user_data = Key.as_u64 (Completion.insert S r.completions waker).0 })
            r.ring
          ≡ some u
        → submit Q U S r entry waker ≡ done (r', k)
        → Step r 0 r'
    detaches :
        (entry : Entry) (u : U.Instance) (r' : Ring Q U S)
        → r.active + r.detached + 1 < 2 ^ 31
        → U.push (record entry { user_data = ignore_key }) r.ring ≡ some u
        → submit_detached Q U S r entry ≡ done r'
        → Step r 0 r'
    cancels :
        (k : ℕ) (entry : Option Entry) (x : Cancellation) (p : Phase) (reply : Reply Bool)
        (a : After Q U S (Unit {0}))
        → r.active + r.detached + 1 < 2 ^ 31
        → ((e : Entry)
            → (u : U.Instance) × (U.push (record e { user_data = ignore_key }) r.ring ≡ some u))
        → phase S r.completions k ≡ some p
        → Spec.cancel p x ≡ some reply
        → cancel Q U S r k entry x ≡ done a
        → Step r 0 a.ring
    asks :
        (k : ℕ) (p : Phase) (a : After Q U S (Option RingResult))
        → phase S r.completions k ≡ some p
        → check_result Q U S r k ≡ done a
        → Step r 0 a.ring
    waits :
        (τ : Phases) (es : List Cqe) (fx : List Effect) (n leaks : ℕ) (left : U.Instance)
        (a : After Q U S (Unit {0}))
        → length r.completions.queues.queues + length es < 2 ^ 32
        → n ≤ r.detached
        → Called Q U S r es left
        → Delivery Q U S (phase S r.completions) es τ fx n leaks
        → wait Q U S r ≡ done a
        → Step r leaks a.ring

  pub data Reached (r : Ring Q U S) : ℕ → Ring Q U S → Type 0 where
    start : Reached r 0 r
    next :
        {leaks more : ℕ} {s t : Ring Q U S}
        → Reached r leaks s
        → Step s more t
        → Reached r (leaks + more) t

  detached-Leaky :
      {leaks : ℕ} {r : Ring Q U S} (entry : Entry) (u : U.Instance)
      → Leaky Q U S leaks r
      → r.active + r.detached + 1 < 2 ^ 31
      → U.push (record entry { user_data = ignore_key }) r.ring ≡ some u
      → (r' : Ring Q U S) × (submit_detached Q U S r entry ≡ done r') × Leaky Q U S leaks r'
  unfolding submit_detached
  detached-Leaky {r = r} entry u v small e = (
    record r { ring = u; detached = increment r.detached },
    rw e refl,
    record {
      valid = v.valid;
      active = v.active;
      canceled = v.canceled;
      detached = omega (arith, v.detached, small);
      small = omega (arith, small);
    },
  )

  unchanged-Leaky : (leaks : ℕ) {r : Ring Q U S} → Leaky Q U S leaks r → Leaky Q U S (leaks + 0) r
  unchanged-Leaky leaks v = record {
    valid = v.valid;
    active = omega (arith, v.active);
    canceled = v.canceled;
    detached = v.detached;
    small = v.small;
  }

  step-Leaky :
      {leaks more : ℕ} {r t : Ring Q U S}
      → Leaky Q U S leaks r
      → Step r more t
      → Leaky Q U S (leaks + more) t
  step-Leaky {leaks} v (submits entry waker k u r' small key e q) =
      let (s, q', w, _, _, _, _) = submit-Leaky Q U S entry waker v key small e in
      unchanged-Leaky leaks (subst (λ b. Leaky Q U S leaks b.0) (done_eq (sym q' ∙ q)) w)
  step-Leaky {leaks} v (detaches entry u r' small e q) =
      let (s, q', w) = detached-Leaky entry u v small e in
      unchanged-Leaky leaks (subst (Leaky Q U S leaks) (done_eq (sym q' ∙ q)) w)
  step-Leaky {leaks} v (cancels k entry x p reply a small accepts at h q) =
      let (s, q', w, _, _) = cancel-Leaky Q U S k entry x v small accepts at h in
      unchanged-Leaky leaks (subst (λ b. Leaky Q U S leaks b.ring) (done_eq (sym q' ∙ q)) w)
  step-Leaky {leaks} v (asks k p a at q) =
      let (s, q', w, _, _) = check_result-Leaky Q U S k v at in
      unchanged-Leaky leaks (subst (λ b. Leaky Q U S leaks b.ring) (done_eq (sym q' ∙ q)) w)
  step-Leaky {leaks} v (waits τ es fx n more left a b le c d q) =
      let (s, q', w, _, _) = wait-delivers Q U S v b le c d in
      subst (λ b. Leaky Q U S (leaks + more) b.ring) (done_eq (sym q' ∙ q)) w

  -- From a ring whose counters are right, any sequence of submissions with room, detached or not,
  -- of allowed cancellations, of questions on live keys and of waits, in any order, where the kernel
  -- delivers ignored entries and completions of keys that expect them, leads to a ring where
  -- `active` is the number of entries in flight and, on top, of the completions so far that
  -- announced more for a cancelled entry: it is right where the kernel has delivered none of those,
  -- and never comes down to the entries in flight once it has. The cancellations counted since the
  -- last wait are no more than the cancelled entries in flight and no more than the detached
  -- entries.
  pub Reached-Leaky :
      {r : Ring Q U S} {leaks : ℕ} {t : Ring Q U S}
      → Counts Q U S r
      → Reached r leaks t
      → Leaky Q U S leaks t
  Reached-Leaky v start = v
  Reached-Leaky v (next h s) = step-Leaky (Reached-Leaky v h) s
