-- ===== src/Completion/Run.antt =====
-- Any sequence of calls on a completion set, on any keys in any order, against one phase per key.
use inel.Base.{
  ℕ, ◌+◌, ◌<◌, ◌≡◌, ◌^◌, refl, ap, subst, fun_ext, ◌∙◌, Bool, Option, none, some, List, [], ◌∷◌,
  length, ◌==◌, if◌then◌else◌, Outcome, done, ◌>>=◌, arith,
}
use inel.RingResult.{RingResult, Cqueue}
use inel.Cancellation.{Cancellation, Effect}
use inel.Slab.{Slab}
use inel.Completion.{Completion, CompletionSet, Done, cancel, notify, result}
use inel.Completion.Own.{Inv}
use inel.Completion.Spec
use inel.Completion.Spec.{Phase, discarded, Reply}
use inel.Completion.Frame.{phase}
use inel.Completion.Refine.{Refined, cancel_refines, notify_refines, result_refines}

pub data Call : Type 0 where
  notifies : RingResult → Call
  cancels : Cancellation → Call
  asks : Call

pub data Answer : Type 0 where
  nothing : Answer
  told : Bool → Answer
  gave : Option RingResult → Answer

-- What a caller and the world see of each call.
abbrev pub Log : Type 0
Log = List (Answer × List Effect)

-- One phase for each key, `none` for a free one.
abbrev pub Phases : Type 0
Phases = ℕ → Option Phase

abbrev pub update : Phases → ℕ → Option Phase → Phases
update σ k p j = if j == k then p else σ j

abbrev pub relabel : {A : Type 0} → (A → Answer) → Reply A → Reply Answer
relabel f r = record { next = r.next; value = f r.value; effects = r.effects }

abbrev pub relabel? : {A : Type 0} → (A → Answer) → Option (Reply A) → Option (Reply Answer)
relabel? f none = none
relabel? f (some r) = some (relabel f r)

some_eq : {A : Type 0} {a b : A} → some a ≡ some b → a ≡ b
some_eq e = cc

relabel?-some :
    {A : Type 0} (f : A → Answer) (o : Option (Reply A)) {reply : Reply Answer}
    → relabel? f o ≡ some reply
    → (r : Reply A) × (o ≡ some r) × (relabel f r ≡ reply)
relabel?-some f none e = cc
relabel?-some f (some r) e = (r, refl, cc)

module _ (Q : Cqueue) where
  -- The reply of the specification, `none` against the protocol.
  abbrev pub reply_to : Phase → Call → Option (Reply Answer)
  reply_to p (notifies r) = relabel? (λ _. nothing) (Spec.notify Q p r)
  reply_to p (cancels x) = relabel? told (Spec.cancel p x)
  reply_to p asks = some (relabel gave (Spec.result p))

  -- A log of the calls, by the phases alone.
  pub data Runs : Phases → List (ℕ × Call) → Log → Type 0 where
    stop : {σ : Phases} → Runs σ [] []
    next :
        {σ : Phases} (k : ℕ) (p : Phase) (c : Call) (reply : Reply Answer) {calls : List (ℕ × Call)}
        {log : Log}
        → σ k ≡ some p
        → reply_to p c ≡ some reply
        → Runs (update σ k reply.next) calls log
        → Runs σ ((k, c) ∷ calls) ((reply.value, reply.effects) ∷ log)

  module _ (S : Slab Completion) where
    abbrev pub answer : {A : Type 0} → (A → Answer) → Done S A → Done S Answer
    answer f d = record { set = d.set; value = f d.value; effects = d.effects }

    unfoldable pub perform : CompletionSet S → ℕ → Call → Outcome (Done S Answer)
    perform s k (notifies r) = do d ← notify S Q s k r; done (answer (λ _. nothing) d)
    perform s k (cancels x) = do d ← cancel S s k x; done (answer told d)
    perform s k asks = do d ← result S s k; done (answer gave d)

    unfoldable pub run : CompletionSet S → List (ℕ × Call) → Outcome (CompletionSet S × Log)
    run s [] = done (s, [])
    run s ((k, c) ∷ calls) = do
      d ← perform s k c
      (t, log) ← run d.set calls
      done (t, (d.value, d.effects) ∷ log)

    relabel-Refined :
        {A : Type 0} {s : CompletionSet S} {k : ℕ} (f : A → Answer) {r : Reply A}
        {o : Outcome (Done S A)}
        → Refined S s k r o
        → Refined S s k (relabel f r) (o >>= λ d. done (answer f d))
    relabel-Refined f m = record {
      set = m.set;
      returns = rw m.returns;
      valid = m.valid;
      grown = m.grown;
      counted = m.counted;
      dropped = m.dropped;
      phases = m.phases;
    }

    -- Every call that the specification allows succeeds, with the specified answer.
    perform_refines :
        {s : CompletionSet S} (v : Inv S s) (k : ℕ) (c : Call) {p : Phase} {reply : Reply Answer}
        → length s.queues.queues < 2 ^ 32
        → phase S s k ≡ some p
        → reply_to p c ≡ some reply
        → Refined S s k reply (perform s k c)
    unfolding perform
    perform_refines {s = s} v k (notifies r) {p} b e h =
        let (r', n, q) = relabel?-some (λ _. nothing) (Spec.notify Q p r) h in
        subst (λ x. Refined S s k x (perform s k (notifies r))) q
          (relabel-Refined (λ _. nothing) (notify_refines S v k Q r b e n))
    perform_refines {s = s} v k (cancels x) {p} b e h =
        let (r', n, q) = relabel?-some told (Spec.cancel p x) h in
        subst (λ y. Refined S s k y (perform s k (cancels x))) q
          (relabel-Refined told (cancel_refines S v k x e n))
    perform_refines {s = s} v k asks b e h =
        subst (λ y. Refined S s k y (perform s k asks)) (some_eq h)
          (relabel-Refined gave (result_refines S v k e))

    run_from :
        {σ : Phases} {s : CompletionSet S} {calls : List (ℕ × Call)} {log : Log}
        → Inv S s
        → length s.queues.queues + length calls < 2 ^ 32
        → phase S s ≡ σ
        → Runs σ calls log
        → (t : CompletionSet S) × (run s calls ≡ done (t, log)) × Inv S t
    unfolding run
    run_from {s = s} v b e stop = (s, refl, v)
    run_from {s = s} v b e (next k p c reply at h rest) =
        let m = perform_refines v k c (omega arith) (ap (λ σ. σ k) e ∙ at) h in
        let (t, q, w) =
          run_from m.valid (omega (arith, m.grown))
            (fun_ext (λ j. m.phases j ∙ ap (λ τ. update τ k reply.next j) e)) rest in
        (t, rw (m.returns, q), w)

    -- On a set that satisfies the invariant and has room for more queues, each call of a sequence
    -- that the specification allows, on whatever keys, succeeds with the answer and the effects of
    -- the specification, which keeps one phase for each key; the invariant holds at the end.
    pub run_refines :
        {s : CompletionSet S} {calls : List (ℕ × Call)} {log : Log}
        → Inv S s
        → length s.queues.queues + length calls < 2 ^ 32
        → Runs (phase S s) calls log
        → (t : CompletionSet S) × (run s calls ≡ done (t, log)) × Inv S t
    unfolding run
    run_refines v b r = run_from v b refl r
