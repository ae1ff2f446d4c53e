-- ===== src/Completion/Refine.antt =====
-- `notify`, `cancel` and `result` do for their key what `Spec` says, and nothing to the other keys.
use inel.Base.{
  ℕ, zero, suc, ◌+◌, ◌≤◌, ◌<◌, ◌≡◌, ◌%◌, ◌^◌, refl, sym, ap, subst, ◌∙◌, Bool, true, Bool-cases,
  Option-cases, inl, inr, none, some, List, [], length, count, below, get_elem?, replicate, ◌==◌,
  if◌then◌else◌, Outcome, done, panic, unexpected_key, arith,
}
use inel.RingResult.{RingResult, Cqueue}
use inel.Cancellation.{Cancellation}
use inel.Slab
use inel.Slab.{Slab}
use inel.Key
use inel.Queues
use inel.Queues.{ResultQueues}
use inel.Completion.{
  Completion, vacant, single, multiple, cancelled, finished, CompletionSet, Step, Done,
  with_completion, with_capacity, is_empty, insert, cancel, notify, result, try_cancel, try_notify,
  take_result,
}
use inel.Completion.Own.{holds, is_multiple, IsFull, Inv, Inv-IsPool, held}
use inel.Completion.Spec
use inel.Completion.Spec.{Phase, ongoing, closed, discarded, Reply}
use inel.Completion.Frame.{
  phase_of, phase, total-settle, after, phase-after, after-Inv, with_completion-done,
}
use inel.Completion.Weights.{
  in_flight, is_cancelled, pending, discards, pending-phase_of, pending-left, discards-phase_of,
  discards-left,
}
use inel.Completion.Methods.{Owned, Meets, try_cancel-Meets, try_notify-Meets, take_result-Meets}

is_multiple-le : (c : Completion) → is_multiple c ≤ 1
is_multiple-le (vacant w) = omega arith
is_multiple-le (single r) = omega arith
is_multiple-le (multiple w h m) = omega arith
is_multiple-le (cancelled c) = omega arith
is_multiple-le finished = omega arith

module _ (S : Slab Completion) where
  open S use {Store, get, total, get-insert, get_new_key, total-insert}

  -- The call returns, with the value and the effects of `reply`; the invariant is kept; the key is
  -- left as `reply` says, and every other key as it was.
  pub record Refined {A : Type 0} (s : CompletionSet S) (k : ℕ) (reply : Reply A)
      (o : Outcome (Done S A)) : Type 0 where
    pub set : CompletionSet S
    pub returns : o ≡ done (record { set = set; value = reply.value; effects = reply.effects })
    pub valid : Inv S set
    pub grown : length set.queues.queues ≤ length s.queues.queues + 1
    pub counted :
        total in_flight set.slab + pending (phase S s k)
        ≡ pending reply.next + total in_flight s.slab
    pub dropped :
        total is_cancelled set.slab + discards (phase S s k)
        ≡ discards reply.next + total is_cancelled s.slab
    pub phases : (j : ℕ) → phase S set j ≡ (if j == k then reply.next else phase S s j)

  entry_of :
      (s : CompletionSet S) (k : ℕ) {p : Phase}
      → phase S s k ≡ some p
      → (c : Completion) × (get k s.slab ≡ some c) × (phase_of c s.queues ≡ p)
  entry_of s k e = elim (Option-cases (get k s.slab)) [
    | inl g ↦ absurd (ground (arith, e, g))
    | inr (c, g) ↦ (c, g, ground (arith, e, g))
  ]

  module _ {s : CompletionSet S} (v : Inv S s) (k : ℕ) where
    Owned-of : {c : Completion} → get k s.slab ≡ some c → Owned c s.queues
    Owned-of g = record {
      pool = Inv-IsPool S v;
      clear = v.clear;
      full = v.full k _ g;
      held = λ h own. held S v k h g own;
    }

    -- From a method on the completion to the call on the set.
    lift :
        {A : Type 0} {c : Completion} (g : get k s.slab ≡ some c)
        (f : Completion → ResultQueues → Outcome (Step A)) (reply : Reply A)
        → Meets c s.queues reply (f c s.queues)
        → Refined s k reply (with_completion S s k f)
    lift g f reply m = record {
      set = after S v k g m.moved;
      returns = with_completion-done S v k g m.moved f reply.value reply.effects m.returns;
      valid = after-Inv S v k g m.moved;
      grown = m.moved.grown;
      counted = rw (← m.next) (
          ground (
            arith,
            total-settle S s.slab k m.completion g in_flight refl,
            g,
            pending-phase_of _ s.queues,
            pending-left m.completion m.queues,
          ));
      dropped = rw (← m.next) (
          ground (
            arith,
            total-settle S s.slab k m.completion g is_cancelled refl,
            g,
            discards-phase_of _ s.queues,
            discards-left m.completion m.queues,
          ));
      phases = λ j. rw (← m.next) (phase-after S v k g m.moved j);
    }

    -- Where the specification allows it, cancelling an entry hands the results that wait to the
    -- cancellation, in order, and keeps the cancellation for a later result or drops it; the answer
    -- says which. The invariant is kept, and the other keys are as they were.
    pub cancel_refines :
        {p : Phase} (x : Cancellation) {reply : Reply Bool}
        → phase S s k ≡ some p
        → Spec.cancel p x ≡ some reply
        → Refined s k reply (cancel S s k x)
    unfolding cancel
    cancel_refines x {reply} e r =
        let (c, g, q) = entry_of s k e in
        lift g (λ completion q. try_cancel completion q x) reply
          (try_cancel-Meets c s.queues x (Owned-of g) (ap (λ p. Spec.cancel p x) q ∙ r))

    -- Where the specification allows it, and with room for one more queue, a completion queue entry
    -- wakes the task and is appended to the results, which it closes unless more are announced;
    -- after a cancellation it is consumed, and the key is free. The invariant is kept, and the
    -- other keys are as they were.
    pub notify_refines :
        (Q : Cqueue) {p : Phase} (r : RingResult) {reply : Reply (Unit {0})}
        → length s.queues.queues < 2 ^ 32
        → phase S s k ≡ some p
        → Spec.notify Q p r ≡ some reply
        → Refined s k reply (notify S Q s k r)
    unfolding notify
    notify_refines Q r {reply} b e n =
        let (c, g, q) = entry_of s k e in
        lift g (λ completion q. try_notify Q completion q r) reply
          (try_notify-Meets Q c s.queues r (Owned-of g) b (ap (λ p. Spec.notify Q p r) q ∙ n))

    -- Under a key that holds something, the result is the oldest that waits, and the key is free
    -- once the last has been taken. The invariant is kept, and the other keys are as they were.
    pub result_refines :
        {p : Phase} → phase S s k ≡ some p → Refined s k (Spec.result p) (result S s k)
    unfolding result
    result_refines e =
        let (c, g, q) = entry_of s k e in
        subst (λ p. Refined s k (Spec.result p) (with_completion S s k take_result)) q
          (lift g take_result (Spec.result (phase_of c s.queues))
            (take_result-Meets c s.queues (Owned-of g)))

  -- Every call on a key that holds nothing panics.
  pub absent_panics :
      (s : CompletionSet S) (k : ℕ) (Q : Cqueue) (x : Cancellation) (r : RingResult)
      → phase S s k ≡ none
      → (cancel S s k x ≡ panic unexpected_key)
        × (notify S Q s k r ≡ panic unexpected_key)
        × (result S s k ≡ panic unexpected_key)
  unfolding cancel notify result with_completion Key.as_usize
  absent_panics s k Q x r e = elim (Option-cases (get k s.slab)) [
    | inl g ↦ rw g (refl, refl, refl)
    | inr (c, g) ↦ absurd (ground (arith, e, g))
  ]

  insert_full :
      (s : CompletionSet S) (waker n j : ℕ) (c : Completion)
      → (if j == n then some (vacant waker) else get j s.slab) ≡ some c
      → (get j s.slab ≡ some c → IsFull c s.queues)
      → IsFull c s.queues
  insert_full s waker n j c e f = elim (Bool-cases (j == n)) [
    | inl p ↦
        subst (λ x. IsFull x s.queues) {x = vacant waker}
          (let q : some (vacant waker) ≡ some c = rw p at e in ground (arith, q)) tt
    | inr p ↦ f (rw p at e)
  ]

  four_clear :
      (h : ℕ) → 0 < count h (below 4) → get_elem? (replicate {A = List RingResult} 4 []) h ≡ some []
  four_clear zero lt = refl
  four_clear (suc zero) lt = refl
  four_clear (suc (suc zero)) lt = refl
  four_clear (suc (suc (suc zero))) lt = refl
  four_clear (suc (suc (suc (suc h)))) lt = absurd (ground (arith, lt))

  -- With room in the keys, a new entry gets a key that held nothing, and waits for results with its
  -- task to wake. The invariant is kept, and the other keys are as they were.
  pub insert_refines :
      {s : CompletionSet S} (waker : ℕ)
      → Inv S s
      → (S.insert (vacant waker) s.slab).0 < 2 ^ 32
      → let (k, t) = insert S s waker in
        (phase S s k ≡ none)
        × Inv S t
        × ((j : ℕ) → phase S t j ≡ (if j == k then some (ongoing waker []) else phase S s j))
  unfolding insert Key.from_usize
  insert_refines {s} waker v b = rw cut (
    rw (get_new_key (vacant waker) s.slab),
    fresh,
    λ j. rw (get-insert (vacant waker) s.slab j) (ground arith),
  )
    where
      cut : (S.insert (vacant waker) s.slab).0 % 2 ^ 32 ≡ (S.insert (vacant waker) s.slab).0
      cut = omega arith

      full :
          (j : ℕ) (c : Completion)
          → get j (S.insert (vacant waker) s.slab).1 ≡ some c
          → IsFull c s.queues
      full j c e =
          insert_full s waker _ j c (sym (get-insert (vacant waker) s.slab j) ∙ e) (v.full j c)

      fresh : Inv S (record s { slab = (S.insert (vacant waker) s.slab).1 })
      fresh = record {
        owners = λ h. omega (arith, v.owners h, total-insert (holds h) (vacant waker) s.slab);
        sized = omega (arith, v.sized, total-insert is_multiple (vacant waker) s.slab);
        clear = v.clear;
        full = full;
      }

  -- A new set satisfies the invariant, holds no key, and is empty.
  pub with_capacity-Inv :
      (n : ℕ)
      → Inv S (with_capacity S n)
        × ((k : ℕ) → phase S (with_capacity S n) k ≡ none)
        × (is_empty S (with_capacity S n) ≡ true)
  unfolding with_capacity Queues.with_capacity is_empty
  with_capacity-Inv n =
      (new, (λ k. rw (S.get-with_capacity n k)), rw (S.total-with_capacity (λ _. 1) n))
    where
      new : Inv S (with_capacity S n)
      new = record {
        owners = λ h. ground (arith, S.total-with_capacity (holds h) n);
        sized = omega (arith, S.total-with_capacity is_multiple n);
        clear = four_clear;
        full = λ k c e. absurd (ground (arith, e, S.get-with_capacity n k));
      }

  -- No queue is lost: the set is empty exactly when the slab is.
  pub is_empty-eq : {s : CompletionSet S} → Inv S s → is_empty S s ≡ Slab.is_empty S s.slab
  unfolding is_empty Slab.is_empty Queues.is_empty
  is_empty-eq {s} v =
      ground (arith, v.sized, S.total_mono is_multiple (λ _. 1) s.slab is_multiple-le)
