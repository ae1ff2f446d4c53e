-- ===== src/Completion/Frame.antt =====
-- One call on one key: the invariant is kept, and the other keys do not notice.
use inel.Base.{
  ℕ, ◌+◌, ◌≡◌, ◌≢◌, refl, sym, subst, ◌∙◌, ap, true, false, Bool-cases, eq-or-ne, inl, inr, Option,
  Option-cases, none, some, List, [], ◌∷◌, get_elem?, ◌==◌, ==_refl, ==_ne, if◌then◌else◌, Outcome,
  done, arith,
}
use inel.RingResult.{RingResult}
use inel.Cancellation.{Effect}
use inel.Slab.{Slab}
use inel.Key
use inel.Queues.{ResultQueues}
use inel.Completion.{
  Completion, vacant, single, multiple, cancelled, finished, CompletionSet, Step, is_finished,
  with_completion,
}
use inel.Completion.Own.{holds, is_multiple, IsFull, Inv, Local, held, held_once}
use inel.Completion.Spec.{Phase, ongoing, closed, discarded}

-- The results in a queue.
abbrev pub or_nil : Option (List RingResult) → List RingResult
or_nil none = []
or_nil (some rs) = rs

abbrev pub contents : ResultQueues → ℕ → List RingResult
contents q h = or_nil (get_elem? q.queues h)

abbrev pub phase_of : Completion → ResultQueues → Phase
phase_of (vacant waker) q = ongoing waker []
phase_of (single result) q = closed (result ∷ [])
phase_of (multiple waker handle true) q = ongoing waker (contents q handle)
phase_of (multiple waker handle false) q = closed (contents q handle)
phase_of (cancelled cancel) q = discarded cancel
phase_of finished q = closed []

-- What a key stands for.
abbrev pub phase_at : ResultQueues → Option Completion → Option Phase
phase_at q none = none
phase_at q (some c) = some (phase_of c q)

-- What a method leaves under the key.
abbrev pub left : Completion → ResultQueues → Option Phase
left c q = if is_finished c then none else some (phase_of c q)

phase_of_kept :
    (c : Completion) (q q' : ResultQueues)
    → ((h : ℕ) → holds h c ≡ 1 → get_elem? q'.queues h ≡ get_elem? q.queues h)
    → phase_of c q' ≡ phase_of c q
phase_of_kept (vacant w) q q' k = refl
phase_of_kept (single r) q q' k = refl
phase_of_kept (multiple w h true) q q' k = ap (λ o. ongoing w (or_nil o)) (k h (ground arith))
phase_of_kept (multiple w h false) q q' k = ap (λ o. closed (or_nil o)) (k h (ground arith))
phase_of_kept (cancelled c) q q' k = refl
phase_of_kept finished q q' k = refl

IsFull_kept :
    (c : Completion) (q q' : ResultQueues)
    → ((h : ℕ) → holds h c ≡ 1 → get_elem? q'.queues h ≡ get_elem? q.queues h)
    → IsFull c q
    → IsFull c q'
IsFull_kept (vacant w) q q' k f = tt
IsFull_kept (single r) q q' k f = tt
IsFull_kept (multiple w h true) q q' k f = tt
IsFull_kept (multiple w h false) q q' k f = (f.0, f.1, k h (ground arith) ∙ f.2)
IsFull_kept (cancelled c) q q' k f = tt
IsFull_kept finished q q' k f = f

is_finished→≡ : (c : Completion) → is_finished c ≡ true → c ≡ finished
unfolding is_finished
is_finished→≡ (vacant w) e = cc
is_finished→≡ (single r) e = cc
is_finished→≡ (multiple w h m) e = cc
is_finished→≡ (cancelled c) e = cc
is_finished→≡ finished e = refl

module _ (S : Slab Completion) where
  open S use {Store, get, total, write, remove, get-write, get-remove, total-write, total-remove}

  abbrev pub phase : CompletionSet S → ℕ → Option Phase
  phase s k = phase_at s.queues (get k s.slab)

  -- The store that `with_completion` leaves.
  abbrev pub settle : Store → ℕ → Completion → Store
  settle slab k c = if is_finished c then remove k (write k c slab) else write k c slab

  module _ (slab : Store) (k : ℕ) (c' : Completion) {c : Completion} (e : get k slab ≡ some c) where
    get-settle :
        (j : ℕ)
        → get j (settle slab k c')
          ≡ (if j == k then (if is_finished c' then none else some c') else get j slab)
    get-settle j = elim (Bool-cases (is_finished c')) [
      | inl f ↦ rw f (rw (get-remove k j (write k c' slab), get-write k j c' slab e) (ground arith))
      | inr f ↦ rw f (get-write k j c' slab e)
    ]

    pub total-settle :
        (f : Completion → ℕ)
        → f finished ≡ 0
        → total f (settle slab k c') + f c ≡ f c' + total f slab
    total-settle f z = elim (Bool-cases (is_finished c')) [
      | inl end ↦ rw end (
          ground (
            arith,
            ap f (is_finished→≡ c' end) ∙ z,
            total-remove f k (write k c' slab) there,
            total-write f k c' slab e,
          ))
      | inr end ↦ rw end (total-write f k c' slab e)
    ]
      where
        there : get k (write k c' slab) ≡ some c'
        there = get-write k k c' slab e ∙ rw (==_refl k)

  module _ {s : CompletionSet S} (v : Inv S s) (k : ℕ) {c c' : Completion} {q' : ResultQueues}
      (e : get k s.slab ≡ some c) (l : Local c c' s.queues q') where
    abbrev pub after : CompletionSet S
    after = record { slab = settle s.slab k c'; queues = q' }

    -- What another completion holds is as it was.
    kept_for :
        (j : ℕ) {d : Completion}
        → k ≢ j
        → get j s.slab ≡ some d
        → (h : ℕ) → holds h d ≡ 1
        → get_elem? q'.queues h ≡ get_elem? s.queues.queues h
    kept_for j ne e' h own =
        let (unowned, there) = held S v j h e' own in
        l.kept h (held_once S v k j h ne e e' own) unowned there

    after_same : phase after k ≡ left c' q'
    after_same = rw (get-settle s.slab k c' e k, ==_refl k) (ground arith)

    after_other : (j : ℕ) → k ≢ j → phase after j ≡ phase s j
    after_other j ne =
        rw (get-settle s.slab k c' e j, ==_ne j k (λ p. ne (sym p)))
          (elim (Option-cases (get j s.slab)) [
            | inl e' ↦ rw e'
            | inr (d, e') ↦ rw e' (ap some (phase_of_kept d s.queues q' (kept_for j ne e')))
          ])

    pub phase-after : (j : ℕ) → phase after j ≡ (if j == k then left c' q' else phase s j)
    phase-after j = elim (eq-or-ne k j) [
      | inl p ↦
          subst (λ i. phase after i ≡ (if i == k then left c' q' else phase s i)) p
            (rw (==_refl k) after_same)
      | inr ne ↦ rw (==_ne j k (λ p. ne (sym p))) (after_other j ne)
    ]

    after-full : (j : ℕ) (d : Completion) → get j after.slab ≡ some d → IsFull d q'
    after-full j d e' = elim (eq-or-ne k j) [
      | inl p ↦ left_full (sym here ∙ ap (λ i. get i after.slab) p ∙ e')
      | inr ne ↦
          let there : get j s.slab ≡ some d = sym (elsewhere ne) ∙ e' in
          IsFull_kept d s.queues q' (kept_for j ne there) (v.full j d there)
    ]
      where
        here : get k after.slab ≡ (if is_finished c' then none else some c')
        here = get-settle s.slab k c' e k ∙ rw (==_refl k)

        elsewhere : k ≢ j → get j after.slab ≡ get j s.slab
        elsewhere ne = get-settle s.slab k c' e j ∙ rw (==_ne j k (λ p. ne (sym p)))

        left_full : (if is_finished c' then none else some c') ≡ some d → IsFull d q'
        left_full g = elim (Bool-cases (is_finished c')) [
          | inl f ↦ absurd (ground (arith, g, f))
          | inr f ↦ subst (λ x. IsFull x q') (ground (arith, g, f)) (l.full f)
        ]

    pub after-Inv : Inv S after
    after-Inv = record {
      owners =
          λ h. omega (arith, v.owners h, l.owners h, total-settle s.slab k c' e (holds h) refl);
      sized = omega (arith, v.sized, l.sized, total-settle s.slab k c' e is_multiple refl);
      clear = l.clear;
      full = after-full;
    }

    -- The result of `with_completion` where the method succeeds.
    pub with_completion-done :
        {A : Type 0} (f : Completion → ResultQueues → Outcome (Step A)) (value : A)
        (effects : List Effect)
        → f c s.queues
          ≡ done (record { completion = c'; queues = q'; value = value; effects = effects })
        → with_completion S s k f ≡ done (record { set = after; value = value; effects = effects })
    unfolding with_completion Key.as_usize
    with_completion-done f value effects p = rw (e, p)
