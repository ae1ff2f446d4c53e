-- ===== src/Completion/Moves.antt =====
-- The four ways in which a method on a completion changes it and the queues.
use inel.Base.{
  ℕ, ◌<◌, ◌≡◌, ◌≢◌, refl, ap, subst, ◌∙◌, Bool, true, false, eq-or-ne, inl, inr, some, List, [],
  ◌∷◌, length, get_elem?, count, arith,
}
use inel.RingResult.{RingResult}
use inel.Queues.{ResultQueues, put}
use inel.Queues.Laws.{
  IsClear, IsPool, Handed, get_elem?-put_self, get_elem?-put_ne, length-put, unused-put,
}
use inel.Completion.{Completion, vacant, multiple, is_finished}
use inel.Completion.Own.{holds, is_multiple, IsFull, Local}

-- No queue is touched.
pub Local-same :
    (c c' : Completion) (q : ResultQueues)
    → IsClear q
    → ((h : ℕ) → holds h c' ≡ holds h c)
    → is_multiple c' ≡ is_multiple c
    → (is_finished c' ≡ false → IsFull c' q)
    → Local c c' q q
Local-same c c' q clear same multi full = record {
  owners = λ h. omega (arith, same h);
  sized = omega (arith, multi);
  kept = λ h n u lt. refl;
  clear = clear;
  grown = omega arith;
  full = full;
}

multiple_full :
    (waker h : ℕ) (m : Bool) (q : ResultQueues) {xs : List RingResult}
    → get_elem? q.queues h ≡ some xs
    → (m ≡ false → (r : RingResult) × (ys : List RingResult) × (xs ≡ r ∷ ys))
    → IsFull (multiple waker h m) q
multiple_full waker h true q e full = tt
multiple_full waker h false q e full = let (r, ys, p) = full refl in (r, ys, e ∙ ap some p)

module _ (q : ResultQueues) (h : ℕ) {rs : List RingResult} (clear : IsClear q)
    (own : count h q.unused ≡ 0) (e : get_elem? q.queues h ≡ some rs) where
  -- A queue that is not unused is written.
  put-IsClear : (xs : List RingResult) → IsClear (put q h xs)
  put-IsClear xs j lt = elim (eq-or-ne h j) [
    | inl p ↦ absurd (omega (arith, used p))
    | inr ne ↦ get_elem?-put_ne q h j xs ne ∙ clear j (rw (unused-put q h xs) at lt)
  ]
    where
      used : h ≡ j → count j (put q h xs).unused ≡ 0
      used p = rw (← p) (rw (unused-put q h xs) own)

  pub Local-put :
      (waker : ℕ) (m m' : Bool) (xs : List RingResult)
      → (m' ≡ false → (r : RingResult) × (ys : List RingResult) × (xs ≡ r ∷ ys))
      → Local (multiple waker h m) (multiple waker h m') q (put q h xs)
  Local-put waker m m' xs full = record {
    owners = λ j. rw (unused-put q h xs, length-put q h xs);
    sized = rw (unused-put q h xs, length-put q h xs);
    kept = λ j n u lt. get_elem?-put_ne q h j xs (ground (arith, n));
    clear = put-IsClear xs;
    grown = omega (arith, length-put q h xs);
    full = λ f. multiple_full waker h m' (put q h xs) (get_elem?-put_self q h e xs) full;
  }

  abbrev released : ResultQueues
  released = record (put q h []) { unused = h ∷ q.unused }

  released-IsClear : IsClear released
  released-IsClear j lt = elim (eq-or-ne h j) [
    | inl p ↦ subst (λ i. get_elem? released.queues i ≡ some []) p (get_elem?-put_self q h e [])
    | inr ne ↦ get_elem?-put_ne q h j [] ne ∙ clear j (ground (arith, ne))
  ]

  -- The queue is emptied and given back.
  pub Local-release :
      (waker : ℕ) (m : Bool) (c' : Completion)
      → ((j : ℕ) → holds j c' ≡ 0)
      → is_multiple c' ≡ 0
      → (is_finished c' ≡ false → IsFull c' released)
      → Local (multiple waker h m) c' q released
  Local-release waker m c' none multi full = record {
    owners = λ j. rw (length-put q h []) (ground (arith, none j));
    sized = rw (length-put q h []) (omega (arith, multi));
    kept = λ j n u lt. get_elem?-put_ne q h j [] (ground (arith, n));
    clear = released-IsClear;
    grown = omega (arith, length-put q h []);
    full = full;
  }

-- A first result goes to a queue that nobody owned.
pub Local-hand :
    (waker : ℕ) (q : ResultQueues) (n : ℕ) (q' : ResultQueues) (xs : List RingResult)
    → IsPool q
    → Handed q (n, q')
    → Local (vacant waker) (multiple waker n true) q (put q' n xs)
Local-hand waker q n q' xs pool t = record {
  owners = λ j. rw (unused-put q' n xs, length-put q' n xs) (omega (arith, t.balance j));
  sized = rw (unused-put q' n xs, length-put q' n xs) (omega (arith, t.sizes));
  kept = λ j own u lt. get_elem?-put_ne q' n j xs (apart j u lt) ∙ t.kept j lt u;
  clear = put-IsClear q' n t.clear t.unowned t.fresh xs;
  grown = omega (arith, t.grown, length-put q' n xs);
  full = λ f. tt;
}
  where
    apart : (j : ℕ) → count j q.unused ≡ 0 → j < length q.queues → n ≢ j
    apart j u lt p = ground (arith, t.balance j, t.unowned)
