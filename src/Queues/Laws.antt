-- ===== src/Queues/Laws.antt =====
-- What the operations of `ResultQueues` do to the queues and to the stack of unused handles.
use inel.Base.{
  ℕ, ◌+◌, ◌%◌, ◌^◌, ◌≤◌, ◌<◌, ◌≡◌, ◌≢◌, refl, some, List, [], ◌∷◌, ◌++◌, length, get_elem?, count,
  ltb, ◌==◌, if◌then◌else◌, done, arith, length-append, length-set, set-set, get_elem?-set_self,
  get_elem?-set_ne, get_elem?-append_left, get_elem?-append_last, lt_of_get_elem?,
}
use inel.RingResult.{RingResult}
use inel.Queues.{ResultQueues, handle, pop_or_push, get, put, push_back, release}

-- 1 for a handle of an existing queue.
abbrev pub inside : ℕ → ResultQueues → ℕ
inside h q = if ltb h (length q.queues) then 1 else 0

-- A queue without an owner is empty.
abbrev pub IsClear : ResultQueues → Type 0
IsClear q = (h : ℕ) → 0 < count h q.unused → get_elem? q.queues h ≡ some []

-- No queue is unused twice, and every unused handle is that of a queue.
abbrev pub IsPool : ResultQueues → Type 0
IsPool q = (h : ℕ) → count h q.unused ≤ inside h q

-- What `handle` gives: an empty queue that nobody owned, the others as they were.
pub record Handed (q : ResultQueues) (out : ℕ × ResultQueues) : Type 0 where
  pub fresh : get_elem? out.1.queues out.0 ≡ some []
  pub balance :
      (h : ℕ)
      → count h out.1.unused + (if out.0 == h then 1 else 0) + inside h q
        ≡ count h q.unused + inside h out.1
  pub sizes : length out.1.unused + 1 + length q.queues ≡ length q.unused + length out.1.queues
  pub kept :
      (h : ℕ)
      → h < length q.queues
      → count h q.unused ≡ 0
      → get_elem? out.1.queues h ≡ get_elem? q.queues h
  pub clear : IsClear out.1
  pub grown : length out.1.queues ≤ length q.queues + 1
  pub unowned : count out.0 out.1.unused ≡ 0

pop_or_push-Handed :
    (unused : List ℕ) (q : ResultQueues)
    → q.unused ≡ unused
    → length q.queues < 2 ^ 32
    → IsPool q
    → IsClear q
    → Handed q (pop_or_push unused q)
unfolding pop_or_push
pop_or_push-Handed (n ∷ rest) q e b pool clear = record {
  fresh = clear n (rw e (ground arith));
  balance = λ h. rw e (ground arith);
  sizes = rw e (omega arith);
  kept = λ h lt c. refl;
  clear = λ h lt. clear h (rw e (ground arith));
  grown = omega arith;
  unowned = let p : count n (n ∷ rest) ≤ inside n q = rw e at (pool n) in ground arith;
}
pop_or_push-Handed [] q e b pool clear = record {
  fresh = rw cut (get_elem?-append_last q.queues []);
  balance = λ h. rw (cut, e) (ground (arith, grown));
  sizes = rw e (omega (arith, grown));
  kept = λ h lt c. get_elem?-append_left q.queues ([] ∷ []) h lt;
  clear = λ h lt. absurd (omega arith);
  grown = omega (arith, grown);
  unowned = refl;
}
  where
    cut : length q.queues % 2 ^ 32 ≡ length q.queues
    cut = omega arith

    grown : length (q.queues ++ [] ∷ []) ≡ length q.queues + 1
    grown = length-append q.queues ([] ∷ [])

pub handle-Handed :
    (q : ResultQueues) → length q.queues < 2 ^ 32 → IsPool q → IsClear q → Handed q (handle q)
unfolding handle
handle-Handed q = pop_or_push-Handed q.unused q refl

module _ (q : ResultQueues) (h : ℕ) {rs : List RingResult}
    (e : get_elem? q.queues h ≡ some rs) where
  pub get-some : get q h ≡ done rs
  unfolding get
  get-some = rw e

  pub push_back-some : (r : RingResult) → push_back q h r ≡ done (put q h (rs ++ r ∷ []))
  unfolding push_back get
  push_back-some r = rw e

  pub release-some : release q h ≡ done (record (put q h []) { unused = h ∷ q.unused })
  unfolding release get
  release-some = rw e

  pub get_elem?-put_self : (xs : List RingResult) → get_elem? (put q h xs).queues h ≡ some xs
  unfolding put
  get_elem?-put_self xs = get_elem?-set_self q.queues h xs (lt_of_get_elem? q.queues h e)

pub get_elem?-put_ne :
    (q : ResultQueues) (h j : ℕ) (xs : List RingResult)
    → h ≢ j
    → get_elem? (put q h xs).queues j ≡ get_elem? q.queues j
unfolding put
get_elem?-put_ne q h j xs ne = get_elem?-set_ne q.queues h j xs ne

pub put-put :
    (q : ResultQueues) (h : ℕ) (xs ys : List RingResult) → put (put q h xs) h ys ≡ put q h ys
unfolding put
put-put q h xs ys = rw (set-set q.queues h xs ys)

pub length-put :
    (q : ResultQueues) (h : ℕ) (xs : List RingResult) → length (put q h xs).queues ≡ length q.queues
unfolding put
length-put q h xs = length-set q.queues h xs

pub unused-put : (q : ResultQueues) (h : ℕ) (xs : List RingResult) → (put q h xs).unused ≡ q.unused
unfolding put
unused-put q h xs = refl
