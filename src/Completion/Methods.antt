-- ===== src/Completion/Methods.antt =====
-- The methods of `Completion`, against the specification of one key.
use inel.Base.{
  ℕ, ◌<◌, ◌≡◌, ◌^◌, refl, ap, ◌∙◌, Bool, true, false, Bool-cases, inl, inr, some, some, List, [],
  ◌∷◌, ◌++◌, length, get_elem?, get_elem?_of_lt, count, ==_refl, if◌then◌else◌, Outcome, done,
  arith,
}
use inel.RingResult.{RingResult, Cqueue}
use inel.Cancellation.{Cancellation, consume_all}
use inel.Queues
use inel.Queues.{ResultQueues, put}
use inel.Queues.Laws.{IsClear, IsPool, handle-Handed, get_elem?-put_self, put-put, unused-put}
use inel.Completion.{
  Completion, vacant, single, multiple, cancelled, finished, Step, is_finished, try_cancel,
  try_notify, take_result,
}
use inel.Completion.Own.{holds, IsFull, Local}
use inel.Completion.Spec
use inel.Completion.Spec.{Phase, ongoing, closed, discarded, Reply}
use inel.Completion.Frame.{phase_of, left}
use inel.Completion.Moves.{Local-same, Local-put, Local-release, Local-hand}

-- The facts about a completion in its set that a method relies on.
pub record Owned (c : Completion) (q : ResultQueues) : Type 0 where
  pub pool : IsPool q
  pub clear : IsClear q
  pub full : IsFull c q
  pub held : (h : ℕ) → holds h c ≡ 1 → (count h q.unused ≡ 0) × (h < length q.queues)

-- A method that succeeds, as its specification says.
pub record Meets {A : Type 0} (c : Completion) (q : ResultQueues) (reply : Reply A)
    (o : Outcome (Step A)) : Type 0 where
  pub completion : Completion
  pub queues : ResultQueues
  pub returns :
      o
      ≡ done (record {
        completion = completion;
        queues = queues;
        value = reply.value;
        effects = reply.effects;
      })
  pub moved : Local c completion q queues
  pub next : left completion queues ≡ reply.next

-- The queue of a `multiple`.
queue_of :
    {w h : ℕ} {m : Bool} {q : ResultQueues}
    → Owned (multiple w h m) q
    → (count h q.unused ≡ 0) × (rs : List RingResult) × (get_elem? q.queues h ≡ some rs)
queue_of {w} {h} {m} {q} o =
    let (u, lt) = o.held h (rw (==_refl h)) in
    let (rs, e) = get_elem?_of_lt q.queues h lt in (u, rs, e)

append_last :
    (rs : List RingResult) (r : RingResult)
    → (x : RingResult) × (xs : List RingResult) × (rs ++ r ∷ [] ≡ x ∷ xs)
append_last [] r = (r, [], refl)
append_last (x ∷ rs) r = (x, rs ++ r ∷ [], refl)

pub try_cancel-Meets :
    (c : Completion) (q : ResultQueues) (x : Cancellation) {reply : Reply Bool}
    → Owned c q
    → Spec.cancel (phase_of c q) x ≡ some reply
    → Meets c q reply (try_cancel c q x)
unfolding try_cancel Spec.cancel is_finished consume_all
try_cancel-Meets (vacant w) q x o e = record {
  completion = cancelled x;
  queues = q;
  returns = ground (arith, e);
  moved = Local-same (vacant w) (cancelled x) q o.clear (λ h. refl) refl (λ f. tt);
  next = ground (arith, e);
}
try_cancel-Meets (single r) q x o e = record {
  completion = finished;
  queues = q;
  returns = ground (arith, e);
  moved = Local-same (single r) finished q o.clear (λ h. refl) refl (λ f. cc);
  next = ground (arith, e);
}
try_cancel-Meets (multiple w h true) q x o e =
    let (own, rs, at) = queue_of o in
    record {
      completion = cancelled x;
      queues = record (put q h []) { unused = h ∷ q.unused };
      returns = ground (arith, e, at);
      moved = Local-release q h o.clear own at w true (cancelled x) (λ j. refl) refl (λ f. tt);
      next = ground (arith, e);
    }
try_cancel-Meets (multiple w h false) q x o e =
    let (own, rs, at) = queue_of o in
    record {
      completion = finished;
      queues = record (put q h []) { unused = h ∷ q.unused };
      returns = ground (arith, e, at);
      moved = Local-release q h o.clear own at w false finished (λ j. refl) refl (λ f. cc);
      next = ground (arith, e);
    }
try_cancel-Meets (cancelled y) q x o e = cc
try_cancel-Meets finished q x o e = absurd o.full

-- The phase of a `multiple` whose queue is known.
phase_multiple :
    (w h : ℕ) (m : Bool) (q : ResultQueues) {xs : List RingResult}
    → get_elem? q.queues h ≡ some xs
    → phase_of (multiple w h m) q ≡ (if m then ongoing w xs else closed xs)
phase_multiple w h true q e = rw e
phase_multiple w h false q e = rw e

module _ (Q : Cqueue) where
  pub try_notify-Meets :
      (c : Completion) (q : ResultQueues) (r : RingResult) {reply : Reply (Unit {0})}
      → Owned c q
      → length q.queues < 2 ^ 32
      → Spec.notify Q (phase_of c q) r ≡ some reply
      → Meets c q reply (try_notify Q c q r)
  unfolding try_notify Spec.notify is_finished
  try_notify-Meets (vacant w) q r o b e = elim (Bool-cases (Q.more r.flags)) [
    | inl more ↦
        let t = handle-Handed q b o.pool o.clear in
        let n = (Queues.handle q).0 in
        let q' = (Queues.handle q).1 in
        record {
          completion = multiple w n true;
          queues = put q' n (r ∷ []);
          returns = ground (arith, e, more, t.fresh);
          moved = Local-hand w q n q' (r ∷ []) o.pool t;
          next = ground (arith, e, more, get_elem?-put_self q' n t.fresh (r ∷ []));
        }
    | inr last ↦ record {
      completion = single r;
      queues = q;
      returns = ground (arith, e, last);
      moved = Local-same (vacant w) (single r) q o.clear (λ h. refl) refl (λ f. tt);
      next = ground (arith, e, last);
    }
  ]
  try_notify-Meets (single x) q r o b e = cc
  try_notify-Meets (multiple w h true) q r o b e =
      let (own, rs, at) = queue_of o in
      record {
        completion = multiple w h (Q.more r.flags);
        queues = put q h (rs ++ r ∷ []);
        returns = ground (arith, e, at);
        moved =
            Local-put q h o.clear own at w true (Q.more r.flags) (rs ++ r ∷ [])
              (λ f. append_last rs r);
        next =
            ap some (
              phase_multiple w h (Q.more r.flags) (put q h (rs ++ r ∷ []))
                (get_elem?-put_self q h at (rs ++ r ∷ [])))
            ∙ ground (arith, e, at);
      }
  try_notify-Meets (multiple w h false) q r o b e = cc
  try_notify-Meets (cancelled y) q r o b e = record {
    completion = finished;
    queues = q;
    returns = ground (arith, e);
    moved = Local-same (cancelled y) finished q o.clear (λ h. refl) refl (λ f. cc);
    next = ground (arith, e);
  }
  try_notify-Meets finished q r o b e = absurd o.full

take_result_ongoing :
    (w h : ℕ) (q : ResultQueues) (rs : List RingResult)
    → IsClear q
    → count h q.unused ≡ 0
    → get_elem? q.queues h ≡ some rs
    → Meets
        (multiple w h true)
        q
        (Spec.result (phase_of (multiple w h true) q))
        (take_result (multiple w h true) q)
unfolding take_result Spec.result is_finished
take_result_ongoing w h q [] clear own at = record {
  completion = multiple w h true;
  queues = put q h [];
  returns = ground (arith, at);
  moved = Local-put q h clear own at w true true [] (λ f. cc);
  next = rw (get_elem?-put_self q h at [], at);
}
take_result_ongoing w h q (r ∷ rs) clear own at = record {
  completion = multiple w h true;
  queues = put q h rs;
  returns = ground (arith, at);
  moved = Local-put q h clear own at w true true rs (λ f. cc);
  next = rw (get_elem?-put_self q h at rs, at);
}

take_result_closed :
    (w h : ℕ) (q : ResultQueues) (r : RingResult) (rs : List RingResult)
    → IsClear q
    → count h q.unused ≡ 0
    → get_elem? q.queues h ≡ some (r ∷ rs)
    → Meets
        (multiple w h false)
        q
        (Spec.result (phase_of (multiple w h false) q))
        (take_result (multiple w h false) q)
unfolding take_result Spec.result is_finished
take_result_closed w h q r [] clear own at = record {
  completion = finished;
  queues = record (put q h []) { unused = h ∷ q.unused };
  returns = ground (arith, at, get_elem?-put_self q h at [], put-put q h [] [], unused-put q h []);
  moved = Local-release q h clear own at w false finished (λ j. refl) refl (λ f. cc);
  next = rw at;
}
take_result_closed w h q r (x ∷ rs) clear own at = record {
  completion = multiple w h false;
  queues = put q h (x ∷ rs);
  returns = ground (arith, at);
  moved = Local-put q h clear own at w false false (x ∷ rs) (λ f. (x, rs, refl));
  next = rw (get_elem?-put_self q h at (x ∷ rs), at);
}

pub take_result-Meets :
    (c : Completion) (q : ResultQueues)
    → Owned c q
    → Meets c q (Spec.result (phase_of c q)) (take_result c q)
unfolding take_result Spec.result is_finished
take_result-Meets (vacant w) q o = record {
  completion = vacant w;
  queues = q;
  returns = refl;
  moved = Local-same (vacant w) (vacant w) q o.clear (λ h. refl) refl (λ f. tt);
  next = refl;
}
take_result-Meets (single r) q o = record {
  completion = finished;
  queues = q;
  returns = refl;
  moved = Local-same (single r) finished q o.clear (λ h. refl) refl (λ f. cc);
  next = refl;
}
take_result-Meets (multiple w h true) q o =
    let (own, rs, at) = queue_of o in take_result_ongoing w h q rs o.clear own at
take_result-Meets (multiple w h false) q o =
    let (own, _, _) = queue_of o in
    let (r, rs, at) = o.full in take_result_closed w h q r rs o.clear own at
take_result-Meets (cancelled y) q o = record {
  completion = cancelled y;
  queues = q;
  returns = refl;
  moved = Local-same (cancelled y) (cancelled y) q o.clear (λ h. refl) refl (λ f. tt);
  next = refl;
}
take_result-Meets finished q o = absurd o.full
