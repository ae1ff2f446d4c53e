-- ===== src/Submission/Marked.antt =====
-- The flag MORE on the results that wait under a key: it tells a reader which one is the last.
use inel.Base.{
  ℕ, ◌≡◌, ◌<◌, ◌^◌, subst, done, ◌∙◌, sym, true, false, Bool-cases, inl, inr, some, List, [], ◌∷◌,
  ◌++◌, length, ◌==◌, arith,
}
use inel.RingResult.{Cqueue, RingResult, has_more}
use inel.Slab.{Slab}
use inel.Completion.{Completion, CompletionSet, Done, notify}
use inel.Completion.Own.{Inv}
use inel.Completion.Spec
use inel.Completion.Spec.{Phase, ongoing, closed, discarded, Reply}
use inel.Completion.Frame.{phase}
use inel.Completion.Refine.{notify_refines}

some_eq : {a b : Phase} → some a ≡ some b → a ≡ b
some_eq e = cc

module _ (Q : Cqueue) where
  -- Every result announces more.
  unfoldable pub AllMore : List RingResult → Type 0
  AllMore [] = Unit {0}
  AllMore (r ∷ rs) = (has_more Q r ≡ true) × AllMore rs

  -- Every result but the last announces more, and there is a last one.
  unfoldable pub Ends : List RingResult → Type 0
  Ends [] = true ≡ false
  Ends (r ∷ []) = has_more Q r ≡ false
  Ends (r ∷ x ∷ rs) = (has_more Q r ≡ true) × Ends (x ∷ rs)

  unfoldable pub Marked : Phase → Type 0
  unfolding AllMore Ends
  Marked (ongoing w rs) = AllMore rs
  Marked (closed rs) = Ends rs
  Marked (discarded c) = Unit {0}

  more_after :
      (rs : List RingResult) (r : RingResult)
      → AllMore rs
      → has_more Q r ≡ true
      → AllMore (rs ++ r ∷ [])
  unfolding AllMore
  more_after [] r h e = (e, tt)
  more_after (x ∷ rs) r h e = (h.0, more_after rs r h.1 e)

  Ends-after :
      (rs : List RingResult) (r : RingResult)
      → AllMore rs
      → has_more Q r ≡ false
      → Ends (rs ++ r ∷ [])
  unfolding AllMore Ends
  Ends-after [] r h e = e
  Ends-after (x ∷ []) r h e = (h.0, e)
  Ends-after (x ∷ y ∷ rs) r h e = (h.0, Ends-after (y ∷ rs) r h.1 e)

  notify-Marked :
      (p : Phase) (r : RingResult) {reply : Reply (Unit {0})} {q : Phase}
      → Marked p
      → Spec.notify Q p r ≡ some reply
      → reply.next ≡ some q
      → Marked q
  unfolding Spec.notify Marked has_more
  notify-Marked (ongoing w rs) r {q = q} m e n = elim (Bool-cases (has_more Q r)) [
    | inl y ↦
        let s : ongoing w (rs ++ r ∷ []) ≡ q = ground (arith, e, n, y) in
        subst Marked s (more_after rs r m y)
    | inr y ↦
        let s : closed (rs ++ r ∷ []) ≡ q = ground (arith, e, n, y) in
        subst Marked s (Ends-after rs r m y)
  ]
  notify-Marked (closed rs) r m e n = cc
  notify-Marked (discarded c) r m e n = absurd (cc)

  pub new-Marked : (w : ℕ) → Marked (ongoing w [])
  unfolding Marked AllMore
  new-Marked w = tt

  pub result-Marked : (p : Phase) {q : Phase} → Marked p → (Spec.result p).next ≡ some q → Marked q
  unfolding Spec.result Marked
  result-Marked (ongoing w []) m n = subst Marked (some_eq n) tt
  result-Marked (ongoing w (r ∷ rs)) m n = subst Marked (some_eq n) m.1
  result-Marked (closed []) m n = cc
  result-Marked (closed (r ∷ [])) m n = cc
  result-Marked (closed (r ∷ x ∷ rs)) m n = subst Marked (some_eq n) m.1
  result-Marked (discarded c) m n = subst Marked (some_eq n) tt

  module _ (S : Slab Completion) where
    -- Under every key the results that wait are marked.
    unfoldable pub AllMarked : CompletionSet S → Type 0
    AllMarked s = (k : ℕ) (p : Phase) → phase S s k ≡ some p → Marked p

    -- In a set that satisfies the invariant and has room for one more queue, whose results announce
    -- more except for the last one of a key that is closed, a completion that the specification
    -- allows keeps it so.
    pub notify-AllMarked :
        {s : CompletionSet S} (k : ℕ) {p : Phase} (r : RingResult) {reply : Reply (Unit {0})}
        → Inv S s
        → AllMarked s
        → length s.queues.queues < 2 ^ 32
        → phase S s k ≡ some p
        → Spec.notify Q p r ≡ some reply
        → (d : Done S (Unit {0})) × (notify S Q s k r ≡ done d) × AllMarked d.set
    unfolding AllMarked
    notify-AllMarked {s} k {p} r {reply} v m b e h =
        let f = notify_refines S v k Q r b e h in
        (
          _,
          f.returns,
          λ j q at. elim (Bool-cases (j == k)) [
            | inl y ↦ notify-Marked p r (m k p e) h (sym (rw y at (f.phases j)) ∙ at)
            | inr y ↦ m j q (sym (rw y at (f.phases j)) ∙ at)
          ],
        )
