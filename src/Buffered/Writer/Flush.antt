-- ===== src/Buffered/Writer/Flush.antt =====
-- The bytes that the buffered writer holds, and its flush.
use inel.Base.Slices.{take-shorter}
use inel.Base.{
  ℕ, Bool-cases, true, List, [], ◌++◌, length, take, ◌≤◌, ◌≡◌, ◌≢◌, refl, sym, ap, ap₂, subst, ◌∙◌,
  inl, inr, ◌==◌, done, panic, assertion_failed, arith, append-nil,
}
use inel.Buffer.Cursor.{StableBufferMut, Writing, filled, set_pos, is_unwritten}
use inel.Op.Results.{Result, ok, err}
use inel.Submission.{Poll, pending, ready}
use inel.Buffered.Writer.{
  Sink, BufWriterInner, BufWriterState, is_taken, is_pending, is_buffering, Flushing, flushed,
  flushing, poll_flush,
}

module _ (B : StableBufferMut) (S : Sink B) where
  open B use {Buf, bytes}
  open S use {World, Future, create_future, pre_write, post_flush, sunk, carried}

  unfoldable pub held : BufWriterState B S → List ℕ
  held (is_buffering v) = filled B v
  held is_taken = []
  held (is_pending f) = filled B (carried f)

  -- The bytes that the writer has accepted and the sink has or is to get, in order.
  unfoldable pub accepted : BufWriterInner B S → List ℕ
  unfolding held
  accepted r = sunk r.sink ++ held r.state

  unfoldable pub IsWithin : Writing B → Type 0
  IsWithin v = v.pos ≤ length (bytes v.inner)

  unfoldable pub IsWhole : BufWriterState B S → Type 0
  IsWhole is_taken = ⊥
  IsWhole (is_pending f) = IsWithin (carried f)
  IsWhole (is_buffering v) = IsWithin v

  -- The sink has completed a write of a part of the view.
  unfoldable pub CutsShort : Type 0
  CutsShort =
      (w w' : World) × (f f' : Future) × (v : Writing B) × (n : ℕ) × (S.poll w f
        ≡ (w', f', ready (v, ok n)))
      × (n ≢ v.pos)

  -- What the sink has answered to a poll: that it is not done yet, or an error.
  unfoldable pub Answers : Poll (Result ℕ) → Type 0
  Answers pending = (w w' : World) × (f f' : Future) × (S.poll w f ≡ (w', f', pending))
  Answers (ready a) =
      (w w' : World) × (f f' : Future) × (v : Writing B) × (S.poll w f ≡ (w', f', ready (v, a)))

  unfoldable pub Flushes : List ℕ → Flushing B S → Type 0
  unfolding accepted
  Flushes base (panic e) = (e ≡ assertion_failed) × CutsShort
  Flushes base (done (r, pending)) = IsWhole r.state × (accepted r ≡ base) × Answers pending
  Flushes base (done (r, ready (err e))) =
      IsWhole r.state × (accepted r ≡ base) × Answers (ready (err e))
  Flushes base (done (r, ready (ok u))) =
      IsWhole r.state × (held r.state ≡ []) × (sunk r.sink ≡ base)

  flushed-Flushes :
      (w w' : World) (f f' : Future) (v : Writing B) (n : ℕ)
      → S.poll w f ≡ (w', f', ready (v, ok n))
      → IsWithin (carried f)
      → Flushes (sunk w ++ filled B (carried f)) (flushed B S w' v n)
  unfolding flushed Flushes IsWithin CutsShort IsWhole held filled set_pos
  flushed-Flushes w w' f f' v n e fits = elim (Bool-cases (n == v.pos)) [
    | inl y ↦ rw y (omega arith, refl, emptied y)
    | inr y ↦ rw y (refl, (w, w', f, f', v, n, e, ground (arith, y)))
  ]
    where
      emptied :
          (n == v.pos) ≡ true → sunk ((post_flush w' v.inner).0) ≡ sunk w ++ filled B (carried f)
      emptied y =
          let (law, back) = S.ok-sunk w w' f f' v n e in
          let all : n ≡ v.pos = ground (arith, y) in
          S.post-sunk w' v.inner
          ∙ law
          ∙ ap (λ k. sunk w ++ take k (filled B v)) all
          ∙ ap (sunk w ++◌) (take-shorter v.pos v.pos (bytes v.inner) (omega arith))
          ∙ ap (λ u. sunk w ++ filled B u) back

  flushing-Flushes :
      (w : World) (f : Future) (p : _)
      → S.poll w f ≡ p
      → IsWithin (carried f)
      → Flushes (sunk w ++ filled B (carried f)) (flushing B S p)
  unfolding flushing Flushes IsWhole held accepted Answers
  flushing-Flushes w f (w', f', pending) e fits =
      let (same, kept) = S.pending-sunk w w' f f' e in
      (subst IsWithin (sym kept) fits, ap₂ (λ s v. s ++ filled B v) same kept, (w, w', f, f', e))
  flushing-Flushes w f (w', f', ready (v, err n)) e fits =
      let (same, kept) = S.err-sunk w w' f f' v e in
      (subst IsWithin (sym kept) fits, ap₂ (λ s u. s ++ filled B u) same kept, (w, w', f, f', v, e))
  flushing-Flushes w f (w', f', ready (v, ok n)) e fits = flushed-Flushes w w' f f' v n e fits

  is_unwritten-filled : (v : Writing B) → is_unwritten B v ≡ true → filled B v ≡ []
  unfolding is_unwritten filled
  is_unwritten-filled v y =
      let none : v.pos ≡ 0 = ground (arith, y) in ap (λ n. take n (bytes v.inner)) none

  sunk_all : (w : World) (v : Writing B) → is_unwritten B v ≡ true → sunk w ≡ sunk w ++ filled B v
  sunk_all w v y = sym (append-nil (sunk w)) ∙ ap (sunk w ++◌) (sym (is_unwritten-filled v y))

  starting-Flushes :
      (w : World) (v : Writing B)
      → IsWithin v
      → Flushes
          (sunk w ++ filled B v)
          (flushing B S (S.poll ((create_future w v).0) ((create_future w v).1)))
  starting-Flushes w v h =
      let (w', f) = create_future w v in
      let (same, kept) = S.create-sunk w v in
      subst (λ t. Flushes t (flushing B S (S.poll w' f))) (ap₂ (λ s u. s ++ filled B u) same kept)
        (flushing-Flushes w' f (S.poll w' f) refl (subst IsWithin (sym kept) h))

  -- A flush of a whole buffered writer: once it is ready, the sink has taken every byte that was
  -- accepted and the writer holds none; where it is pending or fails, which it is or does only
  -- where the sink is or does, no accepted byte is lost. It panics only where the sink has
  -- completed a write of another number of bytes than asked for.
  pub poll_flush-Flushes :
      (r : BufWriterInner B S) → IsWhole r.state → Flushes (accepted r) (poll_flush B S r)
  unfolding poll_flush accepted held IsWhole Flushes
  poll_flush-Flushes r whole = by_state r.sink r.state whole
    where
      by_state :
          (w : World) (s : BufWriterState B S)
          → IsWhole s
          → Flushes (sunk w ++ held s) (poll_flush B S (record { sink = w; state = s }))
      by_state w is_taken h = absurd h
      by_state w (is_pending f) h = flushing-Flushes w f (S.poll w f) refl h
      by_state w (is_buffering v) h = elim (Bool-cases (is_unwritten B v)) [
        | inl y ↦ rw y (h, is_unwritten-filled v y, sunk_all w v y)
        | inr y ↦ rw y (starting-Flushes w v h)
      ]
