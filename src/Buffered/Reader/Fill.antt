-- ===== src/Buffered/Reader/Fill.antt =====
-- What the buffered reader holds, and how it fills its buffer.
use inel.Base.{
  ℕ, zero, suc, Bool-cases, false, List, [], ◌++◌, ◌-◌, length, length-take, length-drop, take,
  drop, min, ◌≤◌, ◌<◌, ◌≡◌, refl, sym, ap, subst, ◌∙◌, ◌⊎◌, inl, inr, done, arith,
}
use inel.Buffer.Cursor.{
  StableBufferMut, Reading, is_empty, consume, unread, consume-unread, is_empty-unread,
}
use inel.Op.Results.{Result, ok, err}
use inel.Submission.{Poll, pending, ready}
use inel.Buffered.Reader.{
  Source, Fits, BufReaderInner, BufReaderState, is_taken, is_pending, is_filled, view_of, buffer,
  filling, poll_fill_buf,
}

module _ (B : StableBufferMut) (S : Source B) where
  open B use {Buf, bytes}
  open S use {World, Future, create_future, post_consume, rest}

  unfoldable pub held : BufReaderState B S → List ℕ
  held (is_filled v) = unread B v
  held is_taken = []
  held (is_pending f) = []

  -- The bytes that the reader has still to give: those it holds, then those of the source.
  unfoldable pub ahead : BufReaderInner B S → List ℕ
  unfolding held
  ahead r = held r.state ++ rest r.source

  unfoldable pub IsWhole : BufReaderState B S → Type 0
  IsWhole is_taken = ⊥
  IsWhole (is_pending f) = Unit
  IsWhole (is_filled v) = Fits B v

  -- What a poll that leaves `r'` has given of `stream`.
  unfoldable pub Gives : List ℕ → BufReaderInner B S → Poll (Result (List ℕ)) → Type 0
  unfolding ahead
  Gives stream r' pending = stream ≡ ahead r'
  Gives stream r' (ready (err e)) = stream ≡ ahead r'
  Gives stream r' (ready (ok slice)) = (held r'.state ≡ slice) × (stream ≡ ahead r')

  -- What the source has answered to a poll: that it has nothing yet, an error, or its end.
  unfoldable pub Answers : Poll (Result ℕ) → Type 0
  Answers pending = (w w' : World) × (f f' : Future) × (S.poll w f ≡ (w', f', pending))
  Answers (ready a) =
      (w w' : World) × (f f' : Future) × (b : Buf) × (S.poll w f ≡ (w', f', ready (b, a)))

  -- Why a poll with room for so many bytes gives what it gives.
  unfoldable pub Because : ℕ → Poll (Result (List ℕ)) → Type 0
  unfolding Answers
  Because room pending = Answers pending
  Because room (ready (err e)) = Answers (ready (err e))
  Because room (ready (ok slice)) = (room ≡ 0) ⊎ ((0 < length slice) ⊎ Answers (ready (ok 0)))

  filling-Gives :
      (w : World) (f : Future) (p : _)
      → S.poll w f ≡ p
      → (r' : BufReaderInner B S) × (g : Poll (Result (List ℕ))) × (filling B S p ≡ done (r', g))
        × IsWhole r'.state
        × Gives (rest w) r' g
        × Because 1 g
  unfolding filling IsWhole Gives ahead held view_of buffer Fits unread Because Answers
  filling-Gives w f (w', f', pending) e =
      (_, _, refl, tt, sym (S.pending-rest w w' f f' e), (w, w', f, f', e))
  filling-Gives w f (w', f', ready (b, err n)) e =
      (_, _, refl, inr (omega arith), nothing, (w, w', f, f', b, e))
    where
      nothing : rest w ≡ take (min 0 (length (bytes b)) - 0) (bytes b) ++ rest w'
      nothing =
          let none : min 0 (length (bytes b)) - 0 ≡ 0 = omega arith in
          rw none (sym (S.err-rest w w' f f' b e))
  filling-Gives w f (w', f', ready (b, ok n)) e = (
    _,
    _,
    refl,
    inl ((S.ok-rest w w' f f' b n e).0),
    (refl, some_lem),
    inr (some_or_end n e ((S.ok-rest w w' f f' b n e).0)),
  )
    where
      some_or_end :
          (k : ℕ)
          → S.poll w f ≡ (w', f', ready (b, ok k))
          → k ≤ length (bytes b)
          → (0 < length (take (min k (length (bytes b)) - 0) (bytes b))) ⊎ Answers (ready (ok 0))
      some_or_end zero e' h = inr (w, w', f, f', b, e')
      some_or_end (suc k) e' h =
          inl (omega (arith, h, length-take (min (suc k) (length (bytes b)) - 0) (bytes b)))

      some_lem : rest w ≡ take (min n (length (bytes b)) - 0) (bytes b) ++ rest w'
      some_lem =
          let law : (n ≤ length (bytes b)) × (rest w ≡ take n (bytes b) ++ rest w') =
            S.ok-rest w w' f f' b n e in
          let all : min n (length (bytes b)) - 0 ≡ n = omega (arith, law.0) in rw all law.1

  pub drop-nil : (n : ℕ) → drop {A = ℕ} n [] ≡ []
  drop-nil zero = refl
  drop-nil (suc n) = refl

  past-unread : (v : Reading B) → v.range.end ≤ v.range.start → unread B v ≡ []
  unfolding is_empty
  past-unread v h = is_empty-unread B v (ground (arith, h))

  pub consume-Fits :
      (v : Reading B) (amt : ℕ)
      → Fits B v
      → Fits B (consume B v amt) × (unread B (consume B v amt) ≡ drop amt (unread B v))
  unfolding consume Fits
  consume-Fits v amt (inl h) = (inl h, (consume-unread B v amt h).0)
  consume-Fits v amt (inr h) = (inr (omega (arith, h)), past)
    where
      past : unread B (consume B v amt) ≡ drop amt (unread B v)
      past =
          past-unread (consume B v amt) (omega (arith, h))
          ∙ sym (drop-nil amt)
          ∙ ap (drop amt) (sym (past-unread v h))

  some_held : (v : Reading B) → is_empty B v ≡ false → Fits B v → 0 < length (unread B v)
  unfolding is_empty unread Fits
  some_held v e (inl h) = ground (
    arith,
    e,
    h,
    length-take (min v.range.end (length (bytes v.inner)) - v.range.start)
        (drop v.range.start (bytes v.inner)),
    length-drop v.range.start (bytes v.inner),
  )
  some_held v e (inr h) = absurd (ground (arith, e, h))

  -- A poll of the reader for more bytes gives those it holds, and no two polls the same.
  pub poll_fill_buf-Gives :
      (w : World) (s : BufReaderState B S)
      → IsWhole s
      → (r' : BufReaderInner B S) × (g : Poll (Result (List ℕ))) × (poll_fill_buf B S
            (record { source = w; state = s })
          ≡ done (r', g))
        × IsWhole r'.state
        × Gives (held s ++ rest w) r' g
        × Because 1 g
  unfolding poll_fill_buf buffer IsWhole held Gives ahead Because
  poll_fill_buf-Gives w is_taken whole = absurd whole
  poll_fill_buf-Gives w (is_pending f) whole = filling-Gives w f (S.poll w f) refl
  poll_fill_buf-Gives w (is_filled v) whole = elim (Bool-cases (is_empty B v)) [
    | inl e ↦
        (let fresh : rest ((create_future w v.inner).0) ≡ unread B v ++ rest w =
            rw (is_empty-unread B v e) (S.create-rest w v.inner) in
          let (r', g, q, sound, gives, why) =
            filling-Gives ((create_future w v.inner).0) ((create_future w v.inner).1) _ refl in
          (r', g, rw e q, sound, subst (λ t. Gives t r' g) fresh gives, why))
    | inr e ↦ (
      record { source = w; state = is_filled v },
      ready (ok (unread B v)),
      rw e refl,
      whole,
      (refl, refl),
      inr (inl (some_held v e whole)),
    )
  ]
