-- ===== src/Buffered/Writer/Ends.antt =====
-- When the two functions of the buffered writer that call each other come to an end.
use inel.Base.{
  ℕ, zero, suc, Bool-cases, true, false, List, ◌-◌, length, ◌≡◌, ◌≢◌, ◌<◌, refl, subst, inl, inr,
  ltb, ◌==◌, Panic, Outcome, done, panic, stack_overflow, arith, ◌>>=◌,
}
use inel.Buffer.Cursor.{StableBufferMut, Writing, fill, spare_capacity, set_pos, is_unwritten}
use inel.Op.Results.{ok, err}
use inel.Submission.{pending, ready}
use inel.Buffered.Writer.{
  Sink, BufWriterInner, BufWriterState, is_taken, is_pending, is_buffering, Flushing, Accepting,
  flushed, flushing, poll_flush, once_flushed, poll_flush_and_write, put_bytes, write_into,
  poll_write, empty, new,
}

unfoldable IsOther : Panic → Type 0
IsOther e = elim e [ stack_overflow ↦ ⊥ | _ ↦ Unit ]

-- Whether an outcome is another than the end of a function that calls itself without end.
unfoldable IsFinite {ℓ} : {A : Type ℓ} → Outcome A → Type 0
unfolding IsOther
IsFinite (done a) = Unit
IsFinite (panic e) = IsOther e

IsFinite-ne {ℓ} : {A : Type ℓ} (o : Outcome A) → IsFinite o → o ≢ panic stack_overflow
unfolding IsFinite
IsFinite-ne o h q = subst IsFinite q h

module _ (B : StableBufferMut) (S : Sink B) where
  open B use {Buf, bytes}
  open S use {World, Future, create_future, pre_write, post_flush}

  unfoldable IsReset : BufWriterState B S → Type 0
  IsReset is_taken = ⊥
  IsReset (is_pending f) = ⊥
  IsReset (is_buffering v) = v.pos ≡ 0

  unfoldable Resets : Flushing B S → Type 0
  unfolding IsOther IsReset
  Resets (panic e) = IsOther e
  Resets (done (r, pending)) = Unit
  Resets (done (r, ready (err e))) = Unit
  Resets (done (r, ready (ok u))) = IsReset r.state

  flushed-Resets : (w : World) (v : Writing B) (n : ℕ) → Resets (flushed B S w v n)
  unfolding flushed Resets IsReset set_pos
  flushed-Resets w v n = elim (Bool-cases (n == v.pos)) [ inl y ↦ rw y refl | inr y ↦ rw y tt ]

  flushing-Resets : (p : _) → Resets (flushing B S p)
  unfolding flushing Resets
  flushing-Resets (w, f, pending) = tt
  flushing-Resets (w, f, ready (v, err e)) = tt
  flushing-Resets (w, f, ready (v, ok n)) = flushed-Resets w v n

  is_unwritten-pos : (v : Writing B) → is_unwritten B v ≡ true → v.pos ≡ 0
  unfolding is_unwritten
  is_unwritten-pos v y = ground (arith, y)

  poll_flush-Resets :
      (w : World) (s : BufWriterState B S)
      → Resets (poll_flush B S (record { sink = w; state = s }))
  unfolding poll_flush Resets IsReset
  poll_flush-Resets w is_taken = tt
  poll_flush-Resets w (is_pending f) = flushing-Resets (S.poll w f)
  poll_flush-Resets w (is_buffering v) = elim (Bool-cases (is_unwritten B v)) [
    | inl y ↦ rw y (is_unwritten-pos v y)
    | inr y ↦ rw y (flushing-Resets (S.poll ((create_future w v).0) ((create_future w v).1)))
  ]

  put_bytes-IsFinite :
      (w : World) (v : Writing B) (input : List ℕ) → IsFinite (put_bytes B S w v input)
  unfolding put_bytes fill IsFinite
  put_bytes-IsFinite w v input = elim (Bool-cases (ltb (length (bytes v.inner)) v.pos)) [
    | inl y ↦ rw y tt
    | inr y ↦ rw y tt
  ]

  once_flushed-IsFinite :
      (write : BufWriterInner B S → Accepting B S)
      → ((r : BufWriterInner B S) → IsReset r.state → IsFinite (write r))
      → (p : Flushing B S) → Resets p
      → IsFinite (p >>= once_flushed B S write)
  unfolding once_flushed Resets IsFinite
  once_flushed-IsFinite write law (panic e) h = h
  once_flushed-IsFinite write law (done (r, pending)) h = tt
  once_flushed-IsFinite write law (done (r, ready (err e))) h = tt
  once_flushed-IsFinite write law (done (r, ready (ok u))) h = law r h

  module _ (roomy : (w : World) (b : Buf) → 0 < length (bytes ((pre_write w b).1))) where
    reset-IsFinite :
        (depth : ℕ) (input : List ℕ) (w : World) (s : BufWriterState B S)
        → IsReset s
        → IsFinite (poll_write B S (suc depth) (record { sink = w; state = s }) input)
    unfolding poll_write write_into IsReset spare_capacity
    reset-IsFinite depth input w is_taken h = absurd h
    reset-IsFinite depth input w (is_pending f) h = absurd h
    reset-IsFinite depth input w (is_buffering v) h =
        let (w', b) = pre_write w v.inner in
        let some_room : (length (bytes b) - v.pos == 0) ≡ false =
          ground (arith, h, roomy w v.inner) in
        rw some_room (put_bytes-IsFinite w' (record v { inner = b }) _)

    again :
        (depth : ℕ) (input : List ℕ) (w : World) (s : BufWriterState B S)
        → IsFinite (
            poll_flush_and_write B S
              (λ r. poll_write B S (suc depth) r input)
              (record { sink = w; state = s }))
    unfolding poll_flush_and_write
    again depth input w s =
        once_flushed-IsFinite (λ r. poll_write B S (suc depth) r input)
          (λ r h. reset-IsFinite depth input r.sink r.state h)
          (poll_flush B S (record { sink = w; state = s })) (poll_flush-Resets w s)

    poll_write-IsFinite :
        (depth : ℕ) (input : List ℕ) (w : World) (s : BufWriterState B S)
        → IsFinite (poll_write B S (suc (suc depth)) (record { sink = w; state = s }) input)
    unfolding poll_write write_into poll_flush_and_write IsFinite
    poll_write-IsFinite depth input w is_taken = tt
    poll_write-IsFinite depth input w (is_pending f) = again depth input w (is_pending f)
    poll_write-IsFinite depth input w (is_buffering v) =
        let (w', b) = pre_write w v.inner in
        elim (Bool-cases (spare_capacity B (record v { inner = b }) == 0)) [
          | inl y ↦ rw y (again depth input w' (is_buffering (record v { inner = b })))
          | inr y ↦ rw y (put_bytes-IsFinite w' (record v { inner = b }) _)
        ]

  -- Where every buffer has at least one byte once `pre_write` has seen it, a write never calls
  -- itself more than once: two levels of calls are enough for it.
  pub poll_write-ends :
      ((w : World) (b : Buf) → 0 < length (bytes ((pre_write w b).1)))
      → (depth : ℕ) (r : BufWriterInner B S) (input : List ℕ)
      → poll_write B S (suc (suc depth)) r input ≢ panic stack_overflow
  poll_write-ends roomy depth r input =
      IsFinite-ne (poll_write B S (suc (suc depth)) r input)
        (poll_write-IsFinite roomy depth input r.sink r.state)

  -- On a writer that is new with a buffer of no bytes, and whose adapter leaves buffers alone, a
  -- write calls itself beyond every depth.
  pub poll_write-overflows :
      (depth : ℕ) (w : World) (b : Buf) (input : List ℕ)
      → length (bytes b) ≡ 0
      → ((w' : World) (b' : Buf) → pre_write w' b' ≡ (w', b'))
      → poll_write B S depth (empty B S b w) input ≡ panic stack_overflow
  unfolding poll_write empty new write_into poll_flush_and_write poll_flush once_flushed
      spare_capacity
  poll_write-overflows zero w b input none same = refl
  poll_write-overflows (suc depth) w b input none same =
      let full : (length (bytes b) - 0 == 0) ≡ true = ground (arith, none) in
      rw (same w b, full) (poll_write-overflows depth w b input none same)
