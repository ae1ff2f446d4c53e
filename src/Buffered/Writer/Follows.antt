-- ===== src/Buffered/Writer/Follows.antt =====
-- The buffered writer against the bytes that it has accepted.
use inel.Base.Slices.{take-shorter, nil_of_length}
use inel.Base.{
  ℕ, zero, suc, Bool-cases, List, [], ◌++◌, length, length-take, eq-or-ne, take, min, ◌≤◌, ◌<◌, ◌≡◌,
  refl, sym, ap, ap₂, subst, ◌∙◌, ◌⊎◌, inl, inr, ◌==◌, done, panic, assertion_failed,
  stack_overflow, ◌>>=◌, arith, append-nil, append_assoc,
}
use inel.Buffer.Cursor.{StableBufferMut, Writing, filled, spare_capacity, fill-filled}
use inel.Op.Results.{ok, err}
use inel.Submission.{pending, ready}
use inel.Buffered.Writer.{
  Sink, BufWriterInner, BufWriterState, is_taken, is_pending, is_buffering, Flushing, Accepting,
  poll_flush, once_flushed, poll_flush_and_write, put_bytes, write_into, poll_write,
}
use inel.Buffered.Writer.Flush.{
  held, accepted, IsWithin, IsWhole, CutsShort, Answers, Flushes, poll_flush-Flushes,
}

module _ (B : StableBufferMut) (S : Sink B) where
  open B use {Buf, bytes}
  open S use {World, Future, create_future, pre_write, post_flush, sunk, carried}

  unfoldable pub Accepts : List ℕ → List ℕ → Accepting B S → Type 0
  unfolding accepted
  Accepts base input (panic e) = (e ≡ stack_overflow) ⊎ ((e ≡ assertion_failed) × CutsShort B S)
  Accepts base input (done (r, pending)) =
      IsWhole B S r.state × (accepted B S r ≡ base) × Answers B S pending
  Accepts base input (done (r, ready (err e))) =
      IsWhole B S r.state × (accepted B S r ≡ base) × Answers B S (ready (err e))
  Accepts base input (done (r, ready (ok n))) =
      IsWhole B S r.state
      × (n ≤ length input)
      × ((input ≡ []) ⊎ (0 < n))
      × (accepted B S r ≡ base ++ take n input)

  once_flushed-Accepts :
      (base input : List ℕ) (write : BufWriterInner B S → Accepting B S)
      → ((r : BufWriterInner B S) → IsWhole B S r.state → Accepts (accepted B S r) input (write r))
      → (p : Flushing B S) → Flushes B S base p
      → Accepts base input (p >>= once_flushed B S write)
  unfolding once_flushed Flushes Accepts accepted
  once_flushed-Accepts base input write law (panic e) h = inr h
  once_flushed-Accepts base input write law (done (r, pending)) h = h
  once_flushed-Accepts base input write law (done (r, ready (err e))) h = h
  once_flushed-Accepts base input write law (done (r, ready (ok u))) (whole, none, all) =
      subst (λ t. Accepts t input (write r))
        (ap (sunk r.sink ++◌) none ∙ append-nil (sunk r.sink) ∙ all) (law r whole)

  flush_and_write-Accepts :
      (input : List ℕ) (write : BufWriterInner B S → Accepting B S)
      → ((r : BufWriterInner B S) → IsWhole B S r.state → Accepts (accepted B S r) input (write r))
      → (r : BufWriterInner B S) → IsWhole B S r.state
      → Accepts (accepted B S r) input (poll_flush_and_write B S write r)
  unfolding poll_flush_and_write
  flush_and_write-Accepts input write law r whole =
      once_flushed-Accepts (accepted B S r) input write law (poll_flush B S r)
        (poll_flush-Flushes B S r whole)

  put_bytes-Accepts :
      (w : World) (v : Writing B) (input : List ℕ)
      → IsWithin B S v
      → 0 < spare_capacity B v
      → Accepts
          (sunk w ++ filled B v)
          input
          (put_bytes B S w v (take (min (spare_capacity B v) (length input)) input))
  unfolding put_bytes Accepts accepted held IsWhole IsWithin
  put_bytes-Accepts w v input h room =
      let (v', q, all, left, within, same) = fill-filled B v (take len input) h in
      rw (q, fits) (within, omega arith, some_or_none, follows v' all)
    where
      len : ℕ
      len = min (spare_capacity B v) (length input)

      fits : min (length (take len input)) (spare_capacity B v) ≡ len
      fits = omega (arith, length-take len input)

      some_or_none : (input ≡ []) ⊎ (0 < len)
      some_or_none = elim (eq-or-ne (length input) 0) [
        | inl y ↦ inl (nil_of_length input y)
        | inr y ↦ inr (omega (arith, y, room))
      ]

      follows :
          (v' : Writing B)
          → filled B v' ≡ filled B v ++ take (spare_capacity B v) (take len input)
          → sunk w ++ filled B v' ≡ (sunk w ++ filled B v) ++ take len input
      follows v' all =
          ap (sunk w ++◌)
            (all ∙ ap (filled B v ++◌) (take-shorter (spare_capacity B v) len input (omega arith)))
          ∙ sym (append_assoc (sunk w) (filled B v) (take len input))

  write_into-Accepts :
      (w : World) (v : Writing B) (input : List ℕ) (when_full : BufWriterInner B S → Accepting B S)
      → IsWithin B S v
      → ((r : BufWriterInner B S)
          → IsWhole B S r.state
          → Accepts (accepted B S r) input (when_full r))
      → Accepts (sunk w ++ filled B v) input (write_into B S w v input when_full)
  unfolding write_into accepted held IsWhole
  write_into-Accepts w v input when_full h law = elim (Bool-cases (spare_capacity B v == 0)) [
    | inl y ↦ rw y (law (record { sink = w; state = is_buffering v }) h)
    | inr y ↦ rw y (put_bytes-Accepts w v input h (ground (arith, y)))
  ]

  deeper-Accepts :
      (depth : ℕ) (input : List ℕ)
      → ((r : BufWriterInner B S)
          → IsWhole B S r.state
          → Accepts (accepted B S r) input (poll_write B S depth r input))
      → (w : World) (s : BufWriterState B S) → IsWhole B S s
      → Accepts
          (sunk w ++ held B S s)
          input
          (poll_write B S (suc depth) (record { sink = w; state = s }) input)
  unfolding poll_write held IsWhole accepted IsWithin
  deeper-Accepts depth input law w is_taken h = absurd h
  deeper-Accepts depth input law w (is_pending f) h =
      flush_and_write-Accepts input (λ r. poll_write B S depth r input) law
        (record { sink = w; state = is_pending f }) h
  deeper-Accepts depth input law w (is_buffering v) h =
      subst (λ t. Accepts t input (write_into B S w' v' input full)) (ap₂ ◌++◌ pre.0 pre.2)
        (write_into-Accepts w' v' input full pre.1
          (flush_and_write-Accepts input (λ r. poll_write B S depth r input) law))
    where
      w' : World
      w' = (pre_write w v.inner).0

      v' : Writing B
      v' = record v { inner = (pre_write w v.inner).1 }

      full : BufWriterInner B S → Accepting B S
      full = poll_flush_and_write B S (λ r. poll_write B S depth r input)

      pre : (sunk w' ≡ sunk w) × (v.pos ≤ length (bytes v'.inner)) × (filled B v' ≡ filled B v)
      pre = S.pre-sunk w v h

  -- A write to a whole buffered writer, at whatever depth of calls: where it is ready with a
  -- number, that many bytes of the input, at least one where there are any, are accepted behind
  -- those before; where it is pending or fails, which it is or does only where the sink is or does,
  -- nothing is accepted and nothing lost. It panics only where the depth is too little or the sink
  -- has completed a write of another number of bytes than asked for.
  pub poll_write-Accepts :
      (depth : ℕ) (r : BufWriterInner B S) (input : List ℕ)
      → IsWhole B S r.state
      → Accepts (accepted B S r) input (poll_write B S depth r input)
  unfolding poll_write Accepts accepted
  poll_write-Accepts zero r input whole = inl refl
  poll_write-Accepts (suc depth) r input whole =
      deeper-Accepts depth input (λ r' h. poll_write-Accepts depth r' input h) r.sink r.state whole
