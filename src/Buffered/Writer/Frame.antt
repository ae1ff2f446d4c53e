-- ===== src/Buffered/Writer/Frame.antt =====
-- What a writer leaves of its sink as it was.
use inel.Base.{
  Bool, true, false, if◌then◌else◌, ℕ, zero, suc, List, ◌==◌, Outcome, done, panic, ◌>>=◌,
}
use inel.Buffer.Cursor.{StableBufferMut, Writing, spare_capacity, is_unwritten}
use inel.Op.Results.{Result, ok, err}
use inel.Submission.{Poll, pending, ready}
use inel.Buffered.Writer.{
  Sink, BufWriterInner, BufWriterState, is_taken, is_pending, is_buffering, Flushing, Accepting,
  flushed, flushing, poll_flush, once_flushed, poll_flush_and_write, put_bytes, write_into,
  poll_write,
}

module _ (B : StableBufferMut) (S : Sink B) (P : Sink.World S → Type 0) where
  -- A predicate that the calls of the adapter keep.
  pub record Kept : Type 0 where
    pub create : (w : S.World) (v : Writing B) → P w → P ((S.create_future w v).0)
    pub poll : (w : S.World) (f : S.Future) → P w → P ((S.poll w f).0)
    pub pre : (w : S.World) (b : B.Buf) → P w → P ((S.pre_write w b).0)
    pub post : (w : S.World) (b : B.Buf) → P w → P ((S.post_flush w b).0)

  unfoldable pub Holds : {A : Type 0} → Outcome (BufWriterInner B S × A) → Type 0
  Holds (panic e) = Unit {0}
  Holds (done (r, g)) = P r.sink

  either-Holds :
      {A : Type 0} (b : Bool) (x y : Outcome (BufWriterInner B S × A))
      → Holds x
      → Holds y
      → Holds (if b then x else y)
  either-Holds true x y h h' = h
  either-Holds false x y h h' = h'

  module _ (k : Kept) where
    flushed-Holds : (w : S.World) (v : Writing B) (n : ℕ) → P w → Holds (flushed B S w v n)
    unfolding flushed Holds
    flushed-Holds w v n h = either-Holds (n == v.pos) _ _ (k.post w v.inner h) tt

    flushing-Holds :
        (x : S.World × S.Future × Poll (Writing B × Result ℕ)) → P x.0 → Holds (flushing B S x)
    unfolding flushing Holds
    flushing-Holds (w, f, pending) h = h
    flushing-Holds (w, f, ready (v, ok n)) h = flushed-Holds w v n h
    flushing-Holds (w, f, ready (v, err e)) h = h

    flush-Holds :
        (w : S.World) (s : BufWriterState B S)
        → P w
        → Holds (poll_flush B S (record { sink = w; state = s }))
    unfolding poll_flush Holds
    flush-Holds w is_taken h = tt
    flush-Holds w (is_pending f) h = flushing-Holds (S.poll w f) (k.poll w f h)
    flush-Holds w (is_buffering v) h =
        let (w', f) = S.create_future w v in
        either-Holds (is_unwritten B v) _ _ h
          (flushing-Holds (S.poll w' f) (k.poll w' f (k.create w v h)))

    -- A flush keeps what the calls of the adapter keep.
    pub poll_flush-Holds : (r : BufWriterInner B S) → P r.sink → Holds (poll_flush B S r)
    poll_flush-Holds r h = flush-Holds r.sink r.state h

    once_flushed-Holds :
        (write : BufWriterInner B S → Accepting B S)
        → ((r : BufWriterInner B S) → P r.sink → Holds (write r))
        → (p : Flushing B S) → Holds p
        → Holds (p >>= once_flushed B S write)
    unfolding once_flushed Holds
    once_flushed-Holds write law (panic e) h = tt
    once_flushed-Holds write law (done (r, pending)) h = h
    once_flushed-Holds write law (done (r, ready (err e))) h = h
    once_flushed-Holds write law (done (r, ready (ok u))) h = law r h

    placed-Holds :
        (w : S.World) (p : Outcome (Writing B × ℕ))
        → P w
        → Holds (p >>= λ (v, n). done (record { sink = w; state = is_buffering v }, ready (ok n)))
    unfolding Holds
    placed-Holds w (panic e) h = tt
    placed-Holds w (done (v, n)) h = h

    into-Holds :
        (w : S.World) (v : Writing B) (input : List ℕ) (full : BufWriterInner B S → Accepting B S)
        → ((r : BufWriterInner B S) → P r.sink → Holds (full r))
        → P w
        → Holds (write_into B S w v input full)
    unfolding write_into put_bytes
    into-Holds w v input full law h =
        either-Holds (spare_capacity B v == 0) _ _ (law _ h) (placed-Holds w _ h)

    flush_and_write-Holds :
        (write : BufWriterInner B S → Accepting B S)
        → ((r : BufWriterInner B S) → P r.sink → Holds (write r))
        → (r : BufWriterInner B S) → P r.sink
        → Holds (poll_flush_and_write B S write r)
    unfolding poll_flush_and_write
    flush_and_write-Holds write law r h =
        once_flushed-Holds write law (poll_flush B S r) (poll_flush-Holds r h)

    deeper-Holds :
        (depth : ℕ) (input : List ℕ)
        → ((r : BufWriterInner B S) → P r.sink → Holds (poll_write B S depth r input))
        → (w : S.World) (s : BufWriterState B S) → P w
        → Holds (poll_write B S (suc depth) (record { sink = w; state = s }) input)
    unfolding poll_write Holds
    deeper-Holds depth input law w is_taken h = tt
    deeper-Holds depth input law w (is_pending f) h =
        flush_and_write-Holds _ law (record { sink = w; state = is_pending f }) h
    deeper-Holds depth input law w (is_buffering v) h =
        into-Holds _ _ input _ (flush_and_write-Holds _ law) (k.pre w v.inner h)

    -- A write keeps what the calls of the adapter keep.
    pub poll_write-Holds :
        (depth : ℕ) (r : BufWriterInner B S) (input : List ℕ)
        → P r.sink
        → Holds (poll_write B S depth r input)
    unfolding poll_write Holds
    poll_write-Holds zero r input h = tt
    poll_write-Holds (suc depth) r input h =
        deeper-Holds depth input (λ r' h'. poll_write-Holds depth r' input h') r.sink r.state h
