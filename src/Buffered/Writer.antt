-- ===== src/Buffered/Writer.antt =====
-- crates/inel/src/io/buffered/writer/generic.rs: the writer behind `BufWriter`, `FixedBufWriter` and
-- `GroupBufWriter`. The sink, the reactor and the adapter are one parameter with a state of its own.
pub mod Flush
pub mod Follows
pub mod Frame
pub mod Ends
use inel.Base.{
  ℕ, zero, suc, List, [], ◌∷◌, ◌++◌, length, take, min, ◌≤◌, ◌≡◌, true, false, ◌==◌, if◌then◌else◌,
  Option, none, some, Outcome, done, panic, unreachable_code, assertion_failed, stack_overflow,
  ◌>>=◌,
}
use inel.Buffer.Cursor.{
  StableBufferMut, Writing, filled, fill, spare_capacity, set_pos, is_unwritten,
}
use inel.Op.Results.{Result, ok, err}
use inel.Submission.{Poll, pending, ready}

-- `BufWriterAdapter` with the sink `S` and the future `F`: `World` is what they share. The laws:
-- `sunk` is what the sink has taken, `carried` the view that a future holds until it gives it back;
-- a write that completes with a number has taken as many bytes of the view, and nothing else puts
-- any in. `pre_write` may put a buffer in where there is none, and leaves the bytes of another.
pub record Sink (B : StableBufferMut) : Type 1 where
  pub World : Type 0
  pub Future : Type 0
  pub create_future : World → Writing B → World × Future
  pub poll : World → Future → World × Future × Poll (Writing B × Result ℕ)
  pub pre_write : World → B.Buf → World × B.Buf
  pub post_flush : World → B.Buf → World × B.Buf
  pub sunk : World → List ℕ
  pub carried : Future → Writing B
  pub create-sunk :
      (w : World) (v : Writing B)
      → (sunk ((create_future w v).0) ≡ sunk w) × (carried ((create_future w v).1) ≡ v)
  pub pending-sunk :
      (w w' : World) (f f' : Future)
      → poll w f ≡ (w', f', pending)
      → (sunk w' ≡ sunk w) × (carried f' ≡ carried f)
  pub err-sunk :
      (w w' : World) (f f' : Future) (v : Writing B) {e : _}
      → poll w f ≡ (w', f', ready (v, err e))
      → (sunk w' ≡ sunk w) × (v ≡ carried f)
  pub ok-sunk :
      (w w' : World) (f f' : Future) (v : Writing B) (n : ℕ)
      → poll w f ≡ (w', f', ready (v, ok n))
      → (sunk w' ≡ sunk w ++ take n (filled B v)) × (v ≡ carried f)
  pub pre-sunk :
      (w : World) (v : Writing B)
      → v.pos ≤ length (B.bytes v.inner)
      → (sunk ((pre_write w v.inner).0) ≡ sunk w)
        × (v.pos ≤ length (B.bytes ((pre_write w v.inner).1)))
        × (filled B (record v { inner = (pre_write w v.inner).1 }) ≡ filled B v)
  pub post-sunk : (w : World) (b : B.Buf) → sunk ((post_flush w b).0) ≡ sunk w

module _ (B : StableBufferMut) (S : Sink B) where
  open B use {Buf}
  open S use {World, Future, create_future, pre_write, post_flush}

  pub data BufWriterState : Type 0 where
    is_taken : BufWriterState
    is_pending : Future → BufWriterState
    is_buffering : Writing B → BufWriterState

  pub record BufWriterInner : Type 0 where
    pub sink : World
    pub state : BufWriterState

  unfoldable pub new : Buf → World → ℕ → BufWriterInner
  new buffer sink pos = record {
    sink = sink;
    state = is_buffering (record { inner = buffer; pos = pos });
  }

  unfoldable pub empty : Buf → World → BufWriterInner
  unfolding new
  empty buffer sink = new buffer sink 0

  unfoldable pub into_raw_parts : BufWriterInner → World × Option (Buf × ℕ)
  into_raw_parts r = (
    r.sink,
    elim r.state [ is_buffering v ↦ some (v.inner, v.pos) | is_taken ↦ none | is_pending f ↦ none ],
  )

  abbrev pub Flushing : Type 0
  Flushing = Outcome (BufWriterInner × Poll (Result (Unit {0})))

  -- `poll_flush` on a write that took `wrote` bytes of the view.
  unfoldable pub flushed : World → Writing B → ℕ → Flushing
  unfolding set_pos
  flushed w v wrote =
      if wrote == v.pos
      then (let (w', b) = post_flush w v.inner in
          done (
            record { sink = w'; state = is_buffering (record (set_pos B v 0) { inner = b }) },
            ready (ok tt),
          ))
      else panic assertion_failed

  -- `poll_flush` on what the future's poll gives.
  unfoldable pub flushing : World × Future × Poll (Writing B × Result ℕ) → Flushing
  unfolding flushed
  flushing (w, f, pending) = done (record { sink = w; state = is_pending f }, pending)
  flushing (w, f, ready (v, ok wrote)) = flushed w v wrote
  flushing (w, f, ready (v, err e)) =
      done (record { sink = w; state = is_buffering v }, ready (err e))

  -- `AsyncWrite::poll_flush`: the call of itself finds the future it has just put in place.
  unfoldable pub poll_flush : BufWriterInner → Flushing
  unfolding flushing is_unwritten
  poll_flush r = elim r.state [
    | is_taken ↦ panic unreachable_code
    | is_pending f ↦ flushing (S.poll r.sink f)
    | is_buffering v ↦
        if is_unwritten B v
        then done (r, ready (ok tt))
        else (let (w, f) = create_future r.sink v in flushing (S.poll w f))
  ]

  abbrev pub Accepting : Type 0
  Accepting = Outcome (BufWriterInner × Poll (Result ℕ))

  -- `ready!(..)?` in front of a write.
  unfoldable pub once_flushed :
      (BufWriterInner → Accepting) → BufWriterInner × Poll (Result (Unit {0})) → Accepting
  once_flushed write (r, pending) = done (r, pending)
  once_flushed write (r, ready (err e)) = done (r, ready (err e))
  once_flushed write (r, ready (ok u)) = write r

  -- `poll_flush_and_write`, on the write that it ends in.
  unfoldable pub poll_flush_and_write : (BufWriterInner → Accepting) → BufWriterInner → Accepting
  unfolding poll_flush once_flushed
  poll_flush_and_write write r = poll_flush r >>= once_flushed write

  -- `fill` takes its `&input[..len]`.
  unfoldable pub put_bytes : World → Writing B → List ℕ → Accepting
  unfolding fill
  put_bytes w v input = fill B v input >>= λ (v', wrote).
      done (record { sink = w; state = is_buffering v' }, ready (ok wrote))

  -- `poll_write` into a view that `pre_write` has seen, and what to do where it has no room.
  unfoldable pub write_into : World → Writing B → List ℕ → (BufWriterInner → Accepting) → Accepting
  unfolding put_bytes spare_capacity
  write_into w v input when_full =
      if spare_capacity B v == 0
      then when_full (record { sink = w; state = is_buffering v })
      else put_bytes w v (take (min (spare_capacity B v) (length input)) input)

  -- `AsyncWrite::poll_write`. It and `poll_flush_and_write` call each other; `depth` bounds how
  -- often, which a machine does by its stack.
  unfoldable pub poll_write : ℕ → BufWriterInner → List ℕ → Accepting
  unfolding write_into poll_flush_and_write
  poll_write zero r input = panic stack_overflow
  poll_write (suc depth) r input =
      let flush_and_write = poll_flush_and_write (λ r'. poll_write depth r' input) in
      elim r.state [
        | is_taken ↦ panic unreachable_code
        | is_pending f ↦ flush_and_write r
        | is_buffering v ↦
            (let (w, b) = pre_write r.sink v.inner in
              write_into w (record v { inner = b }) input flush_and_write)
      ]

  unfoldable pub poll_close : BufWriterInner → BufWriterInner × Poll (Result (Unit {0}))
  poll_close r = (r, ready (ok tt))
