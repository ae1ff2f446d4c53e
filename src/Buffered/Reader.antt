-- ===== src/Buffered/Reader.antt =====
-- crates/inel/src/io/buffered/reader/generic.rs: the reader behind `BufReader`, `FixedBufReader` and
-- `GroupBufReader`. The source, the reactor and the adapter are one parameter with a state of its own.
pub mod Fill
pub mod Follows
pub mod Frame
use inel.Base.{
  ℕ, List, [], ◌∷◌, ◌++◌, length, take, min, ◌≤◌, ◌≡◌, ◌⊎◌, true, if◌then◌else◌, Option, none, some,
  Outcome, done, panic, unreachable_code, ◌>>=◌,
}
use inel.Buffer.Cursor.{StableBufferMut, Reading, is_empty, consume, unread}
use inel.Op.Results.{Result, ok, err}
use inel.Submission.{Poll, pending, ready}

-- A view whose range ends within its buffer, or past which there is nothing.
unfoldable pub Fits : (B : StableBufferMut) → Reading B → Type 0
Fits B v = (v.range.end ≤ length (StableBufferMut.bytes B v.inner)) ⊎ (v.range.end ≤ v.range.start)

-- `BufReaderAdapter` with the source `S` and the future `F`: `World` is what they share. The laws
-- are those of a byte stream: `rest` is what it has still to deliver; a read that completes with a
-- number has taken as many bytes off it, and nothing else takes any. `post_consume` may give the
-- buffer back once the view is empty.
pub record Source (B : StableBufferMut) : Type 1 where
  pub World : Type 0
  pub Future : Type 0
  pub create_future : World → B.Buf → World × Future
  pub poll : World → Future → World × Future × Poll (B.Buf × Result ℕ)
  pub post_consume : World → Reading B → World × Reading B
  pub rest : World → List ℕ
  pub create-rest : (w : World) (b : B.Buf) → rest ((create_future w b).0) ≡ rest w
  pub pending-rest :
      (w w' : World) (f f' : Future) → poll w f ≡ (w', f', pending) → rest w' ≡ rest w
  pub err-rest :
      (w w' : World) (f f' : Future) (b : B.Buf) {e : _}
      → poll w f ≡ (w', f', ready (b, err e))
      → rest w' ≡ rest w
  pub ok-rest :
      (w w' : World) (f f' : Future) (b : B.Buf) (n : ℕ)
      → poll w f ≡ (w', f', ready (b, ok n))
      → (n ≤ length (B.bytes b)) × (rest w ≡ take n (B.bytes b) ++ rest w')
  pub post-rest : (w : World) (v : Reading B) → rest ((post_consume w v).0) ≡ rest w
  pub post-unread :
      (w : World) (v : Reading B)
      → Fits B v
      → Fits B ((post_consume w v).1) × (unread B ((post_consume w v).1) ≡ unread B v)

module _ (B : StableBufferMut) (S : Source B) where
  open B use {Buf}
  open S use {World, Future, create_future, post_consume}

  pub data BufReaderState : Type 0 where
    is_taken : BufReaderState
    is_pending : Future → BufReaderState
    is_filled : Reading B → BufReaderState

  pub record BufReaderInner : Type 0 where
    pub source : World
    pub state : BufReaderState

  unfoldable pub new : Buf → World → ℕ → ℕ → BufReaderInner
  new buffer source pos filled = record {
    source = source;
    state = is_filled (record { inner = buffer; range = record { start = pos; end = filled } });
  }

  unfoldable pub empty : Buf → World → BufReaderInner
  unfolding new
  empty buffer source = new buffer source 0 0

  unfoldable pub buffer : BufReaderState → Outcome (List ℕ)
  buffer (is_filled v) = done (unread B v)
  buffer is_taken = panic unreachable_code
  buffer (is_pending f) = panic unreachable_code

  unfoldable pub into_raw_parts : BufReaderInner → World × Option (Buf × ℕ × ℕ)
  into_raw_parts r = (
    r.source,
    elim r.state [
      | is_filled v ↦ some (v.inner, v.range.start, v.range.end)
      | is_taken ↦ none
      | is_pending f ↦ none
    ],
  )

  unfoldable pub view_of : Buf → ℕ → BufReaderState
  view_of b filled = is_filled (record { inner = b; range = record { start = 0; end = filled } })

  abbrev pub Filling : Type 0
  Filling = Outcome (BufReaderInner × Poll (Result (List ℕ)))

  -- `poll_fill_buf` on what the future's poll gives.
  unfoldable pub filling : World × Future × Poll (Buf × Result ℕ) → Filling
  unfolding view_of buffer
  filling (w, f, pending) = done (record { source = w; state = is_pending f }, pending)
  filling (w, f, ready (b, ok filled)) = buffer (view_of b filled) >>= λ slice.
      done (record { source = w; state = view_of b filled }, ready (ok slice))
  filling (w, f, ready (b, err e)) =
      done (record { source = w; state = view_of b 0 }, ready (err e))

  -- `AsyncBufRead::poll_fill_buf`: the call of itself finds the future it has just put in place.
  unfoldable pub poll_fill_buf : BufReaderInner → Filling
  unfolding filling
  poll_fill_buf r = elim r.state [
    | is_taken ↦ panic unreachable_code
    | is_pending f ↦ filling (S.poll r.source f)
    | is_filled v ↦
        if is_empty B v
        then (let (w, f) = create_future r.source v.inner in filling (S.poll w f))
        else (buffer r.state >>= λ slice. done (r, ready (ok slice)))
  ]

  -- `AsyncBufRead::consume`.
  unfoldable pub advance : BufReaderInner → ℕ → BufReaderInner
  advance r amt = elim r.state [
    | is_filled v ↦
        (let (w, v') = post_consume r.source (consume B v amt) in
          record { source = w; state = is_filled v' })
    | is_taken ↦ r
    | is_pending f ↦ r
  ]

  -- `Read for &[u8]` copies as much as the caller has room for.
  unfoldable pub reading : ℕ → BufReaderInner × Poll (Result (List ℕ)) → Filling
  unfolding advance
  reading room (r, pending) = done (r, pending)
  reading room (r, ready (err e)) = done (r, ready (err e))
  reading room (r, ready (ok slice)) =
      let len = min (length slice) room in done (advance r len, ready (ok (take len slice)))

  -- `AsyncRead::poll_read` into `room` bytes: the bytes it copies.
  unfoldable pub poll_read : BufReaderInner → ℕ → Filling
  unfolding poll_fill_buf reading
  poll_read r room = poll_fill_buf r >>= reading room

  unfoldable pub read : Poll (Result (List ℕ)) → List ℕ
  read pending = []
  read (ready (err e)) = []
  read (ready (ok slice)) = slice

  -- Reads in a row, whatever each gives, with all the bytes that they copied.
  unfoldable pub poll_reads : BufReaderInner → List ℕ → Outcome (BufReaderInner × List ℕ)
  unfolding poll_read read
  poll_reads r [] = done (r, [])
  poll_reads r (room ∷ rooms) = poll_read r room >>= λ (r', p).
      poll_reads r' rooms >>= λ (r'', later). done (r'', read p ++ later)
