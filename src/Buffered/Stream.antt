-- ===== src/Buffered/Stream.antt =====
-- `BufStream` of crates/inel/src/compat/stream.rs, a buffered writer over a buffered reader, with what
-- `impl_bufwriter` and `impl_bufreader` pass on: a read goes to the reader inside, and the writes of
-- the writer go to the source of that reader.
pub mod Interleaved
pub mod Hyper
mod Tests
use inel.Base.{ℕ, ◌≡◌, refl, ap, List, [], ◌∷◌, ◌++◌, length, take, done, Outcome, ◌>>=◌}
use inel.Buffer.Cursor.{StableBufferMut, Reading, Writing, filled}
use inel.Op.Results.{Result, ok, err}
use inel.Submission.{Poll, pending, ready}
use inel.Buffered.Reader
use inel.Buffered.Reader.{Source, BufReaderInner}
use inel.Buffered.Writer
use inel.Buffered.Writer.{Sink, BufWriterInner}

-- What can be read from and written to: a source `S` that is a sink, too. The laws are those of a
-- sink, and that neither direction touches the other.
pub record Duplex {B : StableBufferMut} (B' : StableBufferMut) (S : Source B) : Type 1 where
  pub Future : Type 0
  pub write_owned : Source.World S → Writing B' → Source.World S × Future
  pub poll : Source.World S → Future → Source.World S × Future × Poll (Writing B' × Result ℕ)
  pub sunk : Source.World S → List ℕ
  pub carried : Future → Writing B'
  pub create-sunk :
      (w : Source.World S) (v : Writing B')
      → (sunk ((write_owned w v).0) ≡ sunk w) × (carried ((write_owned w v).1) ≡ v)
  pub pending-sunk :
      (w w' : Source.World S) (f f' : Future)
      → poll w f ≡ (w', f', pending)
      → (sunk w' ≡ sunk w) × (carried f' ≡ carried f)
  pub err-sunk :
      (w w' : Source.World S) (f f' : Future) (v : Writing B') {e : _}
      → poll w f ≡ (w', f', ready (v, err e))
      → (sunk w' ≡ sunk w) × (v ≡ carried f)
  pub ok-sunk :
      (w w' : Source.World S) (f f' : Future) (v : Writing B') (n : ℕ)
      → poll w f ≡ (w', f', ready (v, ok n))
      → (sunk w' ≡ sunk w ++ take n (filled B' v)) × (v ≡ carried f)
  pub write-rest : (w : Source.World S) (v : Writing B') → S.rest ((write_owned w v).0) ≡ S.rest w
  pub poll-rest : (w : Source.World S) (f : Future) → S.rest ((poll w f).0) ≡ S.rest w
  pub read-sunk : (w : Source.World S) (b : B.Buf) → sunk ((S.create_future w b).0) ≡ sunk w
  pub filled-sunk : (w : Source.World S) (f : S.Future) → sunk ((S.poll w f).0) ≡ sunk w
  pub consumed-sunk : (w : Source.World S) (v : Reading B) → sunk ((S.post_consume w v).0) ≡ sunk w

module _ (B B' : StableBufferMut) (S : Source B) (D : Duplex B' S) where
  -- What the reader makes of the calls that it passes on to its source.
  abbrev pub created : BufReaderInner B S → S.World × D.Future → BufReaderInner B S × D.Future
  created r (w, f) = (record r { source = w }, f)

  abbrev pub polled :
      BufReaderInner B S
      → S.World × D.Future × Poll (Writing B' × Result ℕ)
      → BufReaderInner B S × D.Future × Poll (Writing B' × Result ℕ)
  polled r (w, f, p) = (record r { source = w }, f, p)

  pub polled_back :
      (r : BufReaderInner B S) {r' : BufReaderInner B S} {f : D.Future}
      {p : Poll (Writing B' × Result ℕ)} (x : S.World × D.Future × Poll (Writing B' × Result ℕ))
      → polled r x ≡ (r', f, p)
      → x ≡ (r'.source, f, p)
  polled_back r (w, f, p) e = ap (λ y. (y.0.source, y.1, y.2)) e

  -- The reader as the sink of a writer.
  abbrev pub reader_sink : Sink B'
  reader_sink = record {
    World = BufReaderInner B S;
    Future = D.Future;
    create_future = λ r v. created r (D.write_owned r.source v);
    poll = λ r f. polled r (D.poll r.source f);
    pre_write = λ r b. (r, b);
    post_flush = λ r b. (r, b);
    sunk = λ r. D.sunk r.source;
    carried = D.carried;
    create-sunk = λ r v. D.create-sunk r.source v;
    pending-sunk = λ r r' f f' e. D.pending-sunk r.source r'.source f f' (polled_back r _ e);
    err-sunk = λ r r' f f' v e. D.err-sunk r.source r'.source f f' v (polled_back r _ e);
    ok-sunk = λ r r' f f' v n e. D.ok-sunk r.source r'.source f f' v n (polled_back r _ e);
    pre-sunk = λ r v h. (refl, h, refl);
    post-sunk = λ r b. refl;
  }

  abbrev pub BufStream : Type 0
  BufStream = BufWriterInner B' reader_sink

  -- `BufStream::new`, with the buffers that `BufReader::new` and `BufWriter::new` allocate.
  unfoldable pub new : B.Buf → B'.Buf → S.World → BufStream
  new b b' stream = Writer.empty B' reader_sink b' (Reader.empty B S b stream)

  -- The bytes that are copied into `room` bytes.
  unfoldable pub poll_read : BufStream → ℕ → Outcome (BufStream × Poll (Result (List ℕ)))
  poll_read s room = do (r, g) ← Reader.poll_read B S s.sink room; done (record s { sink = r }, g)

  unfoldable pub poll_write : ℕ → BufStream → List ℕ → Outcome (BufStream × Poll (Result ℕ))
  poll_write = Writer.poll_write B' reader_sink

  unfoldable pub poll_flush : BufStream → Outcome (BufStream × Poll (Result (Unit {0})))
  poll_flush = Writer.poll_flush B' reader_sink
