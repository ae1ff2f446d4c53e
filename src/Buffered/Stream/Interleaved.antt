-- ===== src/Buffered/Stream/Interleaved.antt =====
-- Reads and writes of a stream in any order.
use inel.Base.{
  ℕ, ◌≡◌, ◌⊎◌, inr, refl, sym, ap, ◌∙◌, List, [], ◌∷◌, ◌++◌, append_assoc, append-nil, take,
  Outcome, done, panic, arith, stack_overflow, assertion_failed, ◌>>=◌,
}
use inel.Buffer.Cursor.{StableBufferMut}
use inel.Op.Results.{Result, ok, err}
use inel.Submission.{Poll, pending, ready}
use inel.Buffered.Reader
use inel.Buffered.Reader.{Source, BufReaderInner, read}
use inel.Buffered.Reader.Fill
use inel.Buffered.Reader.Fill.{ahead}
use inel.Buffered.Reader.Follows.{poll_read-follows}
use inel.Buffered.Reader.Frame as ReaderFrame
use inel.Buffered.Writer
use inel.Buffered.Writer.Flush
use inel.Buffered.Writer.Flush.{accepted, CutsShort, Flushes, poll_flush-Flushes}
use inel.Buffered.Writer.Follows.{Accepts, poll_write-Accepts}
use inel.Buffered.Writer.Frame as WriterFrame
use inel.Buffered.Stream.{Duplex, reader_sink, BufStream, new, poll_read, poll_write, poll_flush}

module _ (B B' : StableBufferMut) (S : Source B) (D : Duplex B' S) (depth : ℕ) where
  abbrev pub St : Type 0
  St = BufStream B B' S D

  pub data Call : Type 0 where
    reads : ℕ → Call
    writes : List ℕ → Call
    flushes : Call

  -- The bytes of an input that were accepted.
  abbrev pub taken : List ℕ → Poll (Result ℕ) → List ℕ
  taken input (ready (ok n)) = take n input
  taken input (ready (err e)) = []
  taken input pending = []

  -- A stream after a call, the bytes that were read and those that were accepted.
  unfoldable pub call : St → Call → Outcome (St × List ℕ × List ℕ)
  call s (reads room) = do (s', g) ← poll_read B B' S D s room; done (s', read B S g, [])
  call s (writes input) = do
    (s', g) ← poll_write B B' S D depth s input
    done (s', [], taken input g)
  call s flushes = do (s', g) ← poll_flush B B' S D s; done (s', [], [])

  unfoldable pub calls : St → List Call → Outcome (St × List ℕ × List ℕ)
  unfolding call
  calls s [] = done (s, [], [])
  calls s (c ∷ cs) = do
    (s', got, put) ← call s c
    (s'', gots, puts) ← calls s' cs
    done (s'', got ++ gots, put ++ puts)

  -- Both halves are in order.
  pub record Whole (s : St) : Type 0 where
    pub reader : Fill.IsWhole B S s.sink.state
    pub writer : Flush.IsWhole B' (reader_sink B B' S D) s.state

  -- A new stream is whole.
  pub new-Whole : (b : B.Buf) (b' : B'.Buf) (w : S.World) → Whole (new B B' S D b b' w)
  unfolding new Reader.empty Reader.new Writer.empty Writer.new Fill.IsWhole Reader.Fits
      Flush.IsWhole Flush.IsWithin
  new-Whole b b' w = record { reader = inr (omega arith); writer = omega arith }

  -- What has been read since `s` was the next of its stream, and what has been accepted is behind
  -- what was; it panics only where the stack is too small, or the sink has completed a write of a
  -- part of the buffer.
  unfoldable pub Keeps : St → Outcome (St × List ℕ × List ℕ) → Type 0
  Keeps s (panic e) =
      (e ≡ stack_overflow) ⊎ ((e ≡ assertion_failed) × CutsShort B' (reader_sink B B' S D))
  Keeps s (done (s', got, put)) =
      Whole s'
      × (ahead B S s.sink ≡ got ++ ahead B S s'.sink)
      × (accepted B' (reader_sink B B' S D) s' ≡ accepted B' (reader_sink B B' S D) s ++ put)

  -- What the calls of the writer keep of the reader.
  Untouched : List ℕ → BufReaderInner B S → Type 0
  Untouched bytes r = (ahead B S r ≡ bytes) × Fill.IsWhole B S r.state

  Untouched-Kept : (bytes : List ℕ) → WriterFrame.Kept B' (reader_sink B B' S D) (Untouched bytes)
  unfolding ahead Fill.IsWhole Untouched
  Untouched-Kept bytes = record {
    create = λ r v (same, whole).
        (ap (Fill.held B S r.state ++◌) (D.write-rest r.source v) ∙ same, whole);
    poll = λ r f (same, whole).
        (ap (Fill.held B S r.state ++◌) (D.poll-rest r.source f) ∙ same, whole);
    pre = λ r b h. h;
    post = λ r b h. h;
  }

  -- What the calls of the reader keep of the sink.
  sunk-Kept : (bytes : List ℕ) → ReaderFrame.Kept B S (λ w. D.sunk w ≡ bytes)
  sunk-Kept bytes = record {
    create = λ w b e. D.read-sunk w b ∙ e;
    poll = λ w f e. D.filled-sunk w f ∙ e;
    post = λ w v e. D.consumed-sunk w v ∙ e;
  }

  read-Keeps : (s : St) (room : ℕ) → Whole s → Keeps s (call s (reads room))
  unfolding call poll_read Keeps accepted ReaderFrame.Holds
  read-Keeps s room whole =
      let (r', g, e, whole', follows, _, _) = poll_read-follows B S s.sink room whole.reader in
      let kept =
        ReaderFrame.poll_read-Holds B S (λ w. D.sunk w ≡ D.sunk s.sink.source)
          (sunk-Kept (D.sunk s.sink.source)) s.sink room refl in
      let same : D.sunk r'.source ≡ D.sunk s.sink.source = rw e at kept in
      rw e (
        record { reader = whole'; writer = whole.writer },
        follows,
        ap (λ t. t ++ Flush.held B' (reader_sink B B' S D) s.state) same ∙ sym (append-nil _),
      )

  written-Keeps :
      (s : St) (input : List ℕ) (p : Outcome (St × Poll (Result ℕ)))
      → Accepts B' (reader_sink B B' S D) (accepted B' (reader_sink B B' S D) s) input p
      → WriterFrame.Holds B' (reader_sink B B' S D) (Untouched (ahead B S s.sink)) p
      → Keeps s (p >>= λ (s', g). done (s', [], taken input g))
  unfolding Accepts WriterFrame.Holds Keeps Untouched
  written-Keeps s input (panic e) a h = a
  written-Keeps s input (done (s', pending)) (whole, same, _) (rest, reader) =
      (record { reader = reader; writer = whole }, sym rest, same ∙ sym (append-nil _))
  written-Keeps s input (done (s', ready (err e))) (whole, same, _) (rest, reader) =
      (record { reader = reader; writer = whole }, sym rest, same ∙ sym (append-nil _))
  written-Keeps s input (done (s', ready (ok n))) (whole, _, _, more) (rest, reader) =
      (record { reader = reader; writer = whole }, sym rest, more)

  flushed-Keeps :
      (s : St) (p : Outcome (St × Poll (Result (Unit {0}))))
      → Flushes B' (reader_sink B B' S D) (accepted B' (reader_sink B B' S D) s) p
      → WriterFrame.Holds B' (reader_sink B B' S D) (Untouched (ahead B S s.sink)) p
      → Keeps s (p >>= λ (s', g). done (s', [], []))
  unfolding Flushes WriterFrame.Holds Keeps Untouched accepted
  flushed-Keeps s (panic e) a h = inr a
  flushed-Keeps s (done (s', pending)) (whole, same, _) (rest, reader) =
      (record { reader = reader; writer = whole }, sym rest, same ∙ sym (append-nil _))
  flushed-Keeps s (done (s', ready (err e))) (whole, same, _) (rest, reader) =
      (record { reader = reader; writer = whole }, sym rest, same ∙ sym (append-nil _))
  flushed-Keeps s (done (s', ready (ok u))) (whole, none, all) (rest, reader) = (
    record { reader = reader; writer = whole },
    sym rest,
    ap (D.sunk s'.sink.source ++◌) none ∙ append-nil _ ∙ all ∙ sym (append-nil _),
  )

  call-Keeps : (s : St) (c : Call) → Whole s → Keeps s (call s c)
  unfolding call poll_write poll_flush Untouched
  call-Keeps s (reads room) whole = read-Keeps s room whole
  call-Keeps s (writes input) whole =
      written-Keeps s input (poll_write B B' S D depth s input)
        (poll_write-Accepts B' (reader_sink B B' S D) depth s input whole.writer)
        (WriterFrame.poll_write-Holds B' (reader_sink B B' S D) (Untouched (ahead B S s.sink))
          (Untouched-Kept (ahead B S s.sink)) depth s input (refl, whole.reader))
  call-Keeps s flushes whole =
      flushed-Keeps s (poll_flush B B' S D s)
        (poll_flush-Flushes B' (reader_sink B B' S D) s whole.writer)
        (WriterFrame.poll_flush-Holds B' (reader_sink B B' S D) (Untouched (ahead B S s.sink))
          (Untouched-Kept (ahead B S s.sink)) s (refl, whole.reader))

  joined-Keeps :
      (s s' : St) (got put : List ℕ) (q : Outcome (St × List ℕ × List ℕ))
      → Keeps s (done (s', got, put))
      → Keeps s' q
      → Keeps s (q >>= λ (s'', gots, puts). done (s'', got ++ gots, put ++ puts))
  unfolding Keeps
  joined-Keeps s s' got put (panic e) h h' = h'
  joined-Keeps s s' got put (done (s'', gots, puts)) (_, ahead, behind) (whole, ahead', behind') = (
    whole,
    ahead ∙ ap (got ++◌) ahead' ∙ sym (append_assoc got gots _),
    behind' ∙ ap (λ t. t ++ puts) behind ∙ append_assoc _ put puts,
  )

  then-Keeps :
      (s : St) (cs : List Call)
      → ((s' : St) → Whole s' → Keeps s' (calls s' cs))
      → (p : Outcome (St × List ℕ × List ℕ)) → Keeps s p
      → Keeps s (
          p >>= λ (s', got, put).
          calls s' cs >>= λ (s'', gots, puts). done (s'', got ++ gots, put ++ puts))
  unfolding Keeps
  then-Keeps s cs law (panic e) h = h
  then-Keeps s cs law (done (s', got, put)) h =
      joined-Keeps s s' got put (calls s' cs) h (law s' h.0)

  -- Any calls of a stream that is whole, in any order, whatever its source answers: what the reads
  -- give is the next bytes of what the source has to deliver, each once and in order, whatever is
  -- written between them; what the writes accept is put behind what was accepted before, in order,
  -- whatever is read between them; and the stream is whole after them. They panic only where the
  -- depth of the calls is exceeded, or the sink has completed a write of a part of the buffer.
  pub calls-Keeps : (s : St) (cs : List Call) → Whole s → Keeps s (calls s cs)
  unfolding calls Keeps
  calls-Keeps s [] whole = (whole, refl, sym (append-nil _))
  calls-Keeps s (c ∷ cs) whole =
      then-Keeps s cs (λ s' whole'. calls-Keeps s' cs whole') (call s c) (call-Keeps s c whole)
