-- ===== src/Buffered/Fix.antt =====
-- `BufReader::fix` and `BufWriter::fix` of crates/inel/src/io/buffered, with the `from_raw` of
-- `FixedBufReader` and `FixedBufWriter`: the buffer is registered with the ring, and the bytes in it
-- stay where they are.
mod Tests
use inel.Base.{
  ℕ, ◌-◌, ◌≤◌, ◌≡◌, ◌≢◌, refl, sym, ap₂, subst, Option, none, some, List, ◌++◌, length, take, drop,
  min,
}
use inel.Buffer.Cursor.{StableBufferMut, Reading, Writing, unread, filled}
use inel.Ring.{IoResult, ok, no_slots, io_error}
use inel.Buffered.Reader
use inel.Buffered.Reader.{Source, BufReaderInner, is_taken, is_pending, is_filled, Fits}
use inel.Buffered.Reader.Fill.{held, ahead, IsWhole}
use inel.Buffered.Writer
use inel.Buffered.Writer.{Sink, BufWriterInner, is_buffering}

-- `io::Result` of a method that fails while an operation has the buffer, or as registering does.
pub data Fixing {ℓ} (A : Type ℓ) : Type ℓ where
  fixed : A → Fixing A
  in_use : Fixing A
  not_registered : IoResult (Unit {0}) → Fixing A

-- `Fixed::register` between the worlds of two adapters, as the caller sees it: the bytes of the
-- buffer stay, and the source or sink, which `seen` tells apart, is not touched.
pub record Registers (B B' : StableBufferMut) {W W' : Type 0} (seen : W → List ℕ)
    (seen' : W' → List ℕ) : Type 0 where
  pub register : W → StableBufferMut.Buf B → W' × IoResult (StableBufferMut.Buf B')
  pub register-bytes :
      (w : W) (b : StableBufferMut.Buf B) (w' : W') (b' : StableBufferMut.Buf B')
      → register w b ≡ (w', ok b')
      → (StableBufferMut.bytes B' b' ≡ StableBufferMut.bytes B b) × (seen' w' ≡ seen w)

module _ (B B' : StableBufferMut) where
  module _ (S : Source B) (S' : Source B') (R : Registers B B' S.rest S'.rest) where
    -- `FixedBufReader::from_raw`, with the result of `register`.
    reader_from_raw : ℕ → ℕ → S'.World × IoResult B'.Buf → Fixing (BufReaderInner B' S')
    reader_from_raw pos end (w, ok b) = fixed (Reader.new B' S' b w pos end)
    reader_from_raw pos end (w, no_slots) = not_registered no_slots
    reader_from_raw pos end (w, io_error) = not_registered io_error

    fix_parts : S.World × Option (B.Buf × ℕ × ℕ) → Fixing (BufReaderInner B' S')
    unfolding reader_from_raw
    fix_parts (w, none) = in_use
    fix_parts (w, some (b, pos, end)) = reader_from_raw pos end (R.register w b)

    -- `BufReader::fix`.
    unfoldable pub fix_reader : BufReaderInner B S → Fixing (BufReaderInner B' S')
    unfolding fix_parts
    fix_reader r = fix_parts (Reader.into_raw_parts B S r)

    -- What becomes of a reader: it goes on with the same bytes ahead, or a read has its buffer, or
    -- its buffer cannot be registered.
    unfoldable pub Continues : BufReaderInner B S → Fixing (BufReaderInner B' S') → Type 0
    Continues r (fixed r') = IsWhole B' S' r'.state × (ahead B' S' r' ≡ ahead B S r)
    Continues r in_use = (f : S.Future) × (r.state ≡ is_pending f)
    Continues r (not_registered e) =
        (v : Reading B) × (r.state ≡ is_filled v)
        × ((b : B'.Buf) → (R.register r.source v.inner).1 ≢ ok b)

    from_raw-Continues :
        (w : S.World) (v : Reading B) (p : S'.World × IoResult B'.Buf)
        → R.register w v.inner ≡ p
        → Fits B v
        → Continues
            (record { source = w; state = is_filled v })
            (reader_from_raw v.range.start v.range.end p)
    unfolding Continues reader_from_raw Reader.new IsWhole ahead held Fits unread
    from_raw-Continues w v (w', ok b) e h =
        let (same, rest) = R.register-bytes w v.inner w' b e in (rw same h, rw (same, rest) refl)
    from_raw-Continues w v (w', no_slots) e h = (v, refl, λ b q. cc)
    from_raw-Continues w v (w', io_error) e h = (v, refl, λ b q. cc)

    -- Where registering a buffer leaves its bytes and the source alone, fixing a whole reader gives
    -- a reader that is whole and has the same bytes ahead, those in the buffer included, unless a
    -- read has the buffer or it cannot be registered.
    pub fix_reader-Continues :
        (r : BufReaderInner B S) → IsWhole B S r.state → Continues r (fix_reader r)
    unfolding fix_reader fix_parts Reader.into_raw_parts IsWhole Continues
    fix_reader-Continues r whole = by_state r.source r.state whole
      where
        by_state :
            (w : S.World) (s : Reader.BufReaderState B S)
            → IsWhole B S s
            → Continues
                (record { source = w; state = s })
                (fix_reader (record { source = w; state = s }))
        by_state w is_taken h = absurd h
        by_state w (is_pending f) h = (f, refl)
        by_state w (is_filled v) h = from_raw-Continues w v (R.register w v.inner) refl h

  module _ (S : Sink B) (S' : Sink B') (R : Registers B B' S.sunk S'.sunk) where
    -- `Fixed::register(buf)?` and `FixedBufWriter::from_raw`.
    writer_from_raw : ℕ → S'.World × IoResult B'.Buf → Fixing (BufWriterInner B' S')
    writer_from_raw len (w, ok b) = fixed (Writer.new B' S' b w len)
    writer_from_raw len (w, no_slots) = not_registered no_slots
    writer_from_raw len (w, io_error) = not_registered io_error

    fix_writer_parts : S.World × Option (B.Buf × ℕ) → Fixing (BufWriterInner B' S')
    unfolding writer_from_raw
    fix_writer_parts (w, none) = in_use
    fix_writer_parts (w, some (b, len)) = writer_from_raw len (R.register w b)

    -- `BufWriter::fix`.
    unfoldable pub fix_writer : BufWriterInner B S → Fixing (BufWriterInner B' S')
    unfolding fix_writer_parts
    fix_writer r = fix_writer_parts (Writer.into_raw_parts B S r)

    -- A writer that buffers is fixed, where its buffer can be registered, to one that buffers the
    -- same bytes in front of the same sink.
    pub fix_writer-same :
        (w : S.World) (v : Writing B) (w' : S'.World) (b : B'.Buf)
        → R.register w v.inner ≡ (w', ok b)
        → (fix_writer (record { sink = w; state = is_buffering v })
            ≡ fixed
                (record { sink = w'; state = is_buffering (record { inner = b; pos = v.pos }) }))
          × (filled B' (record { inner = b; pos = v.pos }) ≡ filled B v)
          × (S'.sunk w' ≡ S.sunk w)
    unfolding fix_writer Writer.into_raw_parts writer_from_raw Writer.new filled
    fix_writer-same w v w' b e =
        let (same, sunk) = R.register-bytes w v.inner w' b e in (rw e refl, rw same refl, sunk)
