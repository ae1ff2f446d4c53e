-- ===== src/Buffered/Stream/Hyper.antt =====
-- `HyperStream` of crates/inel/src/compat/hyper.rs over a `BufStream`.
use inel.Base.{
  ℕ, ◌+◌, ◌-◌, ◌≤◌, ◌≡◌, refl, List, ◌++◌, length, length-append, append-nil, sym, Outcome, done,
  ◌>>=◌, arith,
}
use inel.Buffer.Cursor.{StableBufferMut}
use inel.Op.Results.{Result, ok, err}
use inel.Submission.{Poll, pending, ready}
use inel.Buffered.Reader.{Source, read}
use inel.Buffered.Reader.Fill
use inel.Buffered.Reader.Fill.{ahead}
use inel.Buffered.Reader.Follows.{poll_read-follows}
use inel.Buffered.Stream.{Duplex, BufStream}
use inel.Buffered.Stream

-- `hyper::rt::ReadBufCursor`: what has been filled, and the room that is left, which `advance` does
-- not check.
pub record Cursor : Type 0 where
  pub filled : List ℕ
  pub room : ℕ

unfoldable pub advance : Cursor → List ℕ → Cursor
advance c bytes = record { filled = c.filled ++ bytes; room = c.room - length bytes }

-- What `poll_read` makes of the inner one.
unfoldable pub advanced : Cursor → Poll (Result (List ℕ)) → Cursor × Poll (Result (Unit {0}))
unfolding advance
advanced c pending = (c, pending)
advanced c (ready (err e)) = (c, ready (err e))
advanced c (ready (ok bytes)) = (advance c bytes, ready (ok tt))

module _ (B B' : StableBufferMut) (S : Source B) (D : Duplex B' S) where
  -- `hyper::rt::Read::poll_read`.
  unfoldable pub poll_read :
      BufStream B B' S D → Cursor → Outcome (BufStream B B' S D × Cursor × Poll (Result (Unit {0})))
  unfolding advanced
  poll_read s c = do
    (s', g) ← Stream.poll_read B B' S D s c.room
    let (c', answer) = advanced c g
    done (s', c', answer)

  advanced-read :
      (c : Cursor) (g : Poll (Result (List ℕ)))
      → length (read B S g) ≤ c.room
      → ((advanced c g).0.filled ≡ c.filled ++ read B S g)
        × (length (advanced c g).0.filled + (advanced c g).0.room ≡ length c.filled + c.room)
  unfolding advanced advance read
  advanced-read c pending few = (sym (append-nil c.filled), refl)
  advanced-read c (ready (err e)) few = (sym (append-nil c.filled), refl)
  advanced-read c (ready (ok bytes)) few = (refl, omega (arith, few, length-append c.filled bytes))

  -- A read of a stream whose reader is whole returns, and does not panic. It fills the cursor with the next bytes of
  -- the source, and never more than it has room for: what is filled and the room add up to the same.
  pub poll_read-Fills :
      (s : BufStream B B' S D) (c : Cursor)
      → Fill.IsWhole B S s.sink.state
      → (s' : BufStream B B' S D) × (c' : Cursor) × (answer : Poll (Result (Unit {0})))
        × (bytes : List ℕ) × (poll_read s c ≡ done (s', c', answer))
        × (ahead B S s.sink ≡ bytes ++ ahead B S s'.sink)
        × (c'.filled ≡ c.filled ++ bytes)
        × (length c'.filled + c'.room ≡ length c.filled + c.room)
  unfolding poll_read Stream.poll_read
  poll_read-Fills s c whole =
      let (r', g, e, _, follows, few, _) = poll_read-follows B S s.sink c.room whole in
      let (fills, same) = advanced-read c g few in
      (
        record s { sink = r' },
        (advanced c g).0,
        (advanced c g).1,
        read B S g,
        rw e refl,
        follows,
        fills,
        same,
      )
