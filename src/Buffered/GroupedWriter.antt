-- ===== src/Buffered/GroupedWriter.antt =====
-- `GroupBufWriter` of crates/inel/src/io/buffered/writer/group.rs: the generic writer over the adapter
-- of a set of write buffers.
use inel.Base.{
  ℕ, ◌≤◌, ◌≡◌, refl, subst, ==_refl, Option, none, some, List, ◌++◌, length, take, done, append-nil,
  arith,
}
use inel.Buffer.Cursor.{StableBufferMut, Writing, filled, set_pos}
use inel.Op.Results.{Result, ok, err}
use inel.Submission.{Poll, pending, ready}
use inel.Buffered.Writer.{Sink, BufWriterInner, is_buffering, empty, new, poll_write, flushed}
use inel.Buffered.Writer.Flush.{accepted, held, IsWhole, IsWithin}
use inel.Buffered.Writer.Follows.{Accepts, poll_write-Accepts}
use inel.Buffered.Adapters.{bytes_of, optional, pre_write, pre_write-filled, post_flush}

-- The set of buffers and the sink of a writer, as far as the adapter calls them, with the laws of a
-- byte stream: only a write that completes puts bytes in.
pub record Drain (B : StableBufferMut) : Type 1 where
  pub World : Type 0
  pub Future : Type 0
  pub get : World → B.Buf × World
  pub insert : World → B.Buf → World
  pub write_owned : World → Writing (optional B) → World × Future
  pub poll : World → Future → World × Future × Poll (Writing (optional B) × Result ℕ)
  pub sunk : World → List ℕ
  pub carried : Future → Writing (optional B)
  pub get-sunk : (w : World) → sunk ((get w).1) ≡ sunk w
  pub insert-sunk : (w : World) (b : B.Buf) → sunk (insert w b) ≡ sunk w
  pub write-sunk :
      (w : World) (v : Writing (optional B))
      → (sunk ((write_owned w v).0) ≡ sunk w) × (carried ((write_owned w v).1) ≡ v)
  pub pending-sunk :
      (w w' : World) (f f' : Future)
      → poll w f ≡ (w', f', pending)
      → (sunk w' ≡ sunk w) × (carried f' ≡ carried f)
  pub err-sunk :
      (w w' : World) (f f' : Future) (v : Writing (optional B)) {e : _}
      → poll w f ≡ (w', f', ready (v, err e))
      → (sunk w' ≡ sunk w) × (v ≡ carried f)
  pub ok-sunk :
      (w w' : World) (f f' : Future) (v : Writing (optional B)) (n : ℕ)
      → poll w f ≡ (w', f', ready (v, ok n))
      → (sunk w' ≡ sunk w ++ take n (filled (optional B) v)) × (v ≡ carried f)

module _ (B : StableBufferMut) (D : Drain B) where
  open D use {World, sunk}

  pre_write-sunk : (w : World) (b : Option B.Buf) → sunk ((pre_write B D.get w b).0) ≡ sunk w
  unfolding pre_write
  pre_write-sunk w none = D.get-sunk w
  pre_write-sunk w (some b) = refl

  pub post_flush-sunk :
      (w : World) (b : Option B.Buf) → sunk ((post_flush B D.insert w b).0) ≡ sunk w
  unfolding post_flush
  post_flush-sunk w none = refl
  post_flush-sunk w (some b) = D.insert-sunk w b

  pub pre_write-law :
      (w : World) (v : Writing (optional B))
      → v.pos ≤ length (bytes_of B v.inner)
      → (sunk ((pre_write B D.get w v.inner).0) ≡ sunk w)
        × (v.pos ≤ length (bytes_of B ((pre_write B D.get w v.inner).1)))
        × (filled (optional B) (record v { inner = (pre_write B D.get w v.inner).1 })
            ≡ filled (optional B) v)
  unfolding filled
  pre_write-law w v h =
      let (within, same) = pre_write-filled B D.get w v.pos v.inner h in
      (pre_write-sunk w v.inner, within, same)

  -- The adapter keeps the laws of the generic writer, whose theorems hold for it.
  abbrev pub group_sink : Sink (optional B)
  group_sink = record {
    World = World;
    Future = D.Future;
    create_future = D.write_owned;
    poll = D.poll;
    pre_write = pre_write B D.get;
    post_flush = post_flush B D.insert;
    sunk = sunk;
    carried = D.carried;
    create-sunk = D.write-sunk;
    pending-sunk = D.pending-sunk;
    err-sunk = D.err-sunk;
    ok-sunk = D.ok-sunk;
    pre-sunk = pre_write-law;
    post-sunk = post_flush-sunk;
  }

  -- `GroupBufWriter::new`.
  unfoldable pub new_writer : World → BufWriterInner (optional B) group_sink
  unfolding empty
  new_writer w = empty (optional B) group_sink none w

  -- The first write to a new writer over a set of buffers, which has no buffer yet, accepts bytes of
  -- its input behind those that the sink has, and nothing else, as the generic writer does.
  pub new_writer-Accepts :
      (depth : ℕ) (w : World) (input : List ℕ)
      → Accepts
          (optional B)
          group_sink
          (sunk w)
          input
          (poll_write (optional B) group_sink depth (new_writer w) input)
  unfolding new_writer empty new accepted held IsWhole IsWithin filled
  new_writer-Accepts depth w input =
      subst
        (λ t.
          Accepts (optional B) group_sink t input
            (poll_write (optional B) group_sink depth (new_writer w) input))
        (append-nil (sunk w))
        (poll_write-Accepts (optional B) group_sink depth (new_writer w) input (omega arith))

  -- A flush whose write has taken all that the buffer held gives the buffer back to the set, and
  -- leaves the writer without one.
  pub flushed-inserts :
      (w : World) (b : B.Buf) (n : ℕ)
      → flushed (optional B) group_sink w (record { inner = some b; pos = n }) n
        ≡ done (
          record { sink = D.insert w b; state = is_buffering (record { inner = none; pos = 0 }) },
          ready (ok tt),
        )
  unfolding flushed post_flush set_pos
  flushed-inserts w b n = rw (==_refl n) refl
