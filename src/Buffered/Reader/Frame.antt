-- ===== src/Buffered/Reader/Frame.antt =====
-- What a reader leaves of its source as it was.
use inel.Base.{ℕ, true, false, if◌then◌else◌, Bool, done, panic, ◌>>=◌}
use inel.Buffer.Cursor.{StableBufferMut, Reading, is_empty}
use inel.Op.Results.{Result, ok, err}
use inel.Submission.{Poll, pending, ready}
use inel.Buffered.Reader.{
  Source, BufReaderInner, BufReaderState, is_taken, is_pending, is_filled, Filling, filling,
  view_of, buffer, poll_fill_buf, advance, reading, poll_read,
}

module _ (B : StableBufferMut) (S : Source B) (P : Source.World S → Type 0) where
  -- A predicate that the calls of the adapter keep.
  pub record Kept : Type 0 where
    pub create : (w : S.World) (b : B.Buf) → P w → P ((S.create_future w b).0)
    pub poll : (w : S.World) (f : S.Future) → P w → P ((S.poll w f).0)
    pub post : (w : S.World) (v : Reading B) → P w → P ((S.post_consume w v).0)

  unfoldable pub Holds : Filling B S → Type 0
  Holds (panic e) = Unit {0}
  Holds (done (r, g)) = P r.source

  filling-Holds : (x : S.World × S.Future × Poll (B.Buf × Result ℕ)) → P x.0 → Holds (filling B S x)
  unfolding filling view_of buffer Holds
  filling-Holds (w, f, pending) h = h
  filling-Holds (w, f, ready (b, ok n)) h = h
  filling-Holds (w, f, ready (b, err e)) h = h

  either-Holds : (b : Bool) (x y : Filling B S) → Holds x → Holds y → Holds (if b then x else y)
  either-Holds true x y h h' = h
  either-Holds false x y h h' = h'

  module _ (k : Kept) where
    fill-Holds :
        (w : S.World) (s : BufReaderState B S)
        → P w
        → Holds (poll_fill_buf B S (record { source = w; state = s }))
    unfolding poll_fill_buf Holds buffer
    fill-Holds w is_taken h = tt
    fill-Holds w (is_pending f) h = filling-Holds _ (k.poll w f h)
    fill-Holds w (is_filled v) h =
        either-Holds (is_empty B v) _ _ (filling-Holds _ (k.poll _ _ (k.create w v.inner h))) h

    advance-Holds :
        (w : S.World) (s : BufReaderState B S) (n : ℕ)
        → P w
        → P ((advance B S (record { source = w; state = s }) n).source)
    unfolding advance
    advance-Holds w is_taken n h = h
    advance-Holds w (is_pending f) n h = h
    advance-Holds w (is_filled v) n h = k.post w _ h

    reading-Holds : (room : ℕ) (p : Filling B S) → Holds p → Holds (p >>= reading B S room)
    unfolding reading Holds
    reading-Holds room (panic e) h = tt
    reading-Holds room (done (r, pending)) h = h
    reading-Holds room (done (r, ready (err e))) h = h
    reading-Holds room (done (r, ready (ok slice))) h = advance-Holds r.source r.state _ h

    -- A read keeps what the calls of the adapter keep.
    pub poll_read-Holds :
        (r : BufReaderInner B S) (room : ℕ) → P r.source → Holds (poll_read B S r room)
    unfolding poll_read
    poll_read-Holds r room h =
        reading-Holds room (poll_fill_buf B S r) (fill-Holds r.source r.state h)
