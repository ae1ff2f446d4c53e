-- ===== src/Buffered/Grouped.antt =====
-- `GroupBufReader` of crates/inel/src/io/buffered/reader/group.rs: the generic reader over the adapter
-- of a buffer group.
use inel.Base.{
  ℕ, ◌≤◌, ◌≡◌, refl, ◌∙◌, Bool-cases, inl, inr, Option, none, some, List, ◌++◌, length, take, done,
  arith,
}
use inel.Buffer.Cursor.{StableBufferMut, Reading, is_empty, unread}
use inel.Op.Results.{Result, ok, err}
use inel.Submission.{Poll, pending, ready}
use inel.Buffered.Reader.{Source, BufReaderInner, empty, new, poll_reads, Fits}
use inel.Buffered.Reader.Fill.{ahead, held, IsWhole}
use inel.Buffered.Reader.Follows.{poll_reads-follows}
use inel.Buffered.Adapters.{bytes_of, optional, give_back, post_consume, post_consume-Fits}

-- The set of buffers and the source of a reader, as far as the adapter calls them, with the laws of
-- a byte stream: only a read that completes takes bytes off it.
pub record Feed (B : StableBufferMut) : Type 1 where
  pub World : Type 0
  pub Future : Type 0
  pub insert : World → B.Buf → World
  pub recycle : World → World
  pub submit : World → World × Future
  pub poll : World → Future → World × Future × Poll (Option B.Buf × Result ℕ)
  pub rest : World → List ℕ
  pub insert-rest : (w : World) (b : B.Buf) → rest (insert w b) ≡ rest w
  pub recycle-rest : (w : World) → rest (recycle w) ≡ rest w
  pub submit-rest : (w : World) → rest ((submit w).0) ≡ rest w
  pub pending-rest :
      (w w' : World) (f f' : Future) → poll w f ≡ (w', f', pending) → rest w' ≡ rest w
  pub err-rest :
      (w w' : World) (f f' : Future) (b : Option B.Buf) {e : _}
      → poll w f ≡ (w', f', ready (b, err e))
      → rest w' ≡ rest w
  pub ok-rest :
      (w w' : World) (f f' : Future) (b : Option B.Buf) (n : ℕ)
      → poll w f ≡ (w', f', ready (b, ok n))
      → (n ≤ length (bytes_of B b)) × (rest w ≡ take n (bytes_of B b) ++ rest w')

module _ (B : StableBufferMut) (F : Feed B) where
  open F use {World, Future, insert, recycle, submit, rest}

  -- `GroupAdapter::create_future`.
  unfoldable pub create_future : World → Option B.Buf → World × Future
  create_future w none = submit (recycle w)
  create_future w (some b) = submit (recycle (insert w b))

  pub create_future-rest : (w : World) (b : Option B.Buf) → rest ((create_future w b).0) ≡ rest w
  unfolding create_future
  create_future-rest w none = F.submit-rest (recycle w) ∙ F.recycle-rest w
  create_future-rest w (some b) =
      F.submit-rest (recycle (insert w b)) ∙ F.recycle-rest (insert w b) ∙ F.insert-rest w b

  give_back-rest :
      (w : World) (v : Reading (optional B)) (o : Option B.Buf)
      → rest ((give_back B insert w v o).0) ≡ rest w
  unfolding give_back
  give_back-rest w v none = refl
  give_back-rest w v (some b) = F.insert-rest w b

  pub post_consume-rest :
      (w : World) (v : Reading (optional B)) → rest ((post_consume B insert w v).0) ≡ rest w
  unfolding post_consume
  post_consume-rest w v = elim (Bool-cases (is_empty (optional B) v)) [
    | inl y ↦ rw y (give_back-rest w v v.inner)
    | inr y ↦ rw y refl
  ]

  -- The adapter keeps the laws of the generic reader, whose theorems hold for it.
  abbrev pub group_source : Source (optional B)
  group_source = record {
    World = World;
    Future = Future;
    create_future = create_future;
    poll = F.poll;
    post_consume = post_consume B insert;
    rest = rest;
    create-rest = create_future-rest;
    pending-rest = F.pending-rest;
    err-rest = F.err-rest;
    ok-rest = F.ok-rest;
    post-rest = post_consume-rest;
    post-unread = post_consume-Fits B insert;
  }

  -- Over any set of buffers and source that obey the laws of a byte stream, a new reader of a
  -- buffer group, which has no buffer yet, gives in polls with whatever room the next bytes of the
  -- source, each once and in order, whatever the source answers, and never panics.
  pub new-follows :
      (w : World) (rooms : List ℕ)
      → (r' : BufReaderInner (optional B) group_source) × (bytes : List ℕ) × (poll_reads
            (optional B)
            group_source
            (empty (optional B) group_source none w)
            rooms
          ≡ done (r', bytes))
        × (rest w ≡ bytes ++ ahead (optional B) group_source r')
  unfolding empty new ahead held IsWhole Fits unread
  new-follows w rooms =
      let (r', bytes, q, whole, follows) =
        poll_reads-follows (optional B) group_source (empty (optional B) group_source none w) rooms
          (inr (omega arith)) in
      (r', bytes, q, follows)
