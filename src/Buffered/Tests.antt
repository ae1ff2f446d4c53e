-- ===== src/Buffered/Tests.antt =====
-- Scripted sources and sinks, and runs of a reader and of a writer on them.
use inel.Base.Slices.{take-shorter}
use inel.Base.{
  Option, none, some, ℕ, List, [], ◌∷◌, ◌++◌, length, take, ◌≤◌, ◌≡◌, ◌≢◌, refl, sym, ap, subst,
  inr, Outcome, done, panic, stack_overflow, arith,
}
use inel.Base.Int.{ℤ, pos}
use inel.Buffer.Cursor.{StableBufferMut, Reading, Writing, filled}
use inel.Op.Results.{Result, ok, err}
use inel.Submission.{Poll, pending, ready}
use inel.Buffered.Reader
use inel.Buffered.Reader.{Source, BufReaderInner, poll_read, read, poll_reads}
use inel.Buffered.Reader.Fill.{ahead, Because}
use inel.Buffered.Reader.Follows.{poll_read-follows}
use inel.Buffered.Adapters.{bytes_of, optional}
use inel.Buffered.Grouped.{Feed, group_source, new-follows}
use inel.Buffered.Writer
use inel.Buffered.Writer.{Sink, BufWriterInner, is_buffering, poll_write, poll_flush}
use inel.Buffered.Writer.Flush.{Flushes, accepted, poll_flush-Flushes}
use inel.Buffered.Writer.Follows.{Accepts, poll_write-Accepts}
use inel.Buffered.Writer.Ends.{poll_write-ends}

data Event : Type 0 where
  stalls : Event
  refuses : ℤ → Event
  gives : List ℕ → Event

-- Buffers that are lists, which are never written in place.
abbrev lists : StableBufferMut
lists = record { Buf = List ℕ; bytes = λ b. b; store = λ b m. m; bytes-store = λ b m e. refl }

unfoldable given : List Event → List ℕ
given [] = []
given (stalls ∷ s) = given s
given (refuses e ∷ s) = given s
given (gives c ∷ s) = c ++ given s

-- Like a buffer group, the source answers a read with a buffer of its own.
unfoldable next : List Event → List ℕ → List Event × List ℕ × Poll (List ℕ × Result ℕ)
next [] f = ([], f, pending)
next (stalls ∷ s) f = (s, f, pending)
next (refuses e ∷ s) f = (s, f, ready (f, err e))
next (gives c ∷ s) f = (s, f, ready (c, ok (length c)))

unfoldable Lawful : List Event → List Event × List ℕ × Poll (List ℕ × Result ℕ) → Type 0
unfolding given
Lawful w (w', f', pending) = given w' ≡ given w
Lawful w (w', f', ready (b, err e)) = given w' ≡ given w
Lawful w (w', f', ready (b, ok n)) = (n ≤ length b) × (given w ≡ take n b ++ given w')

whole : (c : List ℕ) → c ≡ take (length c) c
whole [] = refl
whole (x ∷ xs) = ap (x ∷◌) (whole xs)

next-Lawful : (w : List Event) (f : List ℕ) → Lawful w (next w f)
unfolding next Lawful given
next-Lawful [] f = refl
next-Lawful (stalls ∷ s) f = refl
next-Lawful (refuses e ∷ s) f = refl
next-Lawful (gives c ∷ s) f = (omega arith, ap (◌++ given s) (whole c))

unfoldable script : Source lists
unfolding Lawful
script = record {
  World = List Event;
  Future = List ℕ;
  create_future = λ w b. (w, b);
  poll = next;
  post_consume = λ w v. (w, v);
  rest = given;
  create-rest = λ w b. refl;
  pending-rest = λ w w' f f' e. subst (Lawful w) e (next-Lawful w f);
  err-rest = λ w w' f f' b e. subst (Lawful w) e (next-Lawful w f);
  ok-rest = λ w w' f f' b n e. subst (Lawful w) e (next-Lawful w f);
  post-rest = λ w v. refl;
  post-unread = λ w v h. (h, refl);
}

unfoldable fresh : BufReaderInner lists script
unfolding script Reader.empty Reader.new
fresh =
    Reader.empty lists script (0 ∷ 0 ∷ [])
      (stalls ∷ gives (1 ∷ 2 ∷ 3 ∷ []) ∷ refuses (pos 5) ∷ gives (4 ∷ 5 ∷ []) ∷ [])

answer_of : {A : Type 0} → Outcome (A × List ℕ) → List ℕ
answer_of (done r) = r.1
answer_of (panic e) = []

five_reads :
    answer_of (poll_reads lists script fresh (2 ∷ 2 ∷ 2 ∷ 1 ∷ 2 ∷ [])) ≡ 1 ∷ 2 ∷ 3 ∷ 4 ∷ 5 ∷ []
unfolding answer_of fresh poll_reads inel.Buffer.Cursor.is_empty next inel.Buffer.Cursor.consume
    inel.Buffer.Cursor.unread
five_reads = refl

poll_read-follows_example :
    (r' : BufReaderInner lists script) × (g : Poll (Result (List ℕ))) × (poll_read lists script
        fresh 2
      ≡ done (r', g))
    × Reader.Fill.IsWhole lists script r'.state
    × (ahead lists script fresh ≡ read lists script g ++ ahead lists script r')
    × (length (read lists script g) ≤ 2)
    × Because lists script 2 g
unfolding fresh Reader.empty Reader.new Reader.Fill.IsWhole Reader.Fits
poll_read-follows_example = poll_read-follows lists script fresh 2 (inr (omega arith))

data Turn : Type 0 where
  delays : Turn
  breaks : ℤ → Turn
  writes : ℕ → Turn
  writes_all : Turn

module _ (B : StableBufferMut) where
  unfoldable turn :
      List ℕ × List Turn
      → Writing B
      → (List ℕ × List Turn) × Writing B × Poll (Writing B × Result ℕ)
  unfolding filled
  turn (m, []) v = ((m, []), v, pending)
  turn (m, delays ∷ s) v = ((m, s), v, pending)
  turn (m, breaks e ∷ s) v = ((m, s), v, ready (v, err e))
  turn (m, writes n ∷ s) v = ((m ++ take n (filled B v), s), v, ready (v, ok n))
  turn (m, writes_all ∷ s) v = ((m ++ filled B v, s), v, ready (v, ok v.pos))

  unfoldable Obeys :
      List ℕ × List Turn
      → Writing B
      → (List ℕ × List Turn) × Writing B × Poll (Writing B × Result ℕ)
      → Type 0
  Obeys w f (w', f', pending) = (w'.0 ≡ w.0) × (f' ≡ f)
  Obeys w f (w', f', ready (v, err e)) = (w'.0 ≡ w.0) × (v ≡ f)
  Obeys w f (w', f', ready (v, ok n)) = (w'.0 ≡ w.0 ++ take n (filled B v)) × (v ≡ f)

  turn-Obeys : (w : List ℕ × List Turn) (v : Writing B) → Obeys w v (turn w v)
  unfolding turn Obeys filled
  turn-Obeys (m, []) v = (refl, refl)
  turn-Obeys (m, delays ∷ s) v = (refl, refl)
  turn-Obeys (m, breaks e ∷ s) v = (refl, refl)
  turn-Obeys (m, writes n ∷ s) v = (refl, refl)
  turn-Obeys (m, writes_all ∷ s) v =
      (ap (m ++◌) (sym (take-shorter v.pos v.pos (B.bytes v.inner) (omega arith))), refl)

  unfoldable turns : Sink B
  unfolding Obeys
  turns = record {
    World = List ℕ × List Turn;
    Future = Writing B;
    create_future = λ w v. (w, v);
    poll = turn;
    pre_write = λ w b. (w, b);
    post_flush = λ w b. (w, b);
    sunk = λ w. w.0;
    carried = λ f. f;
    create-sunk = λ w v. (refl, refl);
    pending-sunk = λ w w' f f' e. subst (Obeys w f) e (turn-Obeys w f);
    err-sunk = λ w w' f f' v e. subst (Obeys w f) e (turn-Obeys w f);
    ok-sunk = λ w w' f f' v n e. subst (Obeys w f) e (turn-Obeys w f);
    pre-sunk = λ w v h. (refl, h, refl);
    post-sunk = λ w b. refl;
  }

-- A buffer of at least one byte, as every capacity but zero makes it.
record Box : Type 0 where
  first : ℕ
  others : List ℕ

box_store : Box → List ℕ → Box
box_store b [] = b
box_store b (x ∷ m) = record { first = x; others = m }

box_store-bytes :
    (b : Box) (m : List ℕ)
    → length m ≡ length (b.first ∷ b.others)
    → ((box_store b m).first ∷ (box_store b m).others) ≡ m
unfolding box_store
box_store-bytes b [] e = absurd (omega (arith, e))
box_store-bytes b (x ∷ m) e = refl

unfoldable boxes : StableBufferMut
boxes = record {
  Buf = Box;
  bytes = λ b. b.first ∷ b.others;
  store = box_store;
  bytes-store = box_store-bytes;
}

unfoldable full : BufWriterInner boxes (turns boxes)
unfolding turns boxes
full = record {
  sink = ([], delays ∷ writes_all ∷ []);
  state = is_buffering (record { inner = record { first = 8; others = 9 ∷ [] }; pos = 2 });
}

poll_write-Accepts_example :
    Accepts boxes
      (turns boxes)
      (accepted boxes (turns boxes) full)
      (7 ∷ [])
      (poll_write boxes (turns boxes) 3 full (7 ∷ []))
unfolding full turns boxes Writer.Flush.IsWhole Writer.Flush.IsWithin
poll_write-Accepts_example = poll_write-Accepts boxes (turns boxes) 3 full (7 ∷ []) (omega arith)

poll_write-ends_example : poll_write boxes (turns boxes) 2 full (7 ∷ []) ≢ panic stack_overflow
unfolding turns boxes
poll_write-ends_example = poll_write-ends boxes (turns boxes) (λ w b. omega arith) 0 full (7 ∷ [])

unfoldable idle : Sink.World (turns lists)
unfolding turns
idle = ([], [])

-- A set of buffers is the script of a source; a buffer that is inserted is forgotten.
unfoldable next_buffer :
    List Event → List ℕ → List Event × List ℕ × Poll (Option (List ℕ) × Result ℕ)
next_buffer [] f = ([], f, pending)
next_buffer (stalls ∷ s) f = (s, f, pending)
next_buffer (refuses e ∷ s) f = (s, f, ready (none, err e))
next_buffer (gives c ∷ s) f = (s, f, ready (some c, ok (length c)))

unfoldable Feeds : List Event → List Event × List ℕ × Poll (Option (List ℕ) × Result ℕ) → Type 0
unfolding given
Feeds w (w', f', pending) = given w' ≡ given w
Feeds w (w', f', ready (b, err e)) = given w' ≡ given w
Feeds w (w', f', ready (b, ok n)) =
    (n ≤ length (bytes_of lists b)) × (given w ≡ take n (bytes_of lists b) ++ given w')

next_buffer-Feeds : (w : List Event) (f : List ℕ) → Feeds w (next_buffer w f)
unfolding next_buffer Feeds given
next_buffer-Feeds [] f = refl
next_buffer-Feeds (stalls ∷ s) f = refl
next_buffer-Feeds (refuses e ∷ s) f = refl
next_buffer-Feeds (gives c ∷ s) f = (omega arith, ap (◌++ given s) (whole c))

unfoldable feed : Feed lists
unfolding Feeds
feed = record {
  World = List Event;
  Future = List ℕ;
  insert = λ w b. w;
  recycle = λ w. w;
  submit = λ w. (w, []);
  poll = next_buffer;
  rest = given;
  insert-rest = λ w b. refl;
  recycle-rest = λ w. refl;
  submit-rest = λ w. refl;
  pending-rest = λ w w' f f' e. subst (Feeds w) e (next_buffer-Feeds w f);
  err-rest = λ w w' f f' b e. subst (Feeds w) e (next_buffer-Feeds w f);
  ok-rest = λ w w' f f' b n e. subst (Feeds w) e (next_buffer-Feeds w f);
}

unfoldable two_chunks : Feed.World feed
unfolding feed
two_chunks = gives (1 ∷ 2 ∷ 3 ∷ []) ∷ refuses (pos 105) ∷ gives (4 ∷ []) ∷ []

new-follows_example :
    (r' : BufReaderInner (optional lists) (group_source lists feed)) × (bytes : List ℕ)
    × (poll_reads
          (optional lists)
          (group_source lists feed)
          (Reader.empty (optional lists) (group_source lists feed) none two_chunks)
          (2 ∷ 2 ∷ 2 ∷ 2 ∷ [])
        ≡ done (r', bytes))
    × (Feed.rest feed two_chunks ≡ bytes ++ ahead (optional lists) (group_source lists feed) r')
new-follows_example = new-follows lists feed two_chunks (2 ∷ 2 ∷ 2 ∷ 2 ∷ [])
