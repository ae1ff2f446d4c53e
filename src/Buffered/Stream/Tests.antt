-- ===== src/Buffered/Stream/Tests.antt =====
-- A wire that delivers all it has at once and takes all that is written.
use inel.Base.{
  ℕ, ◌≤◌, ◌≡◌, refl, ap, sym, ◌∙◌, List, [], ◌∷◌, ◌++◌, ◌+◌, length, take, done, subst, append-nil,
  arith,
}
use inel.Base.Slices.{take-shorter}
use inel.Buffer.Cursor.{StableBufferMut, Writing, filled}
use inel.Op.Results.{Result, ok, err}
use inel.Submission.{Poll, pending, ready}
use inel.Buffered.Reader.{Source}
use inel.Buffered.Stream.{Duplex, BufStream, new}
use inel.Buffered.Stream.Hyper.{Cursor, poll_read, poll_read-Fills}
use inel.Buffered.Reader.Fill.{ahead}
use inel.Buffered.Stream.Interleaved.{Keeps, new-Whole, calls, reads, writes, flushes, calls-Keeps}

abbrev lists : StableBufferMut
lists = record { Buf = List ℕ; bytes = λ b. b; store = λ b m. m; bytes-store = λ b m e. refl }

all : (c : List ℕ) → c ≡ take (length c) c
all [] = refl
all (x ∷ xs) = ap (x ∷◌) (all xs)

-- What is to be delivered, and what has been taken.
abbrev Wire : Type 0
Wire = List ℕ × List ℕ

abbrev deliver : Wire → Unit {0} → Wire × Unit {0} × Poll (List ℕ × Result ℕ)
deliver w f = (([], w.1), f, ready (w.0, ok (length w.0)))

abbrev Delivers : Wire → Wire × Unit {0} × Poll (List ℕ × Result ℕ) → Type 0
Delivers w (w', f, pending) = w'.0 ≡ w.0
Delivers w (w', f, ready (b, err e)) = w'.0 ≡ w.0
Delivers w (w', f, ready (b, ok n)) = (n ≤ length b) × (w.0 ≡ take n b ++ w'.0)

deliver-Delivers : (w : Wire) (f : Unit {0}) → Delivers w (deliver w f)
deliver-Delivers w f = (omega arith, all w.0 ∙ sym (append-nil _))

abbrev wire : Source lists
wire = record {
  World = Wire;
  Future = Unit {0};
  create_future = λ w b. (w, tt);
  poll = deliver;
  post_consume = λ w v. (w, v);
  rest = λ w. w.0;
  create-rest = λ w b. refl;
  pending-rest = λ w w' f f' e. subst (Delivers w) e (deliver-Delivers w f);
  err-rest = λ w w' f f' b e. subst (Delivers w) e (deliver-Delivers w f);
  ok-rest = λ w w' f f' b n e. subst (Delivers w) e (deliver-Delivers w f);
  post-rest = λ w v. refl;
  post-unread = λ w v h. (h, refl);
}

abbrev accept : Wire → Writing lists → Wire × Writing lists × Poll (Writing lists × Result ℕ)
accept w v = ((w.0, w.1 ++ filled lists v), v, ready (v, ok v.pos))

abbrev Takes :
    Wire → Writing lists → Wire × Writing lists × Poll (Writing lists × Result ℕ) → Type 0
Takes w f (w', f', pending) = (w'.1 ≡ w.1) × (f' ≡ f)
Takes w f (w', f', ready (v, err e)) = (w'.1 ≡ w.1) × (v ≡ f)
Takes w f (w', f', ready (v, ok n)) = (w'.1 ≡ w.1 ++ take n (filled lists v)) × (v ≡ f)

accept-Takes : (w : Wire) (v : Writing lists) → Takes w v (accept w v)
unfolding filled
accept-Takes w v = (ap (w.1 ++◌) (sym (take-shorter v.pos v.pos v.inner (omega arith))), refl)

abbrev both : Duplex lists wire
both = record {
  Future = Writing lists;
  write_owned = λ w v. (w, v);
  poll = accept;
  sunk = λ w. w.1;
  carried = λ f. f;
  create-sunk = λ w v. (refl, refl);
  pending-sunk = λ w w' f f' e. subst (Takes w f) e (accept-Takes w f);
  err-sunk = λ w w' f f' v e. subst (Takes w f) e (accept-Takes w f);
  ok-sunk = λ w w' f f' v n e. subst (Takes w f) e (accept-Takes w f);
  write-rest = λ w v. refl;
  poll-rest = λ w f. refl;
  read-sunk = λ w b. refl;
  filled-sunk = λ w f. refl;
  consumed-sunk = λ w v. refl;
}

idle : BufStream lists lists wire both
idle = new lists lists wire both (0 ∷ 0 ∷ []) (0 ∷ 0 ∷ []) (1 ∷ 2 ∷ 3 ∷ [], [])

-- Two bytes are read, three written into a buffer of two, and the rest is read after a flush.
calls-Keeps_example : Keeps lists lists wire both 3 idle (
    calls lists lists wire both 3 idle (reads 2 ∷ writes (7 ∷ 8 ∷ 9 ∷ []) ∷ flushes ∷ reads 4 ∷ []))
unfolding idle
calls-Keeps_example =
    calls-Keeps lists lists wire both 3 idle
      (reads 2 ∷ writes (7 ∷ 8 ∷ 9 ∷ []) ∷ flushes ∷ reads 4 ∷ [])
      (new-Whole lists lists wire both 3 (0 ∷ 0 ∷ []) (0 ∷ 0 ∷ []) (1 ∷ 2 ∷ 3 ∷ [], []))

-- Three bytes into a cursor that holds one already and has room for two.
poll_read-Fills_example :
    (s : BufStream lists lists wire both) × (c : Cursor) × (answer : Poll (Result (Unit {0})))
    × (bytes : List ℕ) × (poll_read lists lists wire both idle
          (record { filled = 9 ∷ []; room = 2 })
        ≡ done (s, c, answer))
    × (ahead lists wire idle.sink ≡ bytes ++ ahead lists wire s.sink)
    × (c.filled ≡ (9 ∷ []) ++ bytes)
    × (length c.filled + c.room ≡ 3)
unfolding idle
poll_read-Fills_example =
    poll_read-Fills lists lists wire both idle (record { filled = 9 ∷ []; room = 2 })
      (new-Whole lists lists wire both 3 (0 ∷ 0 ∷ []) (0 ∷ 0 ∷ []) (1 ∷ 2 ∷ 3 ∷ [], [])).reader
