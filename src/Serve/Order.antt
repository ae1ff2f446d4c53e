-- ===== src/Serve/Order.antt =====
-- Which connections a server handles.
use inel.Base.{◌≡◌, refl, ap, ◌∙◌, append-nil, none, some, List, [], ◌∷◌, ◌++◌, map}
use inel.Op.Results.{Result, ok, err}
use inel.Serve.{
  Parts, Serve, Served, Handler, Buffering, simple, fixed, group, no_tls, rustls, unfinished, Fate,
  handled, dropped, stuck, with_incoming, connection, with_raw_stream, with_stream, then, shaken,
  fixed_stream,
}

-- The connections among what a listener gives.
abbrev pub accepted : {A : Type 0} → List (Result A) → List A
accepted [] = []
accepted (ok a ∷ rs) = a ∷ accepted rs
accepted (err e ∷ rs) = accepted rs

module _ (P : Parts) where
  open P use {World, Socket, Group, Stream, Acceptor}

  -- The stream of a connection whose buffers take no slot.
  pub data Buffers (socket : Socket) : Buffering Group → Stream → Type 0 where
    own : Buffers socket simple (P.buf_stream socket)
    shared : (g : Group) → Buffers socket (group g) (P.share_buf_stream socket g)

  -- A list of connections with the streams that they are handled on.
  pub data Streams (b : Buffering Group) : List Socket → List Stream → Type 0 where
    nil : Streams b [] []
    cons :
        {c : Socket} {s : Stream} {cs : List Socket} {ss : List Stream}
        → Buffers c b s
        → Streams b cs ss
        → Streams b (c ∷ cs) (s ∷ ss)

  connected :
      (s : Serve P) (c : Socket) (w : World) (b : Buffering Group) (x : Stream)
      → s.security ≡ no_tls
      → s.buffering ≡ b
      → Buffers c b x
      → connection P s c w ≡ (w, handled (record { proto = s.http; stream = x }))
  unfolding connection with_raw_stream with_stream
  connected s c w simple x plain e own = rw (e, plain) refl
  connected s c w fixed x plain e b = elim b [ ]
  connected s c w (group _) x plain e (shared g) = rw (e, plain) refl

  -- Without TLS, and with the buffers of the stream itself or shared ones, every connection that is
  -- accepted is handled on its stream, in the order of their arrival, whatever errors come between
  -- them; the server comes to the end of them.
  pub plain-Serves :
      (s : Serve P) (incoming : List (Result Socket)) (w : World) (streams : List Stream)
      → s.security ≡ no_tls
      → Streams s.buffering (accepted incoming) streams
      → with_incoming P s incoming w ≡ record {
        world = w;
        handlers = map (λ x. record { proto = s.http; stream = x }) streams;
        stuck_at = none;
      }
  unfolding with_incoming then
  plain-Serves s [] w [] plain nil = refl
  plain-Serves s [] w (x ∷ streams) plain b = elim b [ ]
  plain-Serves s (ok c ∷ incoming) w [] plain b = elim b [ ]
  plain-Serves s (err e ∷ incoming) w streams plain b = plain-Serves s incoming w streams plain b
  plain-Serves s (ok c ∷ incoming) w (x ∷ streams) plain (cons b bs) =
      rw (connected s c w s.buffering x plain refl b, plain-Serves s incoming w streams plain bs)
        refl

  abbrev behind : List (Handler P) → Served P → Served P
  behind hs r = record r { handlers = hs ++ r.handlers }

  then-behind :
      (c : Socket) (f : World × Fate P) (next after : World → Served P) (z : World → Served P)
      → (then P c f next).stuck_at ≡ none
      → ((w : World)
          → (next w).stuck_at ≡ none
          → z w ≡ behind (next w).handlers (after (next w).world))
      → then P c f z ≡ behind (then P c f next).handlers (after (then P c f next).world)
  unfolding then
  then-behind c (w, handled h) next after z e k = rw (k w e) refl
  then-behind c (w, dropped) next after z e k = k w e
  then-behind c (w, stuck) next after z e k = cc

  -- A server that comes to the end of some connections goes on with the others from there.
  with_incoming-append :
      (s : Serve P) (before after : List (Result Socket)) (w : World)
      → (with_incoming P s before w).stuck_at ≡ none
      → with_incoming P s (before ++ after) w
        ≡ behind
            (with_incoming P s before w).handlers
            (with_incoming P s after (with_incoming P s before w).world)
  unfolding with_incoming
  with_incoming-append s [] after w e = refl
  with_incoming-append s (err x ∷ before) after w e = with_incoming-append s before after w e
  with_incoming-append s (ok c ∷ before) after w e =
      then-behind c (connection P s c w) (with_incoming P s before) (with_incoming P s after)
        (with_incoming P s (before ++ after)) e (λ w' e'. with_incoming-append s before after w' e')

  -- The stream that is made of a connection, and what the making leaves: with fixed buffers, it
  -- takes the slots.
  pub data Opens (socket : Socket) (w : World) : Buffering Group → World → Stream → Type 0 where
    on_own : Opens socket w simple w (P.buf_stream socket)
    on_shared : (g : Group) → Opens socket w (group g) w (P.share_buf_stream socket g)
    on_fixed :
        (w' : World) (stream : Stream)
        → P.fixed_buf_stream socket w ≡ (w', some stream)
        → Opens socket w fixed w' stream

  -- A connection whose handshake never ends.
  unanswered :
      (s : Serve P) (socket : Socket) (acceptor : P.Acceptor) (b : Buffering Group) (w v : World)
      (stream : Stream) (w' : World)
      → s.security ≡ rustls acceptor
      → s.buffering ≡ b
      → Opens socket w b v stream
      → P.accept acceptor stream v ≡ (w', unfinished)
      → connection P s socket w ≡ (w', stuck)
  unfolding connection with_raw_stream shaken fixed_stream
  unanswered s socket acceptor simple w v stream w' tls e on_own waits = rw (e, tls, waits) refl
  unanswered s socket acceptor (group _) w v stream w' tls e (on_shared g) waits =
      rw (e, tls, waits) refl
  unanswered s socket acceptor fixed w v stream w' tls e (on_fixed v' x taken) waits =
      rw (e, taken, tls, waits) refl

  stuck_first :
      (s : Serve P) (after : List (Result Socket)) (socket : Socket) (w w' : World)
      → connection P s socket w ≡ (w', stuck)
      → with_incoming P s (ok socket ∷ after) w
        ≡ record { world = w'; handlers = []; stuck_at = some socket }
  unfolding with_incoming then
  stuck_first s after socket w w' waits = rw waits refl

  -- With TLS, whatever the buffers of its streams, a server that has come to a connection whose
  -- handshake never ends stops there: it handles none of those that come after it, however many, and
  -- the ones before it as it would have.
  pub stuck-Stops :
      (s : Serve P) (before after : List (Result Socket)) (socket : Socket) (acceptor : P.Acceptor)
      (stream : Stream) (w v w' : World)
      → s.security ≡ rustls acceptor
      → (with_incoming P s before w).stuck_at ≡ none
      → Opens socket (with_incoming P s before w).world s.buffering v stream
      → P.accept acceptor stream v ≡ (w', unfinished)
      → with_incoming P s (before ++ ok socket ∷ after) w ≡ record {
        world = w';
        handlers = (with_incoming P s before w).handlers;
        stuck_at = some socket;
      }
  stuck-Stops s before after socket acceptor stream w v w' tls e opens waits =
      let first = with_incoming P s before w in
      let blocked =
        unanswered s socket acceptor s.buffering first.world v stream w' tls refl opens waits in
      with_incoming-append s before (ok socket ∷ after) w e
      ∙ ap (behind first.handlers) (stuck_first s after socket first.world w' blocked)
      ∙ rw (append-nil first.handlers) refl
