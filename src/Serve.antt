-- ===== src/Serve.antt =====
-- `Serve` of crates/inel/src/compat/axum.rs, from the stream of connections that a listener accepts
-- to the handlers that are spawned.
pub mod Order
mod Tests
use inel.Base.{ℕ, Option, none, some, List, [], ◌∷◌}
use inel.Op.Results.{Result, ok, err}

-- The streams of the other parts and of the crate `futures_rustls`. `bind` and `bind_direct` are those
-- of `TcpListener` at the address that is served, with the connections that arrive then. `accept` is a handshake that is
-- awaited; `unfinished` is one that never ends.
pub data Handshake (A : Type 0) : Type 0 where
  unfinished failed : Handshake A
  finished : A → Handshake A

pub record Parts : Type 1 where
  pub World : Type 0
  pub Socket : Type 0
  pub Group : Type 0
  pub Stream : Type 0
  pub Acceptor : Type 0
  pub buf_stream : Socket → Stream
  pub fixed_buf_stream : Socket → World → World × Option Stream
  pub share_buf_stream : Socket → Group → Stream
  pub bind : World → World × Result (List (Result Socket))
  pub bind_direct : World → World × Result (List (Result Socket))
  pub accept : Acceptor → Stream → World → World × Handshake Stream

pub data Descriptors : Type 0 where
  raw direct : Descriptors

pub data Buffering (G : Type 0) : Type 0 where
  simple fixed : Buffering G
  group : G → Buffering G

pub data Tls (A : Type 0) : Type 0 where
  no_tls : Tls A
  rustls : A → Tls A

pub data HttpProto : Type 0 where
  http1 http2 : HttpProto

module _ (P : Parts) where
  open P use {World, Socket, Group, Stream, Acceptor}

  pub record Serve : Type 0 where
    pub descriptors : Descriptors
    pub buffering : Buffering Group
    pub security : Tls Acceptor
    pub http : HttpProto

  unfoldable pub builder : Serve
  builder = record { descriptors = raw; buffering = simple; security = no_tls; http = http1 }

  unfoldable pub with_direct_descriptors : Serve → Serve
  with_direct_descriptors s = record s { descriptors = direct }

  unfoldable pub with_fixed_buffers : Serve → Serve
  with_fixed_buffers s = record s { buffering = fixed }

  unfoldable pub with_shared_buffers : Serve → Group → Serve
  with_shared_buffers s g = record s { buffering = group g }

  unfoldable pub with_tls : Serve → Acceptor → Serve
  with_tls s a = record s { security = rustls a }

  unfoldable pub with_http2 : Serve → Serve
  with_http2 s = record s { http = http2 }

  -- A task that serves a connection: `handle_http1` or `handle_http2` on its stream.
  pub record Handler : Type 0 where
    pub proto : HttpProto
    pub stream : Stream

  -- What becomes of a connection: it is handled, or dropped; or its server waits for it for ever.
  pub data Fate : Type 0 where
    handled : Handler → Fate
    dropped : Fate
    stuck : Fate

  unfoldable pub with_stream : Serve → Stream → Fate
  with_stream s stream = handled (record { proto = s.http; stream = stream })

  shaken : Serve → World × Handshake Stream → World × Fate
  unfolding with_stream
  shaken s (w, unfinished) = (w, stuck)
  shaken s (w, failed) = (w, dropped)
  shaken s (w, finished stream) = (w, with_stream s stream)

  unfoldable pub with_raw_stream : Serve → Stream → World → World × Fate
  unfolding with_stream shaken
  with_raw_stream s stream w = elim s.security [
    | no_tls ↦ (w, with_stream s stream)
    | rustls acceptor ↦ shaken s (P.accept acceptor stream w)
  ]

  fixed_stream : Serve → World × Option Stream → World × Fate
  unfolding with_raw_stream
  fixed_stream s (w, none) = (w, dropped)
  fixed_stream s (w, some stream) = with_raw_stream s stream w

  -- The body of the loop.
  unfoldable pub connection : Serve → Socket → World → World × Fate
  unfolding with_raw_stream fixed_stream
  connection s socket w = elim s.buffering [
    | simple ↦ with_raw_stream s (P.buf_stream socket) w
    | fixed ↦ fixed_stream s (P.fixed_buf_stream socket w)
    | group share ↦ with_raw_stream s (P.share_buf_stream socket share) w
  ]

  -- The handlers that are spawned, in order, and whether the loop comes to the end of what has been
  -- accepted.
  pub record Served : Type 0 where
    pub world : World
    pub handlers : List Handler
    pub stuck_at : Option Socket

  then : Socket → World × Fate → (World → Served) → Served
  then socket (w, handled h) next =
      let rest = next w in record rest { handlers = h ∷ rest.handlers }
  then socket (w, dropped) next = next w
  then socket (w, stuck) next = record { world = w; handlers = []; stuck_at = some socket }

  -- `with_incoming` on the connections that are accepted while it runs: `filter_map` drops errors,
  -- and `for_each` starts on a connection when it is done with the one before.
  unfoldable pub with_incoming : Serve → List (Result Socket) → World → Served
  unfolding connection then
  with_incoming s [] w = record { world = w; handlers = []; stuck_at = none }
  with_incoming s (err e ∷ incoming) w = with_incoming s incoming w
  with_incoming s (ok socket ∷ incoming) w =
      then socket (connection s socket w) (with_incoming s incoming)

  listening : Serve → World × Result (List (Result Socket)) → Result Served
  unfolding with_incoming
  listening s (w, ok incoming) = ok (with_incoming s incoming w)
  listening s (w, err e) = err e

  unfoldable pub serve : Serve → World → Result Served
  unfolding listening
  serve s w = elim s.descriptors [
    | raw ↦ listening s (P.bind w)
    | direct ↦ listening s (P.bind_direct w)
  ]
