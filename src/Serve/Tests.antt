-- ===== src/Serve/Tests.antt =====
-- Concrete servers: sockets and streams are numbers, a fixed stream takes two of the slots that the
-- world counts, and socket 7 never ends its handshake.
use inel.Base.{
  ℕ, ◌+◌, ◌-◌, ◌≡◌, ◌==◌, refl, Option, none, some, List, [], ◌∷◌, ltb, if◌then◌else◌, map,
}
use inel.Base.Int.{pos}
use inel.Op.Results.{Result, ok, err}
use inel.Serve.{
  Parts, Handshake, unfinished, finished, http1, http2, builder, with_tls, with_http2,
  with_incoming, connection, serve, with_direct_descriptors, with_fixed_buffers,
  with_shared_buffers,
}
use inel.Serve.Order.{own, nil, cons, plain-Serves, on_own, stuck-Stops}

abbrev fixed_at : ℕ → ℕ → ℕ × Option ℕ
fixed_at socket slots = if ltb slots 2 then (slots, none) else (slots - 2, some (socket + 200))

abbrev shake : Unit {0} → ℕ → ℕ → ℕ × Handshake ℕ
shake a stream slots = (slots, if stream == 107 then unfinished else finished (stream + 1000))

abbrev parts : Parts
parts = record {
  World = ℕ;
  Socket = ℕ;
  Group = ℕ;
  Stream = ℕ;
  Acceptor = Unit {0};
  buf_stream = λ socket. socket + 100;
  fixed_buf_stream = fixed_at;
  share_buf_stream = λ socket g. socket + 300;
  bind = λ slots. (slots, ok (ok 5 ∷ ok 7 ∷ []));
  bind_direct = λ slots. if ltb slots 1 then (slots, err (pos 23)) else (slots - 1, ok []);
  accept = shake;
}

abbrev arriving : List (Result ℕ)
arriving = ok 5 ∷ err (pos 24) ∷ ok 7 ∷ []

-- An HTTP/2 server of two connections with an error between them.
plain-Serves_example : with_incoming parts (with_http2 parts (builder parts)) arriving 4 ≡ record {
  world = 4;
  handlers = map (λ x. record { proto = http2; stream = x }) (105 ∷ 107 ∷ []);
  stuck_at = none;
}
unfolding builder with_http2
plain-Serves_example =
    plain-Serves parts (with_http2 parts (builder parts)) arriving 4 (105 ∷ 107 ∷ []) refl
      (cons own (cons own nil))

-- With TLS, socket 7 keeps sockets 8 and 9 from being served.
stuck-Stops_example :
    with_incoming parts (with_tls parts (builder parts) tt) (ok 5 ∷ ok 7 ∷ ok 8 ∷ ok 9 ∷ []) 4
    ≡ record {
      world = 4;
      handlers = record { proto = http1; stream = 1105 } ∷ [];
      stuck_at = some 7;
    }
unfolding builder with_tls with_incoming connection
stuck-Stops_example =
    stuck-Stops parts (with_tls parts (builder parts) tt) (ok 5 ∷ []) (ok 8 ∷ ok 9 ∷ []) 7 tt 107 4
      4 4 refl refl on_own refl

-- A direct listener, when no slot is left.
no_slot : serve parts (with_direct_descriptors parts (builder parts)) 0 ≡ err (pos 23)
unfolding serve builder with_direct_descriptors
no_slot = refl

-- Fixed buffers for two connections, and slots for one.
one_fixed :
    (with_incoming parts (with_fixed_buffers parts (builder parts)) (ok 5 ∷ ok 7 ∷ []) 3).handlers
    ≡ record { proto = http1; stream = 205 } ∷ []
unfolding builder with_fixed_buffers with_incoming connection
one_fixed = refl

-- A shared group.
shared_group :
    serve parts (with_shared_buffers parts (builder parts) 2) 3
    ≡ ok (record {
      world = 3;
      handlers =
          record { proto = http1; stream = 305 } ∷ record { proto = http1; stream = 307 } ∷ [];
      stuck_at = none;
    })
unfolding builder with_shared_buffers with_incoming connection serve
shared_group = refl
