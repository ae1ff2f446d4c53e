-- ===== src/Tcp/Tests.antt =====
-- A listener on two addresses, of which the first cannot be bound.
use inel.Base.{ℕ, ◌+◌, ◌≡◌, refl, ◌==◌, if◌then◌else◌, [], ◌∷◌, arith, done}
use inel.Base.Int.{pos}
use inel.Address.{SocketAddr, v4}
use inel.Op.Results.{ok, err}
use inel.Tcp.{socket, bind, Kernel, succeeds, bind_listener, connect_stream}
use inel.Tcp.Opened.{Settles, opening-Settles}

-- Descriptors are given out in order; the first call of `bind` is refused.
abbrev scripted : Kernel
scripted = record {
  World = ℕ;
  perform = λ q w. elim q [
    | socket s ↦ (ok (w + 3), w + 1)
    | bind fd a ↦ if fd == 3 then (err (pos 98), w) else (ok 0, w)
    | _ ↦ (ok 0, w)
  ];
}

abbrev home : SocketAddr
home = v4 (record { a = 127; b = 0; c = 0; d = 1 }) 80

second_binds : (bind_listener scripted (home ∷ home ∷ []) 0).result ≡ done (succeeds 4)
unfolding bind_listener
second_binds = refl

opening-Settles_example :
    Settles scripted 3 0 (bind_listener scripted (home ∷ home ∷ []) 0)
    × Settles scripted 3 0 (connect_stream scripted (home ∷ home ∷ []) 0)
opening-Settles_example = opening-Settles scripted 3 (home ∷ home ∷ []) 0 (omega arith)
