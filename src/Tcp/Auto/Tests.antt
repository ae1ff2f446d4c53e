-- ===== src/Tcp/Auto/Tests.antt =====
-- A direct stream to two addresses, of which the first refuses.
use inel.Base.{ℕ, ◌≡◌, refl, ◌+◌, ◌==◌, if◌then◌else◌, [], ◌∷◌, done, panic, unreachable_code}
use inel.Base.Int.{pos}
use inel.Address.{SocketAddr, v4}
use inel.Op.Results.{ok, err}
use inel.Tcp.{socket, connect, Kernel, succeeds}
use inel.Tcp.Auto.{connect_direct}

-- Slots are given out in order from 1; the connection from slot 1 is refused.
abbrev slots : Kernel
slots = record {
  World = ℕ;
  perform = λ q w. elim q [
    | socket s ↦ (ok (w + 1), w + 1)
    | connect slot a ↦ if slot == 1 then (err (pos 111), w) else (ok 0, w)
    | _ ↦ (ok 0, w)
  ];
}

abbrev home : SocketAddr
home = v4 (record { a = 127; b = 0; c = 0; d = 1 }) 80

second_connects : (connect_direct slots (home ∷ home ∷ []) 0).result ≡ done (succeeds 2)
unfolding connect_direct
second_connects = refl

-- In slot 0, the answer of the kernel makes the code panic.
abbrev first_slot : Kernel
first_slot = record { World = ℕ; perform = λ q w. (ok 0, w) }

panics_on_0 : (connect_direct first_slot (home ∷ []) 0).result ≡ panic unreachable_code
unfolding connect_direct
panics_on_0 = refl
