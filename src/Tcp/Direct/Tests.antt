-- ===== src/Tcp/Direct/Tests.antt =====
-- A direct listener on two addresses, of which the first is in use, and a direct stream.
use inel.Base.{ℕ, ◌+◌, [], ◌∷◌, arith, if◌then◌else◌, ◌==◌}
use inel.Base.Int.{pos, negsuc}
use inel.Address.{SocketAddr, v4}
use inel.Register
use inel.Register.Lending.{Lent, new-Lent}
use inel.Tcp.Direct.{Machine, bind_direct}
use inel.Tcp.Direct.Slots.{Leaves, bind_direct-Leaves}

-- The first address cannot be bound: EADDRINUSE, and ECANCELED of what is chained to it.
abbrev scripted : Machine
scripted = record {
  World = ℕ;
  perform = λ q w. (
    (
      record { ret = pos 0; flags = 0 },
      record { ret = if w == 0 then negsuc 97 else pos 0; flags = 0 },
      record { ret = if w == 0 then negsuc 124 else pos 0; flags = 0 },
    ),
    w + 1,
  );
  here = λ a. 4096;
  len = λ a. 16;
}

abbrev home : SocketAddr
home = v4 (record { a = 127; b = 0; c = 0; d = 1 }) 80

slots-Lent : Lent (Register.new 4) []
slots-Lent = new-Lent 4 (omega arith)

bind_direct-Leaves_example :
    let r = bind_direct scripted (home ∷ home ∷ []) 0 (Register.new 4) in
    Leaves scripted [] r.slots r.outcome
bind_direct-Leaves_example =
    bind_direct-Leaves scripted [] (home ∷ home ∷ []) 0 (Register.new 4) slots-Lent
