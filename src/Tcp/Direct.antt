-- ===== src/Tcp/Direct.antt =====
-- `TcpListener::bind_direct` of crates/inel/src/net/tcp.rs, over the answers of the kernel and the
-- register that the slot of the listener comes from, with `chain3` of crates/inel/src/util.rs.
pub mod Slots
pub mod Order
mod Tests
use inel.Base.{ℕ, Option, none, some, List, [], ◌∷◌, Outcome, done, panic, unwrap_failed, ◌>>=◌}
use inel.RingResult.{RingResult}
use inel.IoUring.{Entry}
use inel.Register
use inel.Register.{SlotRegister}
use inel.Address.{SocketAddr}
use inel.Op.{chain}
use inel.Op.Results.{Result, ok, err, expect_zero}
use inel.Op.Net.{bind_op}
use inel.Op.Socket.{socket_fixed_op, listen_op, stream_from_addr}
use inel.Source.{OwnedDirect, DirectFd, manual, of_slot}
use inel.Tcp.{IoError, os_error, invalid_input, IoResult, succeeds, fails_with, is_ipv4}

pub record DirectTcpListener : Type 0 where
  pub direct : OwnedDirect

-- `chain3`, once the three futures have been joined.
unfoldable pub chain3 : {A B C : Type 0} → Result A → Result B → Result C → Result (A × B × C)
chain3 (err e) b c = err e
chain3 (ok x) (err e) c = err e
chain3 (ok x) (ok y) (err e) = err e
chain3 (ok x) (ok y) (ok z) = ok (x, y, z)

-- `perform` is what the kernel answers to three entries that are submitted together. `here` is the
-- address of the field that `Bind` keeps the socket address in, `len` its length.
pub record Machine : Type 1 where
  pub World : Type 0
  pub perform : Entry × Entry × Entry → World → (RingResult × RingResult × RingResult) × World
  pub here : SocketAddr → ℕ
  pub len : SocketAddr → ℕ

abbrev pub backlog : ℕ
backlog = 256

module _ (M : Machine) where
  open M use {World, perform}

  pub record Ran (A : Type 0) : Type 0 where
    pub outcome : Outcome (IoResult A)
    pub world : World
    pub slots : SlotRegister

  -- `socket`, `bind` and `listen`, of which the second is chained.
  unfoldable pub bind_entries : SocketAddr → ℕ → Entry × Entry × Entry
  unfolding stream_from_addr is_ipv4 of_slot chain
  bind_entries addr slot = (
    ((socket_fixed_op slot).entry (stream_from_addr (is_ipv4 addr))).0,
    ((chain bind_op).entry (record { src = of_slot slot; here = M.here addr; len = M.len addr })).0,
    (listen_op.entry (record { src = of_slot slot; backlog = backlog })).0,
  )

  unfoldable pub joined :
      RingResult × RingResult × RingResult → Outcome (Result (Unit {0} × Unit {0} × Unit {0}))
  unfolding chain3
  joined (r, s, t) = do
    sock ← expect_zero r
    bound ← expect_zero s
    listening ← expect_zero t
    done (chain3 sock bound listening)

  -- The end of the body: `direct` moves into the listener, or is dropped, which releases the slot.
  unfoldable pub end_body :
      {A : Type 0} → ℕ → World → SlotRegister → Outcome (Result A) → Ran DirectTcpListener
  end_body slot w slots (done (ok a)) = record {
    outcome = done (succeeds (record { direct = manual (record { slot = slot }) }));
    world = w;
    slots = slots;
  }
  end_body slot w slots (done (err e)) = record {
    outcome = done (fails_with (os_error e));
    world = w;
    slots = Register.remove slots slot;
  }
  end_body slot w slots (panic e) = record {
    outcome = panic e;
    world = w;
    slots = Register.remove slots slot;
  }

  -- The body for one address, on what reserving a slot gives.
  unfoldable pub bind_at : SocketAddr → World → Option ℕ × SlotRegister → Ran DirectTcpListener
  unfolding bind_entries joined end_body
  bind_at addr w (none, slots) = record { outcome = panic unwrap_failed; world = w; slots = slots }
  bind_at addr w (some slot, slots) =
      let (answers, w') = perform (bind_entries addr slot) w in
      end_body slot w' slots (joined answers)

  unfoldable pub last_error : Option IoError → IoError
  last_error none = invalid_input
  last_error (some e) = e

  -- `for_each_addr`: what is done after the body for an address.
  unfoldable pub or_next :
      Ran DirectTcpListener
      → (IoError → World → SlotRegister → Ran DirectTcpListener)
      → Ran DirectTcpListener
  or_next r next = elim r.outcome [
    | done a ↦ elim a [ succeeds l ↦ r | fails_with e ↦ next e r.world r.slots ]
    | panic e ↦ r
  ]

  unfoldable pub bind_any :
      List SocketAddr → Option IoError → World → SlotRegister → Ran DirectTcpListener
  unfolding last_error or_next
  bind_any [] last w slots = record {
    outcome = done (fails_with (last_error last));
    world = w;
    slots = slots;
  }
  bind_any (addr ∷ addrs) last w slots =
      or_next (bind_at addr w (Register.get slots)) (λ e. bind_any addrs (some e))

  unfoldable pub bind_direct : List SocketAddr → World → SlotRegister → Ran DirectTcpListener
  unfolding bind_any
  bind_direct addrs w slots = bind_any addrs none w slots
