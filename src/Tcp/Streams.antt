-- ===== src/Tcp/Streams.antt =====
-- The streams and the listeners of crates/inel/src/net/tcp.rs: each method awaits one operation.
use inel.Base.{ℕ, Option, Outcome, ◌>>=◌, done, ◌++◌}
use mathlib.Core.Option
use inel.Base.Int.{ℤ, pos}
use inel.RingResult.{Cqueue}
use inel.Slab.{Slab}
use inel.IoUring.{IoUring, Target}
use inel.Completion.{Completion}
use inel.Address.{Endian, SocketAddr}
use inel.Op.{chain}
use inel.Op.Call.{Call, await}
use inel.Op.Results.{Result, map_result}
use inel.Op.Accept.{Accept, accept_op, accept_auto_op}
use inel.Op.Net.{register_file_op}
use inel.Op.Socket.{Direction, both_halves, shutdown_op, install_slot_op}
use inel.Submission.{Poll, pending, ready}
use inel.Ring.{Ring, After}
use inel.Source.{
  OwnedFd, OwnedDirect, auto, from_raw_slot, of_fd, as_source, as_slot, run_detached, drop_direct,
}

pub record TcpListener : Type 0 where
  pub sock : OwnedFd

pub record TcpStream : Type 0 where
  pub sock : OwnedFd

pub record DirectTcpStream : Type 0 where
  pub direct : OwnedDirect

-- `FromRawFd for TcpListener` and `FromRawFd for TcpStream`.
unfoldable pub listener_from_raw_fd : ℤ → TcpListener
listener_from_raw_fd n = record { sock = record { raw = n } }

unfoldable pub from_raw_fd : ℤ → TcpStream
from_raw_fd n = record { sock = record { raw = n } }

unfoldable pub from_direct : OwnedDirect → DirectTcpStream
from_direct d = record { direct = d }

-- `DirectTcpStream::from_direct(OwnedDirect::auto(slot))`.
unfoldable pub from_slot : ℕ → DirectTcpStream
unfolding from_direct from_raw_slot
from_slot n = from_direct (auto (from_raw_slot n))

-- `ReadSource` and `WriteSource` of both.
unfoldable pub read_source : TcpStream → Target
read_source s = of_fd s.sock.raw

unfoldable pub direct_read_source : DirectTcpStream → Target
direct_read_source s = as_source s.direct

-- `TcpListener::accept` and `DirectTcpListener::accept`, on the operation `Accept::new` of the
-- listener.
module _ (m : Endian) where
  unfoldable pub accept : Accept → Call (Result (TcpStream × SocketAddr))
  unfolding from_raw_fd
  accept a = record {
    op = accept_op m;
    self = a;
    finish = map_result (λ r. (from_raw_fd (pos r.0), r.1));
  }

  unfoldable pub accept_direct : Accept → Call (Result (DirectTcpStream × SocketAddr))
  unfolding from_slot
  accept_direct a = record {
    op = accept_auto_op m;
    self = a;
    finish = map_result (λ r. (from_slot r.0, r.1));
  }

unfoldable pub shutdown : TcpStream → Direction → Call (Result (Unit {0}))
shutdown s how = await shutdown_op (of_fd s.sock.raw, how)

unfoldable pub shutdown_direct : DirectTcpStream → Direction → Call (Result (Unit {0}))
shutdown_direct s how = await shutdown_op (as_source s.direct, how)

-- `here` is the address of the field that the operation keeps the descriptor `raw` in.
unfoldable pub make_direct : ℕ → ℕ → Call (Result DirectTcpStream)
unfolding from_slot
make_direct raw here = record {
  op = register_file_op;
  self = record { here = here; fd = raw };
  finish = map_result from_slot;
}

unfoldable pub make_regular : DirectTcpStream → Call (Result TcpStream)
unfolding from_raw_fd
make_regular s = record {
  op = install_slot_op;
  self = as_slot s.direct;
  finish = map_result (λ n. from_raw_fd (pos n));
}

-- `Incoming` and `DirectIncoming`: `poll_next` maps what the stream of the operation gives.
unfoldable pub map_poll : {A B : Type 0} → (A → B) → Poll A → Poll B
map_poll f pending = pending
map_poll f (ready a) = ready (f a)

unfoldable pub next_stream : Poll (Option (Result ℕ)) → Poll (Option (Result TcpStream))
unfolding map_poll from_raw_fd
next_stream p = map_poll (Option.map (map_result (λ n. from_raw_fd (pos n)))) p

unfoldable pub next_direct : Poll (Option (Result ℕ)) → Poll (Option (Result DirectTcpStream))
unfolding map_poll from_slot
next_direct p = map_poll (Option.map (map_result from_slot)) p

module _ (Q : Cqueue) (U : IoUring) (S : Slab Completion) where
  -- `Drop for DirectTcpStream`, and then the drop of its field.
  unfoldable pub drop_stream : Ring Q U S → DirectTcpStream → Outcome (After Q U S (Unit {0}))
  unfolding chain
  drop_stream r s = do
    shut ← run_detached Q U S r (chain shutdown_op) (as_source s.direct, both_halves)
    closed ← drop_direct Q U S shut.ring s.direct
    done (record closed { effects = shut.effects ++ closed.effects })
