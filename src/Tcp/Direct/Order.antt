-- ===== src/Tcp/Direct/Order.antt =====
-- The order in which the kernel handles the entries of direct listeners and streams.
use inel.Base.{ℕ, ◌+◌, ◌%◌, ◌^◌, ◌<◌, ◌≡◌, refl, some, true, false, List, [], ◌∷◌, done, arith}
use inel.RingResult.{Cqueue}
use inel.Slab.{Slab}
use inel.IoUring.{IoUring, Entry, fixed, close, shutdown}
use inel.Completion.{Completion}
use inel.Address.{SocketAddr}
use inel.Op.{entry_of, chain}
use inel.Op.Chains.{chain_of}
use inel.Ring.{Ring, ignore_key, submit_detached}
use inel.Ring.Slots.{Lending}
use inel.Source.{run_detached, drop_direct, as_source, of_slot}
use inel.Tcp.Streams.{drop_stream, from_slot, from_direct}
use inel.Source.{from_raw_slot}
use inel.Tcp.Direct.{Machine, bind_entries}

-- The entries of `bind_direct` make two chains: the socket alone, and then the binding with the
-- listening. The binding does not wait until the socket is there, nor is it cancelled where the
-- socket is refused.
pub bind_entries-chains :
    (M : Machine) (addr : SocketAddr) (slot : ℕ) (next : List Entry)
    → let (socket, bind, listen) = bind_entries M addr slot in
      (chain_of (socket ∷ bind ∷ listen ∷ next) ≡ socket ∷ [])
      × (chain_of (bind ∷ listen ∷ next) ≡ bind ∷ listen ∷ [])
unfolding bind_entries chain_of
bind_entries-chains M addr slot next = (refl, refl)

-- The two entries of the drop of a direct stream, as the ring pushes them.
abbrev pub shutting : ℕ → Entry
shutting n = record { opcode = shutdown (fixed n) 2; user_data = ignore_key; linked = true }

abbrev pub closing : ℕ → Entry
closing n = record { opcode = close (fixed n); user_data = ignore_key; linked = false }

module _ (Q : Cqueue) (U : IoUring) (S : Slab Completion) where
  -- With room in the counters, on a ring whose counters and slots are right, dropping a direct
  -- stream whose slot the kernel has picked, where the kernel takes both entries, submits that the
  -- stream is shut down and then that its slot is closed, as one chain that takes in nothing that is
  -- submitted later; the ring lends as much as before and has two more entries detached.
  pub drop_stream-closes :
      {r : Ring Q U S} {files buffers groups : List ℕ} (n : ℕ) {ring1 ring2 : U.Instance}
      (next : List Entry)
      → Lending Q U S r files buffers groups
      → r.active + r.detached + 2 < 2 ^ 31
      → U.push (shutting n) r.ring ≡ some ring1
      → U.push (closing n) ring1 ≡ some ring2
      → (after : Ring Q U S) × (drop_stream Q U S r (from_slot n)
          ≡ done (record { ring = after; value = tt; effects = [] }))
        × Lending Q U S after files buffers groups
        × (after.detached ≡ r.detached + 2)
        × (chain_of (shutting n ∷ closing n ∷ next) ≡ shutting n ∷ closing n ∷ [])
  unfolding drop_stream from_slot from_direct from_raw_slot drop_direct run_detached submit_detached
      as_source of_slot chain_of inel.Op.Socket.how
  drop_stream-closes {r} n {ring1} {ring2} next l room e f = (
    record r { ring = ring2; detached = ((r.detached + 1) % 2 ^ 32 + 1) % 2 ^ 32 },
    rw (e, f) refl,
    record {
      counts = record {
        valid = l.counts.valid;
        active = l.counts.active;
        canceled = l.counts.canceled;
        detached = omega (arith, l.counts.detached, room);
        small = omega (arith, room);
      };
      direct_files = l.direct_files;
      fixed_buffers = l.fixed_buffers;
      buffer_groups = l.buffer_groups;
    },
    omega (arith, room),
    refl,
  )
