-- ===== src/Op/Accept.antt =====
-- `Accept`, `AcceptFixed` and `AcceptAuto` of crates/inel-reactor/src/op/net.rs.
use inel.Base.{ℕ, suc, ◌≡◌, refl, ap, ◌∙◌, Outcome, done, ◌>>=◌}
use inel.Base.Int.{pos, negsuc}
use inel.RingResult.{RingResult}
use inel.Cancellation.{of_box, drop_raw}
use inel.IoUring.{Entry, Target, FileIndex, no_slot, auto_target, slot, accept}
use inel.Address.{
  Endian, SocketAddr, SocketAddrCRepr, IsAddress, from_raw_addr, into_raw_addr,
  from_raw_addr-into_raw_addr,
}
use inel.Op.{Op, entry_of, cancel_entry}
use inel.Op.Results.{Result, ok, err, expect_fd, expect_zero}

-- `addr` is the address of the box, `name` and `name_len` those of its two fields, and `peer` what the
-- kernel has written there by the time of the result.
pub record Accept : Type 0 where
  pub src : Target
  pub addr : ℕ
  pub name : ℕ
  pub name_len : ℕ
  pub peer : SocketAddrCRepr × ℕ

-- `entry_raw` with the index of the slot.
unfoldable pub accept_entry : FileIndex → Accept → Entry
accept_entry index a = entry_of (accept a.src a.name a.name_len index)

module _ (m : Endian) where
  -- `.map(..)` of a result with the peer's address.
  unfoldable pub with_peer {ℓ} :
      {A B : Type ℓ} → (A → SocketAddr → B) → Accept → Result A → Outcome (Result B)
  with_peer f a (ok r) = from_raw_addr m a.peer.0 a.peer.1 >>= λ peer. done (ok (f r peer))
  with_peer f a (err e) = done (err e)

  unfoldable pub accept_result : Accept → RingResult → Outcome (Result (ℕ × SocketAddr))
  unfolding with_peer expect_fd
  accept_result a res = expect_fd res >>= with_peer (λ fd peer. (fd, peer)) a

  unfoldable pub accept_fixed_result : Accept → RingResult → Outcome (Result SocketAddr)
  unfolding with_peer expect_zero
  accept_fixed_result a res = expect_zero res >>= with_peer (λ u peer. peer) a

  abbrev accepting : FileIndex → {A : Type 0} → (Accept → RingResult → Outcome A) → Op
  accepting index {A} result = record {
    Self = Accept;
    Output = A;
    entry = λ a. (accept_entry index a, a);
    result = result;
    cancel = λ a. of_box a.addr;
    entry_cancel = cancel_entry;
    release = λ a. drop_raw (of_box a.addr);
  }

  abbrev pub accept_op : Op
  accept_op = accepting no_slot accept_result

  abbrev pub accept_fixed_op : ℕ → Op
  accept_fixed_op n = accepting (slot n) accept_fixed_result

  -- `expect_direct` is `expect_fd`, of a slot.
  abbrev pub accept_auto_op : Op
  accept_auto_op = accepting auto_target accept_result

  -- Where the kernel has written the address of the peer as a socket address is laid out, accepting
  -- gives that address, with the descriptor or slot of a positive result, or alone where the slot
  -- was given and the result is 0; and an error gives the error.
  pub accept-peer :
      (a : Accept) (peer : SocketAddr) (n flags : ℕ)
      → IsAddress peer
      → a.peer ≡ into_raw_addr m peer
      → (accept_result a (record { ret = pos (suc n); flags = flags }) ≡ done (ok (suc n, peer)))
        × (accept_fixed_result a (record { ret = pos 0; flags = flags }) ≡ done (ok peer))
        × (accept_result a (record { ret = negsuc n; flags = flags }) ≡ done (err (pos (suc n))))
  unfolding accept_result accept_fixed_result with_peer expect_fd expect_zero
  accept-peer a peer n flags h e = (rw read refl, rw read refl, refl)
    where
      read : from_raw_addr m a.peer.0 a.peer.1 ≡ done peer
      read = ap (λ r. from_raw_addr m r.0 r.1) e ∙ from_raw_addr-into_raw_addr m peer h
