-- ===== src/Op/Socket.antt =====
-- The operations of crates/inel-reactor/src/op/net.rs whose entries point to no memory, with `Nop` of
-- op/mod.rs and `InstallSlot` of op/direct.rs.
use inel.Base.{
  ℕ, Bool, true, false, ◌==◌, if◌then◌else◌, Option, [], Outcome, done, panic, assertion_failed,
}
use inel.Base.Int.{pos, negsuc}
use inel.RingResult.{RingResult}
use inel.Cancellation.{empty}
use inel.IoUring.{
  Entry, Target, FileIndex, no_slot, auto_target, slot, nop, socket, listen, shutdown, accept_multi,
  fixed_fd_install,
}
use inel.Op.{Op, MultiOp, entry_of, cancel_entry, no_cancel_entry}
use inel.Op.Results.{expect_zero, expect_fd}

-- An operation that owns nothing.
abbrev bare_op :
    (Self : Type 0)
    → {A : Type 0} → (Self → Entry)
    → (RingResult → Outcome A)
    → (ℕ → Option Entry)
    → Op
bare_op Self {A} entry result cancel_with = record {
  Self = Self;
  Output = A;
  entry = λ s. (entry s, s);
  result = λ s. result;
  cancel = λ s. empty;
  entry_cancel = cancel_with;
  release = λ s. [];
}

-- `Nop::next`: the result is 0 or -125 (ECANCELED).
unfoldable pub nop_result : RingResult → Outcome (Unit {0})
nop_result res = elim res.ret [
  | pos n ↦ if n == 0 then done tt else panic assertion_failed
  | negsuc n ↦ if n == 124 then done tt else panic assertion_failed
]

abbrev pub nop_op : MultiOp
nop_op = record {
  op = bare_op (Unit {0}) (λ s. entry_of nop) nop_result cancel_entry;
  next = λ s. nop_result;
}

pub record Socket : Type 0 where
  pub domain : ℕ
  pub typ : ℕ
  pub proto : ℕ

-- `AF_INET`, `AF_INET6` and `SOCK_STREAM` of Linux.
unfoldable pub stream_from_addr : Bool → Socket
stream_from_addr is_ipv4 = record { domain = if is_ipv4 then 2 else 10; typ = 1; proto = 0 }

abbrev socket_entry : FileIndex → Socket → Entry
socket_entry index s = entry_of (socket s.domain s.typ s.proto index)

abbrev pub socket_op : Op
socket_op = bare_op Socket (socket_entry no_slot) expect_fd no_cancel_entry

abbrev pub socket_fixed_op : ℕ → Op
socket_fixed_op n = bare_op Socket (socket_entry (slot n)) expect_zero no_cancel_entry

abbrev pub socket_auto_op : Op
socket_auto_op = bare_op Socket (socket_entry auto_target) expect_fd no_cancel_entry

pub record Listen : Type 0 where
  pub src : Target
  pub backlog : ℕ

abbrev pub listen_op : Op
listen_op = bare_op Listen (λ l. entry_of (listen l.src l.backlog)) expect_zero no_cancel_entry

-- `std::net::Shutdown`, and `SHUT_RD`, `SHUT_WR`, `SHUT_RDWR`.
pub data Direction : Type 0 where
  read_half write_half both_halves : Direction

unfoldable pub how : Direction → ℕ
how read_half = 0
how write_half = 1
how both_halves = 2

abbrev pub shutdown_op : Op
shutdown_op =
    bare_op (Target × Direction) (λ s. entry_of (shutdown s.0 (how s.1))) expect_zero
      no_cancel_entry

-- The stream of connections, as descriptors or as slots that the kernel picks.
abbrev pub accept_multi_op : MultiOp
accept_multi_op = record {
  op = bare_op Target (λ src. entry_of (accept_multi src false)) expect_fd cancel_entry;
  next = λ src. expect_fd;
}

abbrev pub accept_multi_auto_op : MultiOp
accept_multi_auto_op = record {
  op = bare_op Target (λ src. entry_of (accept_multi src true)) expect_fd cancel_entry;
  next = λ src. expect_fd;
}

abbrev pub install_slot_op : Op
install_slot_op = bare_op ℕ (λ n. entry_of (fixed_fd_install n 0)) expect_fd no_cancel_entry
