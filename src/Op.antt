-- ===== src/Op.antt =====
-- The traits `Op` and `MultiOp` of crates/inel-reactor/src/op/mod.rs.
pub mod Results
pub mod Access
pub mod Call
pub mod Paths
pub mod Chains
pub mod Transfer
pub mod Vectored
pub mod Exact
pub mod File
pub mod Link
pub mod Net
pub mod Socket
pub mod Accept
pub mod Owning
use inel.Base.{ℕ, false, true, some, none, [], Option, List, Outcome}
use inel.RingResult.{RingResult}
use inel.Cancellation.{Cancellation, Effect}
use inel.IoUring.{Entry, Opcode, async_cancel, nop}

-- `entry` may change the operation; `result` and `cancel` consume it. `release` is what dropping it
-- does.
pub record Op : Type 1 where
  pub Self : Type 0
  pub Output : Type 0
  pub entry : Self → Entry × Self
  pub result : Self → RingResult → Outcome Output
  pub cancel : Self → Cancellation
  pub entry_cancel : ℕ → Option Entry
  pub release : Self → List Effect

pub record MultiOp : Type 1 where
  pub op : Op
  pub next : op.Self → RingResult → Outcome op.Output

-- `.build()` of an opcode.
abbrev pub entry_of : Opcode → Entry
entry_of o = record { opcode = o; user_data = 0; linked = false }

-- The default of `entry_cancel`, and that of the operations which cannot be cancelled.
unfoldable pub cancel_entry : ℕ → Option Entry
cancel_entry key = some (entry_of (async_cancel key))

unfoldable pub no_cancel_entry : ℕ → Option Entry
no_cancel_entry key = none

-- `Chain`: the operation with the link flag on its entry.
unfoldable pub chain : Op → Op
chain O = record {
  Self = O.Self;
  Output = O.Output;
  entry = λ self. let (entry, used) = O.entry self in (record entry { linked = true }, used);
  result = O.result;
  cancel = O.cancel;
  entry_cancel = O.entry_cancel;
  release = O.release;
}
