-- ===== src/Source.antt =====
-- crates/inel-reactor/src/source.rs and crates/inel/src/source.rs: what an entry acts on, and the
-- descriptors and slots that are closed or given back when their owner is dropped. `GlobalReactor`
-- is the ring that the functions take.
pub mod Owned
mod Tests
use inel.Base.{ℕ, Bool, if◌then◌else◌, ltb, true, false, [], Outcome, done, ◌>>=◌}
use inel.Base.Int.{ℤ, pos, negsuc}
use inel.RingResult.{Cqueue}
use inel.Slab.{Slab}
use inel.IoUring.{IoUring, Target, fd, fixed}
use inel.Completion.{Completion}
use inel.Op.{Op}
use inel.Op.File.{close_op}
use inel.Ring.{
  Ring, After, IoResult, ok, no_slots, io_error, submit_detached, get_direct_slot,
  release_direct_slot,
}

-- `Source` is its target.
unfoldable pub of_fd : ℤ → Target
of_fd = fd

unfoldable pub of_slot : ℕ → Target
of_slot = fixed

-- A slot that the program has reserved, and one that the kernel has picked.
pub record DirectFd : Type 0 where
  pub slot : ℕ

pub record DirectAutoFd : Type 0 where
  pub slot : ℕ

unfoldable pub from_raw_slot : ℕ → DirectAutoFd
from_raw_slot slot = record { slot = slot }

pub data OwnedDirect : Type 0 where
  manual : DirectFd → OwnedDirect
  auto : DirectAutoFd → OwnedDirect

-- `AsDirectSlot for OwnedDirect`.
unfoldable pub as_slot : OwnedDirect → ℕ
as_slot (manual direct) = direct.slot
as_slot (auto direct) = direct.slot

-- `AsSource for OwnedDirect`; the index of a slot is the slot.
unfoldable pub as_source : OwnedDirect → Target
unfolding of_slot
as_source (manual direct) = of_slot direct.slot
as_source (auto direct) = of_slot direct.slot

-- `OwnedFd`.
pub record OwnedFd : Type 0 where
  pub raw : ℤ

is_positive : ℤ → Bool
is_positive (pos n) = ltb 0 n
is_positive (negsuc n) = false

module _ (Q : Cqueue) (U : IoUring) (S : Slab Completion) where
  -- `DetachOp::run_detached`: the operation is dropped when its entry is submitted.
  unfoldable pub run_detached : Ring Q U S → (O : Op) → O.Self → Outcome (After Q U S (Unit {0}))
  run_detached r O self = do
    let (entry, used) = O.entry self
    submitted ← submit_detached Q U S r entry
    done (record { ring = submitted; value = tt; effects = O.release used })

  -- `DirectFd::get` and `DirectFd::release`.
  get_slot : Ring Q U S × IoResult ℕ → Ring Q U S × IoResult DirectFd
  get_slot (r, ok slot) = (r, ok (record { slot = slot }))
  get_slot (r, no_slots) = (r, no_slots)
  get_slot (r, io_error) = (r, io_error)

  unfoldable pub get : Ring Q U S → Ring Q U S × IoResult DirectFd
  unfolding get_slot
  get r = get_slot (get_direct_slot Q U S r)

  unfoldable pub release : Ring Q U S → DirectFd → Ring Q U S
  release r direct = release_direct_slot Q U S r direct.slot

  own : Ring Q U S × IoResult DirectFd → Ring Q U S × IoResult OwnedDirect
  own (r, ok direct) = (r, ok (manual direct))
  own (r, no_slots) = (r, no_slots)
  own (r, io_error) = (r, io_error)

  unfoldable pub reserve : Ring Q U S → Ring Q U S × IoResult OwnedDirect
  unfolding own
  reserve r = own (get r)

  -- `Drop for OwnedDirect`.
  unfoldable pub drop_direct : Ring Q U S → OwnedDirect → Outcome (After Q U S (Unit {0}))
  drop_direct r (manual direct) =
      done (record { ring = release r direct; value = tt; effects = [] })
  drop_direct r (auto direct) = run_detached r close_op (of_slot direct.slot)

  -- `Drop for OwnedFd`.
  unfoldable pub drop_fd : Ring Q U S → OwnedFd → Outcome (After Q U S (Unit {0}))
  unfolding is_positive
  drop_fd r owned =
      if is_positive owned.raw
      then run_detached r close_op (of_fd owned.raw)
      else done (record { ring = r; value = tt; effects = [] })
