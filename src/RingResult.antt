-- ===== src/RingResult.antt =====
-- `RingResult` of crates/inel-reactor/src/ring/mod.rs, with the crate `io_uring` as a parameter.
use inel.Base.{ℕ, Bool, Option}
use inel.Base.Int.{ℤ}

-- `io_uring::cqueue`: the entries of the completion queue, and the two readers of their flags.
pub record Cqueue : Type 0 where
  pub more : ℕ → Bool
  pub buffer_select : ℕ → Option ℕ

pub record Cqe : Type 0 where
  pub user_data : ℕ
  pub result : ℤ
  pub entry_flags : ℕ

-- The part of a completion queue entry that is kept.
pub record RingResult : Type 0 where
  pub ret : ℤ
  pub flags : ℕ

unfoldable pub from_completion : Cqe → RingResult
from_completion entry = record { ret = entry.result; flags = entry.entry_flags }

module _ (Q : Cqueue) where
  unfoldable pub has_more : RingResult → Bool
  has_more r = Q.more r.flags

  unfoldable pub buffer_id : RingResult → Option ℕ
  buffer_id r = Q.buffer_select r.flags
