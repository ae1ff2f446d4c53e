-- ===== src/Key.antt =====
-- `Key` of crates/inel-reactor/src/ring/completion.rs, a `u32` that names a slab entry.
use inel.Base.{ℕ, ◌%◌, ◌^◌}

unfoldable pub from_usize : ℕ → ℕ
from_usize value = value % 2 ^ 32

unfoldable pub from_u64 : ℕ → ℕ
from_u64 value = value % 2 ^ 32

unfoldable pub as_usize : ℕ → ℕ
as_usize key = key

unfoldable pub as_u64 : ℕ → ℕ
as_u64 key = key
