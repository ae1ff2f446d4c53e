-- ===== src/Ring/Want.antt =====
-- How many completions `Ring::wait` blocks for.
use inel.Base.{◌+◌, ◌≤◌, ◌<◌, arith}
use inel.RingResult.{Cqueue}
use inel.Slab.{Slab}
use inel.IoUring.{IoUring}
use inel.Completion.{Completion}
use inel.Completion.Weights.{in_flight, is_cancelled, is_cancelled-le}
use inel.Ring.{Ring, want}
use inel.Ring.Counts.{Counts}

module _ (Q : Cqueue) (U : IoUring) (S : Slab Completion) where
  -- On a ring whose counters are right, while something is outstanding, a wait asks the kernel for
  -- at least one completion, and for no more than the entries that are outstanding.
  pub want_bounds :
      (r : Ring Q U S)
      → Counts Q U S r
      → 0 < r.active + r.detached
      → (1 ≤ want Q U S r) × (want Q U S r ≤ r.active + r.detached)
  unfolding want
  want_bounds r v h = ground (
    arith,
    v.active,
    v.canceled,
    v.detached,
    v.small,
    S.total_mono is_cancelled in_flight r.completions.slab is_cancelled-le,
  )
