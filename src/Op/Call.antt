-- ===== src/Op/Call.antt =====
-- `OpExt::run_on(GlobalReactor).await` of one operation: what it submits, and what is made of its
-- output.
use inel.Base.{Outcome, done, ◌>>=◌}
use inel.RingResult.{RingResult}
use inel.IoUring.{Entry}
use inel.Op.{Op}

pub record Call (A : Type 0) : Type 1 where
  pub op : Op
  pub self : op.Self
  pub finish : op.Output → A

unfoldable pub submits : {A : Type 0} → Call A → Entry
submits c = (c.op.entry c.self).0

unfoldable pub gives : {A : Type 0} → Call A → RingResult → Outcome A
gives c res = c.op.result c.self res >>= λ o. done (c.finish o)

-- A call whose value is the output.
abbrev pub await : (O : Op) → O.Self → Call O.Output
await O self = record { op = O; self = self; finish = λ o. o }
