-- ===== src/Op/Results.antt =====
-- What operations make of a completion: the module `util` of crates/inel-reactor/src/op/mod.rs.
use inel.Base.{ℕ, zero, suc, Outcome, done, panic, unreachable_code}
use inel.Base.Int.{ℤ, pos, negsuc}
use inel.RingResult.{RingResult}

-- `io::Result`: the error is the number that `from_raw_os_error` takes.
pub data Result {ℓ} (A : Type ℓ) : Type ℓ where
  ok : A → Result A
  err : ℤ → Result A

unfoldable pub map_result {ℓ κ} : {A : Type ℓ} {B : Type κ} → (A → B) → Result A → Result B
map_result f (ok a) = ok (f a)
map_result f (err e) = err e

-- `-ret` where it is negative.
unfoldable pub expect_zero : RingResult → Outcome (Result (Unit {0}))
expect_zero res = elim res.ret [
  | pos n ↦ elim n [ zero ↦ done (ok tt) | suc m ↦ panic unreachable_code ]
  | negsuc n ↦ done (err (pos (suc n)))
]

-- `expect_fd`, and `expect_direct`, where the number is that of a slot.
unfoldable pub expect_fd : RingResult → Outcome (Result ℕ)
expect_fd res = elim res.ret [
  | pos n ↦ elim n [ zero ↦ panic unreachable_code | suc m ↦ done (ok (suc m)) ]
  | negsuc n ↦ done (err (pos (suc n)))
]

unfoldable pub expect_positive : RingResult → Outcome (Result ℕ)
expect_positive res = elim res.ret [ pos n ↦ done (ok n) | negsuc n ↦ done (err (pos (suc n))) ]
