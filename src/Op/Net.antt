-- ===== src/Op/Net.antt =====
-- The operations whose entry points into the operation itself: `Connect` and `Bind` of
-- crates/inel-reactor/src/op/net.rs, `Timeout` of op/time.rs and `RegisterFile` of op/direct.rs; and
-- those of op/net.rs that point to nothing.
use inel.Base.{
  ◌||◌, ◌==◌, if◌then◌else◌, ℕ, zero, suc, Outcome, done, panic, unreachable_code, assertion_failed,
  [],
}
use inel.Base.Int.{pos, negsuc}
use inel.RingResult.{RingResult}
use inel.Cancellation.{empty}
use inel.IoUring.{Target, bind, connect, timeout, update_files}
use inel.Op.{Op, entry_of, cancel_entry, no_cancel_entry}
use inel.Op.Results.{Result, ok, err, expect_zero}

-- `Connect` and `Bind`: `here` is the address of the field `addr`, a `SocketAddrCRepr` of `len` bytes
-- in use.
pub record Address : Type 0 where
  pub src : Target
  pub here : ℕ
  pub len : ℕ

abbrev pub connect_op : Op
connect_op = record {
  Self = Address;
  Output = Result (Unit {0});
  entry = λ c. (entry_of (connect c.src c.here c.len), c);
  result = λ c. expect_zero;
  cancel = λ c. empty;
  entry_cancel = cancel_entry;
  release = λ c. [];
}

abbrev pub bind_op : Op
bind_op = record {
  Self = Address;
  Output = Result (Unit {0});
  entry = λ c. (entry_of (bind c.src c.here c.len), c);
  result = λ c. expect_zero;
  cancel = λ c. empty;
  entry_cancel = no_cancel_entry;
  release = λ c. [];
}

-- `Timeout`: the address of its `Timespec`. The result is checked by a `debug_assert!`: it is -62
-- (ETIME) or -125 (ECANCELED).
unfoldable pub timed_out : RingResult → Outcome (Unit {0})
timed_out res = elim res.ret [
  | pos n ↦ panic assertion_failed
  | negsuc n ↦ if n == 61 || n == 124 then done tt else panic assertion_failed
]

abbrev pub timeout_op : Op
timeout_op = record {
  Self = ℕ;
  Output = Unit {0};
  entry = λ here. (entry_of (timeout here), here);
  result = λ here. timed_out;
  cancel = λ here. empty;
  entry_cancel = cancel_entry;
  release = λ here. [];
}

-- `RegisterFile`: the descriptor, and the address where it stands, to which the kernel writes the
-- slot. The error is the negative result itself.
pub record RegisterFile : Type 0 where
  pub here : ℕ
  pub fd : ℕ

unfoldable pub register_file_result : RegisterFile → RingResult → Outcome (Result ℕ)
register_file_result f res = elim res.ret [
  | pos n ↦ elim n [
    | zero ↦ panic unreachable_code
    | suc m ↦ elim m [ zero ↦ done (ok f.fd) | suc k ↦ panic unreachable_code ]
  ]
  | negsuc n ↦ done (err (negsuc n))
]

abbrev pub register_file_op : Op
register_file_op = record {
  Self = RegisterFile;
  Output = Result ℕ;
  entry = λ f. (entry_of (update_files f.here 1), f);
  result = register_file_result;
  cancel = λ f. empty;
  entry_cancel = no_cancel_entry;
  release = λ f. [];
}
