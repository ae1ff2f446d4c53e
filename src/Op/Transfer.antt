-- ===== src/Op/Transfer.antt =====
-- `Read`, `Write`, `ReadFixed` and `WriteFixed` of crates/inel-reactor/src/op/read.rs and write.rs.
use inel.Base.{ℕ, ◌-◌, ◌%◌, ◌^◌, Outcome, done, ◌>>=◌}
use inel.RingResult.{RingResult}
use inel.Cancellation.{Cancellation}
use inel.IoUring.{Entry, Target, read, write, read_fixed, write_fixed}
use inel.Buffer.{StableBuffer}
use inel.Op.{Op, entry_of, cancel_entry}
use inel.Op.Results.{Result, expect_positive}

abbrev pub no_offset : ℕ
no_offset = 2 ^ 64 - 1

-- `FixedBuffer`: a stable buffer with the slot that it is registered under.
pub record FixedBuffer : Type 1 where
  pub buffer : StableBuffer
  pub slot : buffer.Buf → ℕ

module _ (B : StableBuffer) where
  -- The four structs have the same fields.
  pub record Transfer : Type 0 where
    pub buf : B.Buf
    pub src : Target
    pub offset : ℕ

  unfoldable pub new : Target → B.Buf → Transfer
  new source buf = record { buf = buf; src = source; offset = no_offset }

  -- The builder method `offset`.
  unfoldable pub with_offset : Transfer → ℕ → Transfer
  with_offset t n = record t { offset = n }

  unfoldable pub read_entry : Transfer → Entry
  read_entry t = entry_of (read t.src (B.stable_ptr t.buf) (B.size t.buf % 2 ^ 32) t.offset)

  unfoldable pub write_entry : Transfer → Entry
  write_entry t = entry_of (write t.src (B.stable_ptr t.buf) (B.size t.buf % 2 ^ 32) t.offset)

  unfoldable pub result : Transfer → RingResult → Outcome (B.Buf × Result ℕ)
  unfolding expect_positive
  result t res = do count ← expect_positive res; done (t.buf, count)

  unfoldable pub cancel : Transfer → Cancellation
  cancel t = B.into t.buf

  abbrev transfer_op : (Transfer → Entry) → Op
  transfer_op entry = record {
    Self = Transfer;
    Output = B.Buf × Result ℕ;
    entry = λ t. (entry t, t);
    result = result;
    cancel = cancel;
    entry_cancel = cancel_entry;
    release = λ t. B.dropped t.buf;
  }

  abbrev pub read_op : Op
  read_op = transfer_op read_entry

  abbrev pub write_op : Op
  write_op = transfer_op write_entry

module _ (F : FixedBuffer) where
  -- The slot is cut to a `u16`.
  unfoldable pub read_fixed_entry : Transfer F.buffer → Entry
  read_fixed_entry t = entry_of (
      read_fixed t.src (F.buffer.stable_ptr t.buf) (F.buffer.size t.buf % 2 ^ 32)
        (F.slot t.buf % 2 ^ 16) t.offset)

  unfoldable pub write_fixed_entry : Transfer F.buffer → Entry
  write_fixed_entry t = entry_of (
      write_fixed t.src (F.buffer.stable_ptr t.buf) (F.buffer.size t.buf % 2 ^ 32)
        (F.slot t.buf % 2 ^ 16) t.offset)

  abbrev pub read_fixed_op : Op
  read_fixed_op = transfer_op F.buffer read_fixed_entry

  abbrev pub write_fixed_op : Op
  write_fixed_op = transfer_op F.buffer write_fixed_entry
