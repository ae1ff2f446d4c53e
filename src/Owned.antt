-- ===== src/Owned.antt =====
-- crates/inel/src/io/owned.rs: the futures that read into a buffer and write from one which they own
-- meanwhile. `T` is the source that its `read_source` or `write_source` gives, and `GlobalReactor`
-- the ring that a poll takes.
pub mod Life
mod Tests
use inel.Base.{ℕ}
use inel.RingResult.{Cqueue}
use inel.Slab.{Slab}
use inel.IoUring.{IoUring, Target}
use inel.Completion.{Completion}
use inel.Buffer.{StableBuffer}
use inel.Op.Results.{Result}
use inel.Op.Transfer.{
  FixedBuffer, new, with_offset, read_op, write_op, read_fixed_op, write_fixed_op,
}
use inel.Ring.{Ring}
use inel.Submission
use inel.Submission.{Submission, Polling}

module _ (B : StableBuffer) where
  pub record ReadOwned : Type 0 where
    pub sub : Submission (read_op B)

  pub record WriteOwned : Type 0 where
    pub sub : Submission (write_op B)

  unfoldable pub read_owned : Target → B.Buf → ReadOwned
  read_owned source buffer = record { sub = Submission.new (read_op B) (new B source buffer) }

  unfoldable pub read_owned_at : Target → ℕ → B.Buf → ReadOwned
  read_owned_at source offset buffer = record {
    sub = Submission.new (read_op B) (with_offset B (new B source buffer) offset);
  }

  unfoldable pub write_owned : Target → B.Buf → WriteOwned
  write_owned source buffer = record { sub = Submission.new (write_op B) (new B source buffer) }

  unfoldable pub write_owned_at : Target → ℕ → B.Buf → WriteOwned
  write_owned_at source offset buffer = record {
    sub = Submission.new (write_op B) (with_offset B (new B source buffer) offset);
  }

module _ (F : FixedBuffer) where
  open F use {buffer}

  pub record ReadFixed : Type 0 where
    pub sub : Submission (read_fixed_op F)

  pub record WriteFixed : Type 0 where
    pub sub : Submission (write_fixed_op F)

  unfoldable pub read_fixed : Target → buffer.Buf → ReadFixed
  read_fixed source buf = record { sub = Submission.new (read_fixed_op F) (new buffer source buf) }

  unfoldable pub read_fixed_at : Target → ℕ → buffer.Buf → ReadFixed
  read_fixed_at source offset buf = record {
    sub = Submission.new (read_fixed_op F) (with_offset buffer (new buffer source buf) offset);
  }

  unfoldable pub write_fixed : Target → buffer.Buf → WriteFixed
  write_fixed source buf = record {
    sub = Submission.new (write_fixed_op F) (new buffer source buf);
  }

  unfoldable pub write_fixed_at : Target → ℕ → buffer.Buf → WriteFixed
  write_fixed_at source offset buf = record {
    sub = Submission.new (write_fixed_op F) (with_offset buffer (new buffer source buf) offset);
  }

-- The futures pass `poll` on to their submission.
module _ (Q : Cqueue) (U : IoUring) (S : Slab Completion) where
  module _ (B : StableBuffer) where
    unfoldable pub poll_read_owned :
        Ring Q U S → ReadOwned B → ℕ → Polling Q U S (read_op B) (B.Buf × Result ℕ)
    poll_read_owned r f waker = Submission.poll Q U S (read_op B) r f.sub waker

    unfoldable pub poll_write_owned :
        Ring Q U S → WriteOwned B → ℕ → Polling Q U S (write_op B) (B.Buf × Result ℕ)
    poll_write_owned r f waker = Submission.poll Q U S (write_op B) r f.sub waker

  module _ (F : FixedBuffer) where
    unfoldable pub poll_read_fixed :
        Ring Q U S → ReadFixed F → ℕ → Polling Q U S (read_fixed_op F) (F.buffer.Buf × Result ℕ)
    poll_read_fixed r f waker = Submission.poll Q U S (read_fixed_op F) r f.sub waker

    unfoldable pub poll_write_fixed :
        Ring Q U S → WriteFixed F → ℕ → Polling Q U S (write_fixed_op F) (F.buffer.Buf × Result ℕ)
    poll_write_fixed r f waker = Submission.poll Q U S (write_fixed_op F) r f.sub waker
