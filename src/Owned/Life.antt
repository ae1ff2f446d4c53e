-- ===== src/Owned/Life.antt =====
-- A future that owns its buffer, from its making to its drop while the kernel works.
use inel.Base.{ℕ, ◌%◌, ◌^◌, inr, arith}
use inel.RingResult.{Cqueue}
use inel.Slab.{Slab}
use inel.IoUring
use inel.IoUring.{IoUring, Target}
use inel.Completion.{Completion}
use inel.Buffer.{StableBuffer}
use inel.Buffer.Kept.{Keeps, IsKept, Keeps-part}
use inel.Op.{entry_of}
use inel.Op.Transfer.{
  FixedBuffer, new, with_offset, no_offset, read_op, write_op, read_fixed_op, write_fixed_op,
  read_entry, write_entry, read_fixed_entry, write_fixed_entry, cancel,
}
use inel.Ring.{Ring}
use inel.Ring.Counts.{Counts}
use inel.Submission.Dropped.{Spare, InFlight, new-InFlight}
use inel.Owned.{
  read_owned, read_owned_at, write_owned, write_owned_at, read_fixed, read_fixed_at, write_fixed,
  write_fixed_at, poll_read_owned, poll_write_owned, poll_read_fixed, poll_write_fixed,
}

module _ (Q : Cqueue) (U : IoUring) (S : Slab Completion) where
  -- On a ring whose counters are right and have room for two more, with room in the keys and always
  -- in the kernel's queue, for a buffer that its cancellation keeps: the first poll of a future that
  -- reads into the buffer or writes from it, at an offset or not, hands the kernel an entry with the
  -- source, the buffer's memory and the offset, the length cut to 32 bits. A drop after it frees
  -- nothing, and leaves the buffer's cancellation, which keeps that memory, under the key of the
  -- entry. The counters are right then.
  pub owned-StaysAllocated :
      (B : StableBuffer) {r : Ring Q U S} (source : Target) (offset : ℕ) (b : B.Buf) (waker : ℕ)
      → IsKept B
      → Counts Q U S r
      → Spare Q U S r
      → let p = B.stable_ptr b in
        let n = B.size b % 2 ^ 32 in
        let c = B.into b in
        Keeps c p n
        × InFlight Q U S r
            (poll_read_owned Q U S B r (read_owned B source b) waker)
            (entry_of (IoUring.read source p n no_offset))
            c
        × InFlight Q U S r
            (poll_read_owned Q U S B r (read_owned_at B source offset b) waker)
            (entry_of (IoUring.read source p n offset))
            c
        × InFlight Q U S r
            (poll_write_owned Q U S B r (write_owned B source b) waker)
            (entry_of (IoUring.write source p n no_offset))
            c
        × InFlight Q U S r
            (poll_write_owned Q U S B r (write_owned_at B source offset b) waker)
            (entry_of (IoUring.write source p n offset))
            c
  unfolding IsKept read_owned read_owned_at write_owned write_owned_at poll_read_owned
      poll_write_owned read_entry write_entry new with_offset cancel
  owned-StaysAllocated B source offset b waker kept v room =
      let first = new B source b in
      let at = with_offset B first offset in
      (
        Keeps-part (B.into b) (B.stable_ptr b) (B.size b) _ _ (inr (omega arith, omega arith))
            (kept b),
        new-InFlight Q U S (read_op B) first waker v room,
        new-InFlight Q U S (read_op B) at waker v room,
        new-InFlight Q U S (write_op B) first waker v room,
        new-InFlight Q U S (write_op B) at waker v room,
      )

  -- The same holds of the futures on a registered buffer, whose entry also has the slot, cut to 16
  -- bits.
  pub fixed-StaysAllocated :
      (F : FixedBuffer) {r : Ring Q U S} (source : Target) (offset : ℕ) (b : F.buffer.Buf)
      (waker : ℕ)
      → IsKept F.buffer
      → Counts Q U S r
      → Spare Q U S r
      → let p = F.buffer.stable_ptr b in
        let n = F.buffer.size b % 2 ^ 32 in
        let slot = F.slot b % 2 ^ 16 in
        let c = F.buffer.into b in
        Keeps c p n
        × InFlight Q U S r
            (poll_read_fixed Q U S F r (read_fixed F source b) waker)
            (entry_of (IoUring.read_fixed source p n slot no_offset))
            c
        × InFlight Q U S r
            (poll_read_fixed Q U S F r (read_fixed_at F source offset b) waker)
            (entry_of (IoUring.read_fixed source p n slot offset))
            c
        × InFlight Q U S r
            (poll_write_fixed Q U S F r (write_fixed F source b) waker)
            (entry_of (IoUring.write_fixed source p n slot no_offset))
            c
        × InFlight Q U S r
            (poll_write_fixed Q U S F r (write_fixed_at F source offset b) waker)
            (entry_of (IoUring.write_fixed source p n slot offset))
            c
  unfolding IsKept read_fixed read_fixed_at write_fixed write_fixed_at poll_read_fixed
      poll_write_fixed read_fixed_entry write_fixed_entry new with_offset cancel
  fixed-StaysAllocated F source offset b waker kept v room =
      let first = new F.buffer source b in
      let at = with_offset F.buffer first offset in
      (
        Keeps-part (F.buffer.into b) (F.buffer.stable_ptr b) (F.buffer.size b) _ _
            (inr (omega arith, omega arith)) (kept b),
        new-InFlight Q U S (read_fixed_op F) first waker v room,
        new-InFlight Q U S (read_fixed_op F) at waker v room,
        new-InFlight Q U S (write_fixed_op F) first waker v room,
        new-InFlight Q U S (write_fixed_op F) at waker v room,
      )
