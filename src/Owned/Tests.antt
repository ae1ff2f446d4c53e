-- ===== src/Owned/Tests.antt =====
-- Concrete futures that own their buffer.
use inel.Base.{◌%◌, ◌^◌, refl, arith}
use inel.Base.Int.{pos}
use inel.IoUring
use inel.IoUring.{fd, Target}
use inel.Completion.Examples.{linux, V}
use inel.Buffer.{boxed_buffer}
use inel.Buffer.Kept.{Keeps, boxed_buffer-IsKept}
use inel.Op.{entry_of}
use inel.Op.Transfer.{no_offset}
use inel.Ring.Examples.{accepting, busy, busy-Counts}
use inel.Submission.Dropped.{Spare, InFlight}
use inel.Owned.{
  read_owned, read_owned_at, write_owned, write_owned_at, poll_read_owned, poll_write_owned,
}
use inel.Owned.Life.{owned-StaysAllocated}

spare : Spare linux accepting V busy
spare = record { accepts = λ e u. (u, refl); key = λ w. omega arith; small = omega arith }

page : boxed_buffer.Buf
unfolding boxed_buffer
page = record { address = 4096; length = 512 }

abbrev file : Target
file = fd (pos 3)

-- A page that is read at offset 1024, or written.
owned-StaysAllocated_example :
    Keeps (boxed_buffer.into page) (boxed_buffer.stable_ptr page) (boxed_buffer.size page % 2 ^ 32)
    × InFlight linux accepting V busy
        (poll_read_owned linux accepting V boxed_buffer busy (read_owned boxed_buffer file page) 9)
        (entry_of (
          IoUring.read file
            (boxed_buffer.stable_ptr page)
            (boxed_buffer.size page % 2 ^ 32)
            no_offset))
        (boxed_buffer.into page)
    × InFlight linux accepting V busy
        (poll_read_owned linux accepting V boxed_buffer busy
          (read_owned_at boxed_buffer file 1024 page)
          9)
        (entry_of
          (IoUring.read file (boxed_buffer.stable_ptr page) (boxed_buffer.size page % 2 ^ 32) 1024))
        (boxed_buffer.into page)
    × InFlight linux accepting V busy
        (poll_write_owned linux accepting V boxed_buffer busy
          (write_owned boxed_buffer file page)
          9)
        (entry_of (
          IoUring.write file
            (boxed_buffer.stable_ptr page)
            (boxed_buffer.size page % 2 ^ 32)
            no_offset))
        (boxed_buffer.into page)
    × InFlight linux accepting V busy
        (poll_write_owned linux accepting V boxed_buffer busy
          (write_owned_at boxed_buffer file 1024 page)
          9)
        (entry_of (
          IoUring.write file (boxed_buffer.stable_ptr page) (boxed_buffer.size page % 2 ^ 32) 1024))
        (boxed_buffer.into page)
owned-StaysAllocated_example =
    owned-StaysAllocated linux accepting V boxed_buffer {r = busy} file 1024 page 9
      boxed_buffer-IsKept busy-Counts spare
