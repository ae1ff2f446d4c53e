-- ===== src/Op/Vectored.antt =====
-- `ReadVectored` and `WriteVectored` of crates/inel-reactor/src/op/read.rs and write.rs.
use inel.Base.{ℕ, ◌%◌, ◌^◌, List, [], ◌∷◌, ◌++◌, map, length, Outcome, done, ◌>>=◌}
use inel.RingResult.{RingResult}
use inel.Cancellation.{Cancellation, Cancellations, nil, cons, combine}
use inel.IoUring.{Entry, Target, readv, writev}
use inel.Buffer.{StableBuffer}
use inel.Op.{entry_of}
use inel.Op.Results.{Result, expect_positive}
use inel.Op.Transfer.{no_offset}

-- `libc::iovec`.
pub record Iovec : Type 0 where
  pub iov_base : ℕ
  pub iov_len : ℕ

module _ (B : StableBuffer) where
  -- `iovecs_ptr` is the address of the vector `iovecs`, which has room for all the buffers.
  pub record Vectored : Type 0 where
    pub bufs : List B.Buf
    pub iovecs : List Iovec
    pub iovecs_ptr : ℕ
    pub src : Target
    pub offset : ℕ

  unfoldable pub new : Target → List B.Buf → ℕ → Vectored
  new source bufs ptr = record {
    bufs = bufs;
    iovecs = [];
    iovecs_ptr = ptr;
    src = source;
    offset = no_offset;
  }

  -- The builder method `offset`.
  unfoldable pub with_offset : Vectored → ℕ → Vectored
  with_offset v n = record v { offset = n }

  -- The loop that pushes one `iovec` for each buffer.
  unfoldable pub with_iovecs : Vectored → Vectored
  with_iovecs v = record v {
    iovecs = v.iovecs ++ map (λ b. record { iov_base = B.stable_ptr b; iov_len = B.size b }) v.bufs;
  }

  unfoldable pub readv_entry : Vectored → Entry × Vectored
  unfolding with_iovecs
  readv_entry v =
      let used = with_iovecs v in
      (entry_of (readv v.src v.iovecs_ptr (length used.iovecs % 2 ^ 32) v.offset), used)

  unfoldable pub writev_entry : Vectored → Entry × Vectored
  unfolding with_iovecs
  writev_entry v =
      let used = with_iovecs v in
      (entry_of (writev v.src v.iovecs_ptr (length used.iovecs % 2 ^ 32) v.offset), used)

  unfoldable pub result : Vectored → RingResult → Outcome (List B.Buf × Result ℕ)
  unfolding expect_positive
  result v res = do count ← expect_positive res; done (v.bufs, count)

  unfoldable pub into_all : List B.Buf → Cancellations
  into_all [] = nil
  into_all (b ∷ bs) = cons (B.into b) (into_all bs)

  -- `ptr` is the address of the vector that collects the cancellations.
  unfoldable pub cancel : Vectored → ℕ → Cancellation
  unfolding into_all
  cancel v ptr = combine ptr (into_all v.bufs)
