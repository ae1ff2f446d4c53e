-- ===== src/Op/Exact.antt =====
-- `ReadVectoredExact` and `WriteVectoredExact` of crates/inel-reactor/src/op/read.rs and write.rs:
-- the operations on an array of buffers. The arrays are lists, both of length `N`.
use inel.Base.{ℕ, ◌%◌, ◌^◌, ◌≡◌, refl, ap, List, [], ◌∷◌, map, length, Outcome, done, ◌>>=◌}
use inel.RingResult.{RingResult}
use inel.Cancellation.{Cancellation, combine}
use inel.IoUring.{Entry, Target, readv, writev}
use inel.Buffer.{StableBuffer}
use inel.Op.{entry_of}
use inel.Op.Results.{Result, expect_positive}
use inel.Op.Transfer.{no_offset}
use inel.Op.Vectored
use inel.Op.Vectored.{Iovec, into_all, readv_entry, writev_entry, with_iovecs}

abbrev null_iovec : Iovec
null_iovec = record { iov_base = 0; iov_len = 0 }

module _ (B : StableBuffer) where
  pub record VectoredExact : Type 0 where
    pub bufs : List B.Buf
    pub iovecs : List Iovec
    pub src : Target
    pub offset : ℕ

  unfoldable pub new : Target → List B.Buf → VectoredExact
  new source bufs = record {
    bufs = bufs;
    iovecs = map (λ _. null_iovec) bufs;
    src = source;
    offset = no_offset;
  }

  unfoldable pub with_offset : VectoredExact → ℕ → VectoredExact
  with_offset v n = record v { offset = n }

  -- The loop that sets the elements of `iovecs` from those of `bufs`.
  unfoldable pub set_iovecs : List B.Buf → List Iovec → List Iovec
  set_iovecs (b ∷ bs) (v ∷ vs) =
      record v { iov_base = B.stable_ptr b; iov_len = B.size b } ∷ set_iovecs bs vs
  set_iovecs bs vs = vs

  unfoldable pub used : VectoredExact → VectoredExact
  unfolding set_iovecs
  used v = record v { iovecs = set_iovecs v.bufs v.iovecs }

  -- `ptr` is the address of the field `iovecs`.
  unfoldable pub read_entry : VectoredExact → ℕ → Entry × VectoredExact
  read_entry v ptr = (entry_of (readv v.src ptr (length (used v).iovecs % 2 ^ 32) v.offset), used v)

  unfoldable pub write_entry : VectoredExact → ℕ → Entry × VectoredExact
  write_entry v ptr =
      (entry_of (writev v.src ptr (length (used v).iovecs % 2 ^ 32) v.offset), used v)

  unfoldable pub result : VectoredExact → RingResult → Outcome (List B.Buf × Result ℕ)
  result v res = do count ← expect_positive res; done (v.bufs, count)

  unfoldable pub cancel : VectoredExact → ℕ → Cancellation
  cancel v ptr = combine ptr (into_all B v.bufs)

  -- Setting the iovecs of a new operation gives those that pushing would give.
  set_iovecs-map :
      (bs : List B.Buf) (n : Iovec)
      → set_iovecs bs (map (λ _. n) bs)
        ≡ map (λ b. record { iov_base = B.stable_ptr b; iov_len = B.size b }) bs
  unfolding set_iovecs
  set_iovecs-map [] n = refl
  set_iovecs-map (b ∷ bs) n =
      ap (λ vs. record { iov_base = B.stable_ptr b; iov_len = B.size b } ∷ vs) (set_iovecs-map bs n)

  -- A new operation on an array of buffers submits the entry that one on a vector of the same
  -- buffers submits, if their iovecs stand at the same address, and leaves the same iovecs there:
  -- one for each buffer, with its address and size.
  pub read_entry-readv_entry :
      (source : Target) (bufs : List B.Buf) (ptr : ℕ)
      → let exact = read_entry (new source bufs) ptr in
        let pushed = readv_entry B (Vectored.new B source bufs ptr) in
        (exact.0 ≡ pushed.0) × (exact.1.iovecs ≡ pushed.1.iovecs)
  unfolding read_entry used new readv_entry with_iovecs Vectored.new
  read_entry-readv_entry source bufs ptr = rw (set_iovecs-map bufs null_iovec) (refl, refl)

  pub write_entry-writev_entry :
      (source : Target) (bufs : List B.Buf) (ptr : ℕ)
      → let exact = write_entry (new source bufs) ptr in
        let pushed = writev_entry B (Vectored.new B source bufs ptr) in
        (exact.0 ≡ pushed.0) × (exact.1.iovecs ≡ pushed.1.iovecs)
  unfolding write_entry used new writev_entry with_iovecs Vectored.new
  write_entry-writev_entry source bufs ptr = rw (set_iovecs-map bufs null_iovec) (refl, refl)
