-- ===== src/Fs/Opened.antt =====
-- Who closes what a file is opened on.
mod Tests
use inel.Base.{
  ℕ, zero, suc, ltb, true, ◌≡◌, refl, Outcome, done, panic, unreachable_code, ◌>>=◌, arith,
}
use inel.Base.Int.{ℤ, pos, negsuc}
use inel.RingResult.{Cqueue, RingResult}
use inel.Slab.{Slab}
use inel.IoUring.{IoUring, fd, fixed}
use inel.Completion.{Completion}
use inel.Op.Results.{Result, ok, err, map_result, expect_fd}
use inel.Op.Call.{Call, gives}
use inel.Op.File.{close_op}
use inel.Op.Paths.{FilePath}
use inel.Ring.{Ring}
use inel.Source.{drop_fd, drop_direct, run_detached, of_fd, of_slot, from_raw_slot, auto}
use inel.Fs.{OpenOptions}
use inel.Fs.File.{File, DirectFile, from_raw_fd, from_direct, open_with, open_direct_with}
use inel.Fs.DirectFile.{make_regular}

module _ (Q : Cqueue) (U : IoUring) (S : Slab Completion) (r : Ring Q U S) where
  -- What a call that opens a file gives for the number that the kernel has answered with.
  unfoldable pub Closes : ℤ → Outcome (Result File) → Type 0
  Closes n (done (ok f)) = drop_fd Q U S r f.fd ≡ run_detached Q U S r close_op (fd n)
  Closes n (done (err e)) = (m : ℕ) × (n ≡ negsuc m) × (e ≡ pos (suc m))
  Closes n (panic e) = (n ≡ pos 0) × (e ≡ unreachable_code)

  unfoldable pub ClosesSlot : ℤ → Outcome (Result DirectFile) → Type 0
  ClosesSlot n (done (ok f)) =
      (m : ℕ) × (n ≡ pos m)
      × (drop_direct Q U S r f.direct ≡ run_detached Q U S r close_op (fixed m))
  ClosesSlot n (done (err e)) = (m : ℕ) × (n ≡ negsuc m) × (e ≡ pos (suc m))
  ClosesSlot n (panic e) = (n ≡ pos 0) × (e ≡ unreachable_code)

  file_of :
      (n : ℤ) (flags : ℕ)
      → Closes n (
          expect_fd (record { ret = n; flags = flags }) >>= λ o.
          done (map_result (λ m. from_raw_fd (pos m)) o))
  unfolding Closes expect_fd map_result from_raw_fd drop_fd of_fd
  file_of (pos zero) flags = (refl, refl)
  file_of (pos (suc m)) flags =
      let positive : ltb 0 (suc m) ≡ true = ground arith in rw positive refl
  file_of (negsuc m) flags = (m, refl, refl)

  direct_of :
      (n : ℤ) (flags : ℕ)
      → ClosesSlot n (
          expect_fd (record { ret = n; flags = flags }) >>= λ o.
          done (map_result (λ m. from_direct (auto (from_raw_slot m))) o))
  unfolding ClosesSlot expect_fd map_result from_direct from_raw_slot drop_direct of_slot
  direct_of (pos zero) flags = (refl, refl)
  direct_of (pos (suc m)) flags = (suc m, refl, refl)
  direct_of (negsuc m) flags = (m, refl, refl)

  -- Opening a file, and making a direct one regular, give for a positive answer a file whose drop
  -- closes the descriptor of that number and no other; opening a direct file gives one whose drop
  -- closes the slot of that number. A negative answer is the error, and 0 a panic.
  pub open-Closes :
      (o : OpenOptions) (path : FilePath) (d : DirectFile) (res : RingResult)
      → Closes res.ret (gives (open_with o path) res)
        × Closes res.ret (gives (make_regular d) res)
        × ClosesSlot res.ret (gives (open_direct_with o path) res)
  unfolding gives open_with open_direct_with make_regular
  open-Closes o path d res =
      (file_of res.ret res.flags, file_of res.ret res.flags, direct_of res.ret res.flags)
