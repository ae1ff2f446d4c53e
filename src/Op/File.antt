-- ===== src/Op/File.antt =====
-- The operations on open files of crates/inel-reactor/src/op/file.rs.
use inel.Base.{Option, ℕ, ◌+◌, ◌%◌, ◌^◌, ◌≤◌, ◌≡◌, ◌↔◌, Bool, Outcome, done, ◌>>=◌, [], arith}
use inel.Base.Int.{ℤ}
use inel.RingResult.{RingResult}
use inel.Cancellation.{empty, of_box, drop_raw}
use inel.IoUring.{Entry, Target, close, fsync, statx, ftruncate, fadvise, fallocate}
use inel.Buffer.{included, excluded, unbounded, RangeBounds}
use inel.Op.{Op, entry_of, cancel_entry, no_cancel_entry}
use inel.Op.Results.{Result, map_result, expect_zero}

-- An operation that owns nothing and whose result must be zero.
abbrev plain_op : (Self : Type 0) → (Self → Entry) → (ℕ → Option Entry) → Op
plain_op Self entry cancel_with = record {
  Self = Self;
  Output = Result (Unit {0});
  entry = λ s. (entry s, s);
  result = λ s. expect_zero;
  cancel = λ s. empty;
  entry_cancel = cancel_with;
  release = λ s. [];
}

abbrev pub close_op : Op
close_op = plain_op Target (λ src. entry_of (close src)) no_cancel_entry

pub record FSync : Type 0 where
  pub src : Target
  pub meta : Bool

-- The flags are all of them with `meta`, and `DATASYNC` without.
abbrev pub fsync_op : Op
fsync_op = plain_op FSync (λ f. entry_of (fsync f.src f.meta)) cancel_entry

pub record FTruncate : Type 0 where
  pub src : Target
  pub len : ℕ

abbrev pub ftruncate_op : Op
ftruncate_op = plain_op FTruncate (λ f. entry_of (ftruncate f.src f.len)) cancel_entry

pub record FAllocate : Type 0 where
  pub src : Target
  pub size : ℕ
  pub offset : ℕ

abbrev pub fallocate_op : Op
fallocate_op = plain_op FAllocate (λ f. entry_of (fallocate f.src f.size f.offset)) no_cancel_entry

pub record FAdvise : Type 0 where
  pub src : Target
  pub advice : ℕ
  pub range : RangeBounds

-- `+ 1` on a `usize`.
abbrev next : ℕ → ℕ
next i = (i + 1) % 2 ^ 64

unfoldable pub advised_offset : RangeBounds → ℕ
advised_offset range = elim range.start_bound [
  | included i ↦ i
  | excluded i ↦ next i
  | unbounded ↦ 0
]

unfoldable pub advised_len : RangeBounds → ℕ
advised_len range = elim range.end_bound [ included i ↦ next i | excluded i ↦ i | unbounded ↦ 0 ]

abbrev pub fadvise_op : Op
fadvise_op =
    plain_op FAdvise
      (λ f. entry_of (fadvise f.src (advised_len f.range) f.advice (advised_offset f.range)))
      no_cancel_entry

-- `stats` is the address of the box that the kernel fills; what it holds is `A`.
pub record Statx : Type 0 where
  pub dir : ℤ
  pub mask : ℕ
  pub stats : ℕ

abbrev pub at_empty_path : ℕ
at_empty_path = 2 ^ 12

unfoldable pub statx_result : Statx → RingResult → Outcome (Result ℕ)
statx_result s res = do filled ← expect_zero res; done (map_result (λ u. s.stats) filled)

abbrev pub statx_op : Op
statx_op = record {
  Self = Statx;
  Output = Result ℕ;
  entry = λ s. (entry_of (statx s.dir s.stats at_empty_path s.mask), s);
  result = statx_result;
  cancel = λ s. of_box s.stats;
  entry_cancel = cancel_entry;
  release = λ s. drop_raw (of_box s.stats);
}

-- The region that `FAdvise` names to the kernel for a range `start..end` ends where the range does
-- exactly when the range starts at 0.
pub advised_len-end :
    (start end : ℕ)
    → start ≤ end
    → let range : RangeBounds = record { start_bound = included start; end_bound = excluded end } in
      (advised_offset range + advised_len range ≡ end) ↔ (start ≡ 0)
unfolding advised_offset advised_len
advised_len-end start end h = omega arith
