-- ===== src/Op/Link.antt =====
-- crates/inel-reactor/src/op/link.rs, and the operations on paths of op/file.rs. A path is a
-- `CString`: a boxed slice that counts its final zero byte.
use inel.Base.{◌++◌, ℕ, Bool, if◌then◌else◌, Outcome}
use inel.Base.Int.{ℤ, negsuc}
use inel.RingResult.{RingResult}
use inel.Cancellation.{Cancellation, nil, cons, combine, BoxedSlice, of_cstring, drop_boxed_slice}
use inel.IoUring.{
  Entry, no_slot, auto_target, slot, link_at, symlink_at, unlink_at, open_at, mk_dir_at,
}
use inel.Op.{Op, entry_of, cancel_entry}
use inel.Op.Results.{Result, expect_zero, expect_fd}

-- `AT_FDCWD`, and the directory that goes with an absolute path.
abbrev pub at_fdcwd : ℤ
at_fdcwd = negsuc 99

abbrev pub no_dir : ℤ
no_dir = negsuc 0

-- `OpenAt::new`, `MkDirAt::new`, `UnlinkAt::new` and `SymlinkAt::new` ask `Path::is_absolute`.
unfoldable pub dir_of : Bool → ℤ
dir_of is_absolute = if is_absolute then no_dir else at_fdcwd

pub record LinkAt : Type 0 where
  pub from_fd : ℤ
  pub from_path : BoxedSlice
  pub to_fd : ℤ
  pub to_path : BoxedSlice

-- `combine` collects the cancellations in a vector, at the address `ptr`.
unfoldable pub combine_paths : ℕ → BoxedSlice → BoxedSlice → Cancellation
combine_paths ptr a b = combine ptr (cons (of_cstring a) (cons (of_cstring b) nil))

abbrev pub link_op : ℕ → Op
link_op ptr = record {
  Self = LinkAt;
  Output = Result (Unit {0});
  entry = λ l. (entry_of (link_at l.from_fd l.from_path.address l.to_fd l.to_path.address), l);
  result = λ l. expect_zero;
  cancel = λ l. combine_paths ptr l.from_path l.to_path;
  entry_cancel = cancel_entry;
  release = λ l. drop_boxed_slice l.from_path ++ drop_boxed_slice l.to_path;
}

pub record SymlinkAt : Type 0 where
  pub dir : ℤ
  pub path : BoxedSlice
  pub target : BoxedSlice

abbrev pub symlink_op : ℕ → Op
symlink_op ptr = record {
  Self = SymlinkAt;
  Output = Result (Unit {0});
  entry = λ l. (entry_of (symlink_at l.dir l.target.address l.path.address), l);
  result = λ l. expect_zero;
  cancel = λ l. combine_paths ptr l.path l.target;
  entry_cancel = cancel_entry;
  release = λ l. drop_boxed_slice l.path ++ drop_boxed_slice l.target;
}

-- `UnlinkAt`, `MkDirAt` and `OpenAt`: a directory, a path, and flags or a mode.
pub record PathOp : Type 0 where
  pub dir : ℤ
  pub path : BoxedSlice
  pub flags : ℕ
  pub mode : ℕ

abbrev path_op : {A : Type 0} → (PathOp → Entry) → (RingResult → Outcome A) → Op
path_op {A} entry result = record {
  Self = PathOp;
  Output = A;
  entry = λ p. (entry p, p);
  result = λ p. result;
  cancel = λ p. of_cstring p.path;
  entry_cancel = cancel_entry;
  release = λ p. drop_boxed_slice p.path;
}

abbrev pub unlink_op : Op
unlink_op = path_op (λ p. entry_of (unlink_at p.dir p.path.address p.flags)) expect_zero

abbrev pub mk_dir_op : Op
mk_dir_op = path_op (λ p. entry_of (mk_dir_at p.dir p.path.address p.mode)) expect_zero

-- `OpenAt`, and with a slot `OpenAtDirect` and `OpenAtAuto`.
abbrev pub open_op : Op
open_op = path_op (λ p. entry_of (open_at p.dir p.path.address p.flags p.mode no_slot)) expect_fd

abbrev pub open_direct_op : ℕ → Op
open_direct_op n =
    path_op (λ p. entry_of (open_at p.dir p.path.address p.flags p.mode (slot n))) expect_zero

abbrev pub open_auto_op : Op
open_auto_op =
    path_op (λ p. entry_of (open_at p.dir p.path.address p.flags p.mode auto_target)) expect_fd
