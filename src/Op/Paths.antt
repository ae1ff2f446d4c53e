-- ===== src/Op/Paths.antt =====
-- How the operations on paths of crates/inel-reactor/src/op/link.rs and op/file.rs are made.
use inel.Base.{ℕ, Bool}
use inel.Cancellation.{BoxedSlice}
use inel.Op.Link.{LinkAt, SymlinkAt, PathOp, dir_of, no_dir, at_fdcwd}

-- A `Path` with the `CString` that is made of it.
pub record FilePath : Type 0 where
  pub bytes : BoxedSlice
  pub is_absolute : Bool

unfoldable pub open_at : FilePath → ℕ → PathOp
open_at p flags = record { dir = dir_of p.is_absolute; path = p.bytes; flags = flags; mode = 0 }

unfoldable pub mk_dir_at : FilePath → PathOp
mk_dir_at p = record { dir = dir_of p.is_absolute; path = p.bytes; flags = 0; mode = 0 }

-- The builder method `mode` of both.
unfoldable pub with_mode : ℕ → PathOp → PathOp
with_mode m p = record p { mode = m }

unfoldable pub unlink_at : FilePath → PathOp
unlink_at p = record { dir = dir_of p.is_absolute; path = p.bytes; flags = 0; mode = 0 }

-- `UnlinkAt::dir`: `AT_REMOVEDIR`.
unfoldable pub dir : PathOp → PathOp
dir p = record p { flags = 0x200 }

unfoldable pub link_absolute : FilePath → FilePath → LinkAt
link_absolute a b = record {
  from_fd = no_dir;
  from_path = a.bytes;
  to_fd = no_dir;
  to_path = b.bytes;
}

unfoldable pub link_relative : FilePath → FilePath → LinkAt
link_relative a b = record {
  from_fd = at_fdcwd;
  from_path = a.bytes;
  to_fd = at_fdcwd;
  to_path = b.bytes;
}

unfoldable pub symlink_at : FilePath → FilePath → SymlinkAt
symlink_at path target = record {
  dir = dir_of path.is_absolute;
  path = path.bytes;
  target = target.bytes;
}
