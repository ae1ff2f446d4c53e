-- ===== src/Fs.antt =====
-- crates/inel/src/fs/file.rs: what the options, the modes and the times of files are to the kernel.
-- The constants are those of Linux on x86-64.
pub mod Modes
pub mod Times
pub mod File
pub mod DirectFile
pub mod Func
pub mod Opened
pub mod Dirs
mod Tests
use Prim.Native.Nat.{bit_and, bit_or}
use inel.Base.{
  ℕ, suc, ◌+◌, ◌-◌, ◌*◌, ◌^◌, Bool, true, false, not, ltb, ◌==◌, if◌then◌else◌, Option, none, some,
  Outcome, done, panic, assertion_failed,
}
use inel.Base.Int.{ℤ, pos, negsuc}

pub record Permissions : Type 0 where
  pub raw : ℕ

pub data Permission : Type 0 where
  user_read user_write user_execute : Permission
  group_read group_write group_execute : Permission
  other_read other_write other_execute : Permission

unfoldable pub raw_flag : Permission → ℕ
raw_flag p = elim p [
  | user_read ↦ 0o400
  | user_write ↦ 0o200
  | user_execute ↦ 0o100
  | group_read ↦ 0o40
  | group_write ↦ 0o20
  | group_execute ↦ 0o10
  | other_read ↦ 0o4
  | other_write ↦ 0o2
  | other_execute ↦ 0o1
]

unfoldable pub get : Permissions → Permission → Bool
unfolding raw_flag
get s which = not (bit_and s.raw (raw_flag which) == 0)

unfoldable pub set : Permissions → Permission → Permissions
unfolding raw_flag
set s which = record { raw = bit_or s.raw (raw_flag which) }

-- `!` of 32 bits.
unfoldable pub unset : Permissions → Permission → Permissions
unfolding raw_flag
unset s which = record { raw = bit_and s.raw (2 ^ 32 - 1 - raw_flag which) }

pub record OpenOptions : Type 0 where
  pub read : Bool
  pub write : Bool
  pub append : Bool
  pub create : Bool
  pub truncate : Bool
  pub direct : Bool
  pub permissions : Permissions

unfoldable pub new : OpenOptions
new = record {
  read = false;
  write = false;
  append = false;
  create = false;
  truncate = false;
  direct = false;
  permissions = record { raw = bit_or 0o444 0o222 };
}

unfoldable pub with_flag : Bool → ℕ → ℕ → ℕ
with_flag b flag flags = if b then bit_or flags flag else flags

unfoldable pub raw_opts : OpenOptions → ℕ × ℕ
unfolding with_flag
raw_opts o =
    let access = if o.read then (if o.write then 2 else 0) else if o.write then 1 else 0 in
    let appended = with_flag o.append 0x400 (bit_or 0 access) in
    let created = with_flag o.create 0x40 appended in
    let truncated = with_flag o.truncate 0x200 created in
    (with_flag o.direct 0x4000 truncated, o.permissions.raw)

-- The mode of `Metadata` by its type.
unfoldable pub file_type : ℕ → ℕ
file_type mode = bit_and mode 0o170000

unfoldable pub is_dir : ℕ → Bool
unfolding file_type
is_dir mode = file_type mode == 0o40000

unfoldable pub is_file : ℕ → Bool
unfolding file_type
is_file mode = file_type mode == 0o100000

unfoldable pub is_symlink : ℕ → Bool
unfolding file_type
is_symlink mode = file_type mode == 0o120000

unfoldable pub is_block_device : ℕ → Bool
unfolding file_type
is_block_device mode = file_type mode == 0o60000

unfoldable pub is_char_device : ℕ → Bool
unfolding file_type
is_char_device mode = file_type mode == 0o20000

unfoldable pub is_fifo : ℕ → Bool
unfolding file_type
is_fifo mode = file_type mode == 0o10000

unfoldable pub is_socket : ℕ → Bool
unfolding file_type
is_socket mode = file_type mode == 0o140000

-- `statx_timestamp`: an `i64` of seconds, and nanoseconds.
pub record Timestamp : Type 0 where
  pub tv_sec : ℤ
  pub tv_nsec : ℕ

-- Nanoseconds to a second.
abbrev pub giga : ℕ
giga = 10 ^ 9

-- `UNIX_EPOCH.checked_add` and `.checked_sub` of `Duration::new(sec, nsec)`: a `SystemTime` is its
-- distance to the epoch in nanoseconds, whose seconds, rounded down, have to fit an `i64`.
unfoldable pub checked_add : ℕ → ℕ → Option ℤ
checked_add sec nsec =
    let n = sec * giga + nsec in if ltb n (2 ^ 63 * giga) then some (pos n) else none

unfoldable pub checked_sub : ℕ → ℕ → Option ℤ
checked_sub sec nsec =
    let n = sec * giga + nsec in
    if n == 0 then some (pos 0) else if ltb (2 ^ 63 * giga) n then none else some (negsuc (n - 1))

-- `Metadata::convert_timestamp`; `none` is the error. Where `-sec` has no `i64`, it wraps around to
-- what as a `u64` is its distance to 0.
unfoldable pub convert_timestamp : Timestamp → Option ℤ
unfolding checked_add checked_sub
convert_timestamp t = elim t.tv_sec [
  | pos sec ↦ checked_add sec t.tv_nsec
  | negsuc n ↦ checked_sub (suc n) t.tv_nsec
]
