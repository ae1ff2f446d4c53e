-- ===== src/Fs/Tests.antt =====
-- Modes and times of concrete files.
use inel.Base.{◌*◌, ◌^◌, ◌-◌, ◌≡◌, ◌↔◌, ◌⊎◌, refl, true, false, not, ◌&&◌, ◌||◌, some, arith}
use inel.Base.Int.{negsuc}
use inel.Fs.{
  Permissions, user_read, other_write, get, set, unset, OpenOptions, Timestamp, convert_timestamp,
}
use inel.Fs.Modes.{has, place, same, get-set}
use inel.Fs.Times.{instant, IsValid, IsAfterEpoch, FitsWord, convert_timestamp-instant}

abbrev readable : Permissions
readable = record { raw = 0o444 }

get-set_example :
    (get readable user_read ≡ has 0o444 (2 ^ place user_read))
    × (get (set readable other_write) user_read
        ≡ (same user_read other_write || get readable user_read))
    × (get (unset readable other_write) user_read
        ≡ (not (same user_read other_write) && get readable user_read))
get-set_example = get-set user_read other_write readable (omega arith)

abbrev appending : OpenOptions
appending = record {
  read = false;
  write = true;
  append = true;
  create = true;
  truncate = false;
  direct = false;
  permissions = readable;
}

-- A second and a half before the epoch.
abbrev before_epoch : Timestamp
before_epoch = record { tv_sec = negsuc 1; tv_nsec = 5 * 10 ^ 8 }

one_second_early :
    (instant before_epoch ≡ negsuc (15 * 10 ^ 8 - 1))
    × (convert_timestamp before_epoch ≡ some (negsuc (25 * 10 ^ 8 - 1)))
unfolding instant convert_timestamp
one_second_early = (refl, refl)

convert_timestamp-instant_example :
    (convert_timestamp before_epoch ≡ some (instant before_epoch))
    ↔ (IsAfterEpoch before_epoch ⊎ (before_epoch.tv_nsec ≡ 0))
unfolding IsValid FitsWord
convert_timestamp-instant_example =
    convert_timestamp-instant before_epoch (omega arith, omega arith)
