-- ===== src/Fs/File.antt =====
-- `File` and `OpenOptions::open` of crates/inel/src/fs/file.rs: each method awaits one operation.
use inel.Base.{ℕ, Bool, true, false}
use inel.Base.Int.{ℤ, pos}
use inel.IoUring.{Target}
use inel.Buffer.{unbounded}
use inel.Op.Results.{Result, map_result}
use inel.Op.Call.{Call, await}
use inel.Op.Link.{PathOp, open_op, open_auto_op}
use inel.Op.File.{fsync_op, ftruncate_op, fadvise_op, statx_op}
use inel.Op.Net.{register_file_op}
use inel.Op.Paths.{FilePath, open_at, with_mode}
use inel.Source.{OwnedFd, OwnedDirect, of_fd, from_raw_slot, auto}
use inel.Fs.{OpenOptions, new, raw_opts}

pub record File : Type 0 where
  pub fd : OwnedFd

pub record DirectFile : Type 0 where
  pub direct : OwnedDirect

unfoldable pub from_direct : OwnedDirect → DirectFile
from_direct d = record { direct = d }

-- `FromRawFd for File`.
unfoldable pub from_raw_fd : ℤ → File
from_raw_fd n = record { fd = record { raw = n } }

-- `AsRawFd for File`.
unfoldable pub as_raw_fd : File → ℤ
as_raw_fd f = f.fd.raw

-- `ReadSource for File` and `WriteSource for File`.
unfoldable pub read_source : File → Target
read_source f = of_fd f.fd.raw

-- The builder methods of `OpenOptions`.
unfoldable pub readable : Bool → OpenOptions → OpenOptions
readable b o = record o { read = b }

unfoldable pub writable : Bool → OpenOptions → OpenOptions
writable b o = record o { write = b }

unfoldable pub create : Bool → OpenOptions → OpenOptions
create b o = record o { create = b }

unfoldable pub truncate : Bool → OpenOptions → OpenOptions
truncate b o = record o { truncate = b }

unfoldable pub append : Bool → OpenOptions → OpenOptions
append b o = record o { append = b }

-- `OpenAt::new(path, flags).mode(mode)`.
unfoldable pub opening : OpenOptions → FilePath → PathOp
unfolding raw_opts open_at with_mode
opening o path = let (flags, mode) = raw_opts o in with_mode mode (open_at path flags)

unfoldable pub open_with : OpenOptions → FilePath → Call (Result File)
unfolding opening from_raw_fd
open_with o path = record {
  op = open_op;
  self = opening o path;
  finish = map_result (λ n. from_raw_fd (pos n));
}

unfoldable pub open_direct_with : OpenOptions → FilePath → Call (Result DirectFile)
unfolding opening from_direct from_raw_slot
open_direct_with o path = record {
  op = open_auto_op;
  self = opening o path;
  finish = map_result (λ n. from_direct (auto (from_raw_slot n)));
}

-- `File::open`, `File::create` and their kin.
unfoldable pub open_file : FilePath → Call (Result File)
unfolding open_with readable new
open_file path = open_with (readable true new) path

unfoldable pub create_file : FilePath → Call (Result File)
unfolding open_with create writable new
create_file path = open_with (writable true (create true new)) path

unfoldable pub open_direct : FilePath → Call (Result DirectFile)
unfolding open_direct_with readable new
open_direct path = open_direct_with (readable true new) path

unfoldable pub create_direct : FilePath → Call (Result DirectFile)
unfolding open_direct_with create writable new
create_direct path = open_direct_with (writable true (create true new)) path

-- `STATX_BASIC_STATS | STATX_BTIME`; `stats` is the address of the box that the kernel fills.
unfoldable pub metadata : File → ℕ → Call (Result ℕ)
metadata f stats = await statx_op (record { dir = f.fd.raw; mask = 0xfff; stats = stats })

unfoldable pub sync_data : File → Call (Result (Unit {0}))
sync_data f = await fsync_op (record { src = of_fd f.fd.raw; meta = false })

unfoldable pub sync_all : File → Call (Result (Unit {0}))
sync_all f = await fsync_op (record { src = of_fd f.fd.raw; meta = true })

unfoldable pub truncate_to : File → ℕ → Call (Result (Unit {0}))
truncate_to f len = await ftruncate_op (record { src = of_fd f.fd.raw; len = len })

pub data Advice : Type 0 where
  normal sequential random : Advice

-- `Advice::as_raw`.
unfoldable pub raw_advice : Advice → ℕ
raw_advice normal = 0
raw_advice random = 1
raw_advice sequential = 2

unfoldable pub advise : File → Advice → Call (Result (Unit {0}))
unfolding raw_advice
advise f a = await fadvise_op (record {
  src = of_fd f.fd.raw;
  advice = raw_advice a;
  range = record { start_bound = unbounded; end_bound = unbounded };
})

-- `here` is the address of the field that the operation keeps the descriptor in, a number that is
-- not negative.
unfoldable pub make_direct : ℕ → ℕ → Call (Result DirectFile)
unfolding from_direct from_raw_slot
make_direct raw here = record {
  op = register_file_op;
  self = record { here = here; fd = raw };
  finish = map_result (λ n. from_direct (auto (from_raw_slot n)));
}
