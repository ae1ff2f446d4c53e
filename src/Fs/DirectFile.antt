-- ===== src/Fs/DirectFile.antt =====
-- `DirectFile` of crates/inel/src/fs/file.rs: each method awaits one operation.
use inel.Base.{ℕ, true, false}
use inel.Base.Int.{pos}
use inel.IoUring.{Target}
use inel.Buffer.{unbounded}
use inel.Op.Results.{Result, map_result}
use inel.Op.Call.{Call, await}
use inel.Op.File.{fsync_op, ftruncate_op, fadvise_op}
use inel.Op.Socket.{install_slot_op}
use inel.Source.{as_source, as_slot}
use inel.Fs.File.{File, DirectFile, from_raw_fd, Advice, raw_advice}

-- `ReadSource for DirectFile` and `WriteSource for DirectFile`.
unfoldable pub read_source : DirectFile → Target
read_source f = as_source f.direct

unfoldable pub sync_data : DirectFile → Call (Result (Unit {0}))
sync_data f = await fsync_op (record { src = as_source f.direct; meta = false })

unfoldable pub sync_all : DirectFile → Call (Result (Unit {0}))
sync_all f = await fsync_op (record { src = as_source f.direct; meta = true })

unfoldable pub truncate_to : DirectFile → ℕ → Call (Result (Unit {0}))
truncate_to f len = await ftruncate_op (record { src = as_source f.direct; len = len })

unfoldable pub advise : DirectFile → Advice → Call (Result (Unit {0}))
unfolding raw_advice
advise f a = await fadvise_op (record {
  src = as_source f.direct;
  advice = raw_advice a;
  range = record { start_bound = unbounded; end_bound = unbounded };
})

unfoldable pub make_regular : DirectFile → Call (Result File)
unfolding from_raw_fd
make_regular f = record {
  op = install_slot_op;
  self = as_slot f.direct;
  finish = map_result (λ n. from_raw_fd (pos n));
}
