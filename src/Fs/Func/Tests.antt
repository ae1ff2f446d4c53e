-- ===== src/Fs/Func/Tests.antt =====
-- A file that is written through a slot, and a path that is not absolute.
use inel.Base.{ℕ, [], ◌≡◌, ◌≢◌, ◌↔◌, refl, true, false, done, panic, assertion_failed, arith}
use inel.Base.Int.{pos}
use inel.Cancellation.{BoxedSlice}
use inel.Register
use inel.Register.{SlotRegister}
use inel.Register.Lending.{Lent, new-Lent}
use inel.Buffer.{boxed_buffer}
use inel.Op.Results.{ok}
use inel.Op.Paths.{FilePath}
use inel.Fs.{OpenOptions}
use inel.Fs.Func.{Machine, write_buf}
use inel.Fs.Func.Slots.{write_buf-succeeds_iff}

-- Opens every file and writes 300 bytes.
abbrev disk : Machine
disk = record {
  World = ℕ;
  perform = λ e w. (record { ret = pos 0; flags = 0 }, w);
  perform_both =
      λ e f w. ((record { ret = pos 0; flags = 0 }, record { ret = pos 300; flags = 0 }), w);
}

abbrev contents : BoxedSlice
contents = record { address = 8192; length = 512 }

abbrev file_name : FilePath
file_name = record { bytes = record { address = 4096; length = 6 }; is_absolute = false }

slots-Lent : Lent (Register.new 4) []
slots-Lent = new-Lent 4 (omega arith)

write_buf-succeeds_iff_example :
    unfold boxed_buffer in
    let ran = write_buf disk boxed_buffer file_name contents 0 (Register.new 4) in
    ((ran.outcome ≡ done (contents, ok tt)) ↔ ((pos 0 ≡ pos 0) × (pos 300 ≡ pos 512)))
    × ((ran.outcome ≡ panic assertion_failed)
        ↔ ((pos 0 ≡ pos 0) × ((n : ℕ) × (pos 300 ≡ pos n) × (n ≢ 512))))
    × Lent ran.slots []
unfolding boxed_buffer Register.new Register.get Register.take_fresh
write_buf-succeeds_iff_example =
    write_buf-succeeds_iff disk boxed_buffer file_name contents 0 (Register.new 4) [] slots-Lent
      refl

abbrev as_new : OpenOptions
as_new = record {
  read = false;
  write = true;
  append = false;
  create = true;
  truncate = false;
  direct = false;
  permissions = record { raw = 0o600 };
}
