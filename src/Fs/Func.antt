-- ===== src/Fs/Func.antt =====
-- crates/inel/src/fs/func.rs. The slot that a function reserves comes from the ring's register, which
-- it gives the slot back to when it ends, also where it panics.
pub mod Slots
pub mod Paths
mod Tests
use inel.Base.{
  ℕ, Bool, true, false, Option, none, some, List, [], ◌∷◌, ◌==◌, if◌then◌else◌, Outcome, done,
  panic, assertion_failed, unwrap_failed, ◌>>=◌,
}
use inel.RingResult.{RingResult}
use inel.IoUring.{Entry}
use inel.Register
use inel.Register.{SlotRegister}
use inel.Buffer.{StableBuffer}
use inel.Op.{chain}
use inel.Op.Results.{Result, ok, err, expect_zero, expect_positive}
use inel.Op.Call.{Call, await, submits, gives}
use inel.Op.Link.{PathOp, open_direct_op, link_op, symlink_op, unlink_op}
use inel.Op.Paths.{FilePath, open_at, with_mode, unlink_at, dir, link_absolute, symlink_at}
use inel.Op.Transfer
use inel.Op.Transfer.{Transfer, read_op, write_op}
use inel.Source.{of_slot}

-- The functions on paths that await one operation; `ptr` is where its cancellation would collect.
unfoldable pub hard_link : FilePath → FilePath → ℕ → Call (Result (Unit {0}))
unfolding link_absolute
hard_link path target ptr = await (link_op ptr) (link_absolute path target)

unfoldable pub soft_link : FilePath → FilePath → ℕ → Call (Result (Unit {0}))
unfolding symlink_at
soft_link path target ptr = await (symlink_op ptr) (symlink_at path target)

unfoldable pub remove_file : FilePath → Call (Result (Unit {0}))
unfolding unlink_at
remove_file path = await unlink_op (unlink_at path)

unfoldable pub remove_dir : FilePath → Call (Result (Unit {0}))
unfolding unlink_at dir
remove_dir path = await unlink_op (dir (unlink_at path))

-- `O_WRONLY`, and with `O_CREAT` and `O_TRUNC`; `O_RDWR`.
abbrev pub wronly : ℕ
wronly = 0x1

abbrev pub rewrites : ℕ
rewrites = 0x241

abbrev pub rdwr : ℕ
rdwr = 0x2

-- What the kernel answers to an entry, and to two that are submitted together.
pub record Machine : Type 1 where
  pub World : Type 0
  pub perform : Entry → World → RingResult × World
  pub perform_both : Entry → Entry → World → (RingResult × RingResult) × World

module _ (M : Machine) where
  open M use {World, perform, perform_both}

  -- The value or the panic, and what is left.
  pub record Ran (A : Type 0) : Type 0 where
    pub outcome : Outcome A
    pub world : World
    pub slots : SlotRegister

  -- `OwnedDirect::reserve().unwrap()` in front of a body, and the drop of `direct` at its end.
  unfoldable pub reserved :
      {A : Type 0} → World → Option ℕ × SlotRegister → (ℕ → World → Outcome A × World) → Ran A
  reserved w (none, slots) body = record { outcome = panic unwrap_failed; world = w; slots = slots }
  reserved w (some slot, slots) body =
      let (outcome, w') = body slot w in
      record { outcome = outcome; world = w'; slots = Register.remove slots slot }

  unfoldable pub with_slot :
      {A : Type 0} → World → SlotRegister → (ℕ → World → Outcome A × World) → Ran A
  unfolding reserved
  with_slot w slots body = reserved w (Register.get slots) body

  unfoldable pub is_ok : {A : Type 0} → Result A → Bool
  is_ok (ok a) = true
  is_ok (err e) = false

  unfoldable pub exists : FilePath → World → SlotRegister → Ran Bool
  unfolding is_ok with_slot submits gives
  exists path w slots = with_slot w slots (λ slot w.
      let opening = await (open_direct_op slot) (open_at path wronly) in
      let (res, w') = perform (submits opening) w in
      (gives opening res >>= λ opened. done (is_ok opened), w'))

  module _ (B : StableBuffer) where
    -- The two `btry!` at the end of a body, with what is made of the number of bytes.
    unfoldable pub btry :
        {A : Type 0}
        → B.Buf
        → Result (Unit {0})
        → Result ℕ
        → (ℕ → Outcome (B.Buf × Result A))
        → Outcome (B.Buf × Result A)
    btry buf (err e) moved k = done (buf, err e)
    btry buf (ok u) (err e) k = done (buf, err e)
    btry buf (ok u) (ok n) k = k n

    unfoldable pub finish_write : B.Buf → ℕ → Outcome (B.Buf × Result (Unit {0}))
    finish_write buf wrote =
        if B.size buf == wrote then done (buf, ok tt) else panic assertion_failed

    -- The entries of `write_buf` and `read_buf`, all chained.
    unfoldable pub write_buf_entries : FilePath → B.Buf → ℕ → Entry × Entry
    unfolding of_slot open_at with_mode chain
    write_buf_entries path buf slot = (
      ((chain (open_direct_op slot)).entry (with_mode 0o666 (open_at path rewrites))).0,
      ((chain (write_op B)).entry (Transfer.new B (of_slot slot) buf)).0,
    )

    unfoldable pub read_buf_entries : FilePath → B.Buf → ℕ → Entry × Entry
    unfolding of_slot open_at chain
    read_buf_entries path buf slot = (
      ((chain (open_direct_op slot)).entry (open_at path rdwr)).0,
      ((chain (read_op B)).entry (Transfer.new B (of_slot slot) buf)).0,
    )

    -- The end of `write_buf` and of `read_buf`, on the answers to both entries.
    unfoldable pub written : B.Buf → RingResult × RingResult → Outcome (B.Buf × Result (Unit {0}))
    unfolding btry finish_write
    written buf (r, s) = do
      opened ← expect_zero r
      wrote ← expect_positive s
      btry buf opened wrote (finish_write buf)

    unfoldable pub was_read : B.Buf → RingResult × RingResult → Outcome (B.Buf × Result ℕ)
    unfolding btry
    was_read buf (r, s) = do
      opened ← expect_zero r
      count ← expect_positive s
      btry buf opened count (λ n. done (buf, ok n))

    unfoldable pub both :
        {A : Type 0}
        → (ℕ → Entry × Entry)
        → (RingResult × RingResult → Outcome A)
        → ℕ
        → World
        → Outcome A × World
    both entries finish slot w =
        let (answers, w') = perform_both (entries slot).0 (entries slot).1 w in (finish answers, w')

    unfoldable pub write_buf :
        FilePath → B.Buf → World → SlotRegister → Ran (B.Buf × Result (Unit {0}))
    unfolding with_slot both
    write_buf path buf w slots = with_slot w slots (both (write_buf_entries path buf) (written buf))

    unfoldable pub read_buf : FilePath → B.Buf → World → SlotRegister → Ran (B.Buf × Result ℕ)
    unfolding with_slot both
    read_buf path buf w slots = with_slot w slots (both (read_buf_entries path buf) (was_read buf))
