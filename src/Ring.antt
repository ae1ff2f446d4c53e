-- ===== src/Ring.antt =====
-- `Ring` of crates/inel-reactor/src/ring/mod.rs: it submits entries, counts them, and hands their
-- completions to the completion set. Its counters are `u32`s.
pub mod Counts
pub mod Want
pub mod Delivery
pub mod Waiting
pub mod Reached
pub mod Slots
pub mod Fixed
pub mod Options
pub mod Examples
mod Tests
use inel.Base.{
  ℕ, ◌+◌, ◌-◌, ◌*◌, ◌%◌, ◌^◌, Bool, true, false, not, ◌&&◌, Option, none, some, List, [], ◌∷◌, ◌++◌,
  ltb, ◌==◌, if◌then◌else◌, Outcome, done, expect, queue_full, failed_to_wait, ◌>>=◌,
}
use inel.RingResult.{Cqueue, Cqe, RingResult, from_completion, has_more}
use inel.Cancellation.{Cancellation, Effect}
use inel.Slab.{Slab}
use inel.IoUring.{IoUring, Entry, Registration, buffer_update}
use inel.Register
use inel.Register.{SlotRegister}
use inel.Key
use inel.Completion
use inel.Completion.{Completion, CompletionSet}

abbrev pub ignore_key : ℕ
ignore_key = 2 ^ 64 - 1 - 1

-- `+= 1` and `-= 1` on a `u32`.
abbrev pub increment : ℕ → ℕ
increment n = (n + 1) % 2 ^ 32

abbrev pub decrement : ℕ → ℕ
decrement n = (n + 2 ^ 32 - 1) % 2 ^ 32

-- `io::Result` of the calls that hand out slots.
pub data IoResult {ℓ} (A : Type ℓ) : Type ℓ where
  ok : A → IoResult A
  no_slots : IoResult A
  io_error : IoResult A

module _ (Q : Cqueue) (U : IoUring) (S : Slab Completion) where
  open U use {Instance, push}

  pub record Ring : Type 0 where
    pub ring : Instance
    pub active : ℕ
    pub detached : ℕ
    pub canceled : ℕ
    pub completions : CompletionSet S
    pub direct_files : SlotRegister
    pub fixed_buffers : SlotRegister
    pub buffer_groups : SlotRegister

  -- The ring, the value and the effects that a method leaves.
  pub record After (A : Type 0) : Type 0 where
    pub ring : Ring
    pub value : A
    pub effects : List Effect

  unfoldable pub is_done : Ring → Bool
  is_done r =
      (r.active + r.detached) % 2 ^ 32 == 0
      && Completion.is_empty S r.completions
      && Register.is_full r.direct_files
      && Register.is_full r.fixed_buffers
      && Register.is_full r.buffer_groups

  -- The new key.
  unfoldable pub submit : Ring → Entry → ℕ → Outcome (Ring × ℕ)
  submit r entry waker = do
    let (key, completions) = Completion.insert S r.completions waker
    ring ← expect queue_full (push (record entry { user_data = Key.as_u64 key }) r.ring)
    done (record r { ring = ring; completions = completions; active = increment r.active }, key)

  unfoldable pub submit_detached : Ring → Entry → Outcome Ring
  submit_detached r entry = do
    ring ← expect queue_full (push (record entry { user_data = ignore_key }) r.ring)
    done (record r { ring = ring; detached = increment r.detached })

  -- The entry that cancels, if there is one, is pushed and counted.
  push_cancel : Ring → Option Entry → Outcome Ring
  push_cancel r none = done r
  push_cancel r (some entry) = do
    ring ← expect queue_full (push (record entry { user_data = ignore_key }) r.ring)
    done
        (record r { ring = ring; detached = increment r.detached; canceled = increment r.canceled })

  unfoldable pub cancel : Ring → ℕ → Option Entry → Cancellation → Outcome (After (Unit {0}))
  unfolding push_cancel
  cancel r key entry c = do
    d ← Completion.cancel S r.completions key c
    let dropped = record r { completions = d.set }
    ring ← if d.value then push_cancel dropped entry else done dropped
    done (record { ring = ring; value = tt; effects = d.effects })

  unfoldable pub check_result : Ring → ℕ → Outcome (After (Option RingResult))
  check_result r key = do
    d ← Completion.result S r.completions key
    done (record { ring = record r { completions = d.set }; value = d.value; effects = d.effects })

  -- How many completions `submit_and_wait` asks the kernel for.
  unfoldable pub want : Ring → ℕ
  want r =
      let wanted =
        if r.active == r.canceled
        then (2 * r.canceled) % 2 ^ 32
        else (1 + (2 * r.canceled) % 2 ^ 32) % 2 ^ 32 in
      if wanted == 0 && ltb 0 r.detached then r.detached else wanted

  unfoldable pub submit_and_wait : Ring → Outcome Ring
  unfolding want
  submit_and_wait r = if (r.active + r.detached) % 2 ^ 32 == 0 then done r else (do
    ring ← expect failed_to_wait (U.submit_and_wait (want r) r.ring)
    done (record r { ring = ring; canceled = 0 }))

  -- The body of the loop in `handle_completions`.
  unfoldable pub handle_completion : Ring → Cqe → Outcome (After (Unit {0}))
  handle_completion r entry =
      if entry.user_data == ignore_key
      then done
          (record { ring = record r { detached = decrement r.detached }; value = tt; effects = [] })
      else (do
        let result = from_completion entry
        let active = if has_more Q result then r.active else decrement r.active
        d ← Completion.notify S Q r.completions (Key.from_u64 entry.user_data) result
        done (record {
          ring = record r { active = active; completions = d.set };
          value = tt;
          effects = d.effects;
        }))

  unfoldable pub handle_all : Ring → List Cqe → Outcome (After (Unit {0}))
  handle_all r [] = done (record { ring = r; value = tt; effects = [] })
  handle_all r (entry ∷ entries) = do
    first ← handle_completion r entry
    others ← handle_all first.ring entries
    done (record { ring = others.ring; value = tt; effects = first.effects ++ others.effects })

  unfoldable pub handle_completions : Ring → Outcome (After (Unit {0}))
  unfolding handle_all
  handle_completions r =
      let (entries, ring) = U.completion r.ring in handle_all (record r { ring = ring }) entries

  unfoldable pub wait : Ring → Outcome (After (Unit {0}))
  wait r = do submitted ← submit_and_wait r; handle_completions submitted

  -- A slot, or the error that none is left.
  abbrev slot_or_error : Option ℕ → IoResult ℕ
  slot_or_error none = no_slots
  slot_or_error (some slot) = ok slot

  -- The slot is not given back when the kernel refuses the buffer.
  pub register_slot : Ring → ℕ → ℕ → Option ℕ × SlotRegister → Ring × IoResult ℕ
  register_slot r ptr size (none, slots) = (record r { fixed_buffers = slots }, no_slots)
  register_slot r ptr size (some slot, slots) =
      elim (U.register (buffer_update slot ptr size) r.ring) [
        | none ↦ (record r { fixed_buffers = slots }, io_error)
        | some ring ↦ (record r { ring = ring; fixed_buffers = slots }, ok slot)
      ]

  unfoldable pub register_buffer : Ring → ℕ → ℕ → Ring × IoResult ℕ
  unfolding register_slot
  register_buffer r ptr size = register_slot r ptr size (Register.get r.fixed_buffers)

  unfoldable pub unregister_buffer : Ring → ℕ → Ring
  unregister_buffer r slot = record r { fixed_buffers = Register.remove r.fixed_buffers slot }

  unfoldable pub get_direct_slot : Ring → Ring × IoResult ℕ
  get_direct_slot r =
      let (slot, slots) = Register.get r.direct_files in
      (record r { direct_files = slots }, slot_or_error slot)

  unfoldable pub release_direct_slot : Ring → ℕ → Ring
  release_direct_slot r slot = record r { direct_files = Register.remove r.direct_files slot }

  unfoldable pub get_buffer_group : Ring → Ring × IoResult ℕ
  get_buffer_group r =
      let (slot, slots) = Register.get r.buffer_groups in
      (record r { buffer_groups = slots }, slot_or_error slot)

  unfoldable pub release_buffer_group : Ring → ℕ → Ring
  release_buffer_group r slot = record r { buffer_groups = Register.remove r.buffer_groups slot }
