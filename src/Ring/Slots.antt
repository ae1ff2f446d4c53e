-- ===== src/Ring/Slots.antt =====
-- The slots that a ring lends, and when it is done.
use inel.Base.{
  ℕ, ◌<◌, ◌≡◌, ◌≢◌, ◌↔◌, refl, true, false, Bool-cases, inl, inr, Option, none, some, List, [], ◌∷◌,
  count, arith,
}
use inel.RingResult.{Cqueue}
use inel.Slab
use inel.Slab.{Slab}
use inel.IoUring.{IoUring, buffer_update}
use inel.Register
use inel.Register.{SlotRegister}
use inel.Register.Lending.{Lent, get-Lends, is_full_iff}
use inel.Completion.{Completion}
use inel.Completion.Refine.{is_empty-eq}
use inel.Ring.{Ring, ok, io_error, is_done, register_buffer, register_slot}
use inel.Ring.Counts.{Counts}

cons_ne : {x : ℕ} {xs : List ℕ} → (x ∷ xs) ≢ []
cons_ne e = cc

module _ (Q : Cqueue) (U : IoUring) (S : Slab Completion) where
  -- A ring with the slots of each kind that are lent out.
  pub record Lending (r : Ring Q U S) (files buffers groups : List ℕ) : Type 0 where
    pub counts : Counts Q U S r
    pub direct_files : Lent r.direct_files files
    pub fixed_buffers : Lent r.fixed_buffers buffers
    pub buffer_groups : Lent r.buffer_groups groups

  -- A ring whose counters are right is done exactly when nothing is in flight or detached, the
  -- completion set holds no entry, and no slot of any kind is lent.
  pub is_done_iff :
      {r : Ring Q U S} {files buffers groups : List ℕ}
      → Lending r files buffers groups
      → (is_done Q U S r ≡ true) ↔ (
          (r.active ≡ 0)
          × (r.detached ≡ 0)
          × (Slab.len S r.completions.slab ≡ 0)
          × (files ≡ [])
          × (buffers ≡ [])
          × (groups ≡ []))
  unfolding is_done Slab.is_empty
  is_done_iff {r} {files} {buffers} {groups} l = ground (
    arith,
    l.counts.small,
    is_empty-eq S l.counts.valid,
    is_full_iff r.direct_files files l.direct_files,
    is_full_iff r.fixed_buffers buffers l.fixed_buffers,
    is_full_iff r.buffer_groups groups l.buffer_groups,
  )

  -- Lending follows the register of fixed buffers, whatever else of the kernel changes.
  pub Lending-buffers :
      {r : Ring Q U S} {files buffers groups lent : List ℕ} {slots : SlotRegister}
      (ring : U.Instance)
      → Lending r files buffers groups
      → Lent slots lent
      → Lending (record r { ring = ring; fixed_buffers = slots }) files lent groups
  Lending-buffers ring l lent = record {
    counts = record {
      valid = l.counts.valid;
      active = l.counts.active;
      canceled = l.counts.canceled;
      detached = l.counts.detached;
      small = l.counts.small;
    };
    direct_files = l.direct_files;
    fixed_buffers = lent;
    buffer_groups = l.buffer_groups;
  }

  -- What the ring becomes when a slot is found.
  pub accepted :
      (r : Ring Q U S) (ptr size slot : ℕ) (o : Option ℕ) (slots : SlotRegister) {ring : U.Instance}
      → o ≡ some slot
      → U.register (buffer_update slot ptr size) r.ring ≡ some ring
      → register_slot Q U S r ptr size (o, slots)
        ≡ (record r { ring = ring; fixed_buffers = slots }, ok slot)
  unfolding register_slot
  accepted r ptr size slot none slots o e = cc
  accepted r ptr size slot (some i) slots o e =
      let same : i ≡ slot = cc in rw (same, register_slot, e) (cc same)

  pub refused :
      (r : Ring Q U S) (ptr size slot : ℕ) (o : Option ℕ) (slots : SlotRegister)
      → o ≡ some slot
      → U.register (buffer_update slot ptr size) r.ring ≡ none
      → register_slot Q U S r ptr size (o, slots) ≡ (record r { fixed_buffers = slots }, io_error)
  unfolding register_slot
  refused r ptr size slot none slots o e = cc
  refused r ptr size slot (some i) slots o e =
      let same : i ≡ slot = cc in rw (same, register_slot, e) refl

  -- On a ring whose counters and slots are right, a buffer that finds a vacant slot and that the
  -- kernel accepts gets that slot, which was lent to nobody and is lent from then on.
  pub register_buffer_lends :
      {r : Ring Q U S} {files buffers groups : List ℕ} (ptr size : ℕ) {slot : ℕ} {ring : U.Instance}
      → Lending r files buffers groups
      → (Register.get r.fixed_buffers).0 ≡ some slot
      → U.register (buffer_update slot ptr size) r.ring ≡ some ring
      → ((register_buffer Q U S r ptr size).1 ≡ ok slot)
        × Lending (register_buffer Q U S r ptr size).0 files (slot ∷ buffers) groups
        × (count slot buffers ≡ 0)
        × (slot < r.fixed_buffers.size)
  unfolding register_buffer register_slot
  register_buffer_lends {r} {buffers = buffers} ptr size {slot} l g e =
      let (lent, fresh, small) = get-Lends r.fixed_buffers buffers l.fixed_buffers g in
      rw
        (accepted r ptr size slot (Register.get r.fixed_buffers).0 (Register.get r.fixed_buffers).1
          g e)
        (refl, Lending-buffers _ l lent, fresh, small)

  -- On a ring whose counters and slots are right, a buffer that finds a vacant slot and that the
  -- kernel refuses leaves the slot lent, although the caller has only the error, and the ring is
  -- then not done.
  pub register_buffer_leaks :
      {r : Ring Q U S} {files buffers groups : List ℕ} (ptr size : ℕ) {slot : ℕ}
      → Lending r files buffers groups
      → (Register.get r.fixed_buffers).0 ≡ some slot
      → U.register (buffer_update slot ptr size) r.ring ≡ none
      → ((register_buffer Q U S r ptr size).1 ≡ io_error)
        × Lending (register_buffer Q U S r ptr size).0 files (slot ∷ buffers) groups
        × (is_done Q U S (register_buffer Q U S r ptr size).0 ≡ false)
  unfolding register_buffer register_slot
  register_buffer_leaks {r} {buffers = buffers} ptr size {slot} l g e =
      let (lent, fresh, small) = get-Lends r.fixed_buffers buffers l.fixed_buffers g in
      let lending = Lending-buffers r.ring l lent in
      let busy = is_done_iff lending in
      rw
        (refused r ptr size slot (Register.get r.fixed_buffers).0 (Register.get r.fixed_buffers).1 g
          e)
        (
          refl,
          lending,
          elim (Bool-cases
              (is_done Q U S (record r { fixed_buffers = (Register.get r.fixed_buffers).1 }))) [
                | inl e ↦ let (_, _, _, _, impossible, _) = busy.0 e in absurd (cons_ne impossible)
                | inr e ↦ e
              ],
        )
