-- ===== src/Ring/Fixed.antt =====
-- `Fixed` of crates/inel-reactor/src/buffer.rs: a boxed buffer that a ring knows under a slot, and
-- that gives the slot back when it is dropped.
mod Tests
use inel.Base.{
  ℕ, ◌≡◌, refl, Option, none, some, inl, inr, List, [], ◌∷◌, count, length, Outcome, done, expect,
  unwrap_failed, ◌>>=◌, subst, sym, Option-cases,
}
use inel.RingResult.{Cqueue}
use inel.Cancellation.{Cancellation, Effect, BoxedSlice, of_slice, drop_boxed_slice}
use inel.Slab.{Slab}
use inel.IoUring.{IoUring, buffer_update}
use inel.Register
use inel.Register.{SlotRegister}
use inel.Register.Lending.{Lent, get-Lends, get-same, get_none_iff, remove-Lent}
use inel.Completion.{Completion}
use inel.Buffer.{boxed_buffer, optional_buffer}
use inel.Buffer.Kept.{Keeps, IsKept, boxed_buffer-IsKept}
use inel.Ring.{
  Ring, After, IoResult, ok, no_slots, io_error, register_buffer, register_slot, unregister_buffer,
}
use inel.Ring.Slots.{Lending, Lending-buffers, accepted, refused}

-- `reactor`, the handle of the ring, is the ring that the functions take.
pub record Fixed : Type 0 where
  pub inner : Option BoxedSlice
  pub slot : ℕ

-- `StableBuffer for Fixed`: `as_ref().unwrap()`, and then the boxed slice's.
unfoldable pub stable_ptr : Fixed → Outcome ℕ
stable_ptr f = do b ← expect unwrap_failed f.inner; done b.address

unfoldable pub size : Fixed → Outcome ℕ
size f = do b ← expect unwrap_failed f.inner; done b.length

module _ (Q : Cqueue) (U : IoUring) (S : Slab Completion) where
  -- The buffer is dropped where `?` returns early.
  registered : BoxedSlice → Ring Q U S × IoResult ℕ → After Q U S (IoResult Fixed)
  registered b (r, ok slot) = record {
    ring = r;
    value = ok (record { inner = some b; slot = slot });
    effects = [];
  }
  registered b (r, no_slots) = record { ring = r; value = no_slots; effects = drop_boxed_slice b }
  registered b (r, io_error) = record { ring = r; value = io_error; effects = drop_boxed_slice b }

  unfoldable pub register : Ring Q U S → BoxedSlice → After Q U S (IoResult Fixed)
  unfolding registered
  register r b = registered b (register_buffer Q U S r b.address b.length)

  -- `vec![0; size].into_boxed_slice()` is at an address that the allocator picks.
  unfoldable pub new : Ring Q U S → ℕ → ℕ → After Q U S (IoResult Fixed)
  new r address size = register r (record { address = address; length = size })

  -- `Drop`, and then the drop of the fields.
  unfoldable pub dropped : Ring Q U S → Fixed → Ring Q U S × List Effect
  unfolding optional_buffer
  dropped r f = (unregister_buffer Q U S r f.slot, optional_buffer.dropped f.inner)

  -- `From<Fixed>`: what is left of the value after `take` is dropped.
  unfoldable pub into_cancellation : Ring Q U S → Fixed → Outcome (Ring Q U S × Cancellation)
  unfolding dropped
  into_cancellation r f = do
    b ← expect unwrap_failed f.inner
    done ((dropped r (record f { inner = none })).0, of_slice b)

  -- A buffer `b` that holds a slot of the ring, which gets it back either way.
  pub record Holds (r : Ring Q U S) (files buffers groups : List ℕ) (b : BoxedSlice) (f : Fixed)
      : Type 0 where
    pub lending : Lending Q U S r files (f.slot ∷ buffers) groups
    pub fresh : count f.slot buffers ≡ 0
    pub shown : (stable_ptr f ≡ done b.address) × (size f ≡ done b.length)
    pub drops :
        Lending Q U S (dropped r f).0 files buffers groups × ((dropped r f).1 ≡ drop_boxed_slice b)
    pub cancels :
        (into_cancellation r f ≡ done ((dropped r f).0, of_slice b))
        × Keeps (of_slice b) b.address b.length

  -- What the kernel answers when the buffer is put into the slot.
  abbrev answer : Ring Q U S → BoxedSlice → ℕ → Option U.Instance
  answer r b slot = U.register (buffer_update slot b.address b.length) r.ring

  -- `r` is the ring before. A slot that stays lent after a refusal was lent to nobody.
  unfoldable pub Settles :
      Ring Q U S → List ℕ → List ℕ → List ℕ → BoxedSlice → After Q U S (IoResult Fixed) → Type 0
  Settles r files buffers groups b a = elim a.value [
    | ok f ↦
        Holds a.ring files buffers groups b f
        × (answer r b f.slot ≡ some a.ring.ring)
        × (a.effects ≡ [])
    | no_slots ↦
        Lending Q U S a.ring files buffers groups
        × (length buffers ≡ r.fixed_buffers.size)
        × (a.effects ≡ drop_boxed_slice b)
    | io_error ↦
        ((slot : ℕ) × Lending Q U S a.ring files (slot ∷ buffers) groups
          × (count slot buffers ≡ 0)
          × (answer r b slot ≡ none))
        × (a.effects ≡ drop_boxed_slice b)
  ]

  held :
      {r : Ring Q U S} {files buffers groups : List ℕ} (b : BoxedSlice) (slot : ℕ)
      → Lending Q U S r files (slot ∷ buffers) groups
      → count slot buffers ≡ 0
      → Holds r files buffers groups b (record { inner = some b; slot = slot })
  unfolding stable_ptr size dropped into_cancellation optional_buffer unregister_buffer IsKept
      boxed_buffer
  held {r} {buffers = buffers} b slot l fresh = record {
    lending = l;
    fresh = fresh;
    shown = (refl, refl);
    drops = (
      Lending-buffers Q U S r.ring l (remove-Lent r.fixed_buffers [] slot buffers l.fixed_buffers),
      refl,
    );
    cancels = (refl, boxed_buffer-IsKept b);
  }

  unslotted :
      (r : Ring Q U S) (ptr size : ℕ) (o : Option ℕ) (slots : SlotRegister)
      → o ≡ none
      → register_slot Q U S r ptr size (o, slots) ≡ (record r { fixed_buffers = slots }, no_slots)
  unfolding register_slot
  unslotted r ptr size none slots e = refl
  unslotted r ptr size (some i) slots e = cc

  -- On a ring whose counters and slots are right, registering a buffer gives one that holds a slot
  -- which was lent to nobody, and in which the kernel has accepted the buffer; or, only where all
  -- slots are lent, drops the buffer and lends nothing; or, only where the kernel refuses the buffer
  -- in a slot that was lent to nobody, drops the buffer, and that slot stays lent. The buffer that
  -- holds a slot shows its memory to the kernel, and gives the slot back both when it is dropped,
  -- which frees the memory, and when it becomes a cancellation, which keeps it.
  pub register-Settles :
      {r : Ring Q U S} {files buffers groups : List ℕ} (b : BoxedSlice)
      → Lending Q U S r files buffers groups
      → Settles r files buffers groups b (register r b)
  unfolding Settles register registered register_buffer register_slot
  register-Settles {r} {files} {buffers} {groups} b l =
      let slots = Register.get r.fixed_buffers in
      elim (Option-cases slots.0) [
        | inl g ↦ rw (unslotted r b.address b.length slots.0 slots.1 g) (
          Lending-buffers Q U S r.ring l
              (subst (λ s. Lent s buffers) (sym (get-same r.fixed_buffers g)) l.fixed_buffers),
          (get_none_iff r.fixed_buffers buffers l.fixed_buffers).0 g,
          refl,
        )
        | inr (slot, g) ↦
            let (lent, fresh, _) = get-Lends r.fixed_buffers buffers l.fixed_buffers g in
            elim (Option-cases (U.register (buffer_update slot b.address b.length) r.ring)) [
              | inl e ↦
                  rw (refused Q U S r b.address b.length slot slots.0 slots.1 g e)
                    ((slot, Lending-buffers Q U S r.ring l lent, fresh, e), refl)
              | inr (ring, e) ↦
                  rw (accepted Q U S r b.address b.length slot slots.0 slots.1 g e)
                    (held b slot (Lending-buffers Q U S ring l lent) fresh, e, refl)
            ]
      ]
