-- ===== src/Source/Owned.antt =====
-- The slots of a ring against the owners of direct descriptors.
use inel.Base.{
  ℕ, ◌+◌, ◌%◌, ◌^◌, ◌<◌, ◌≡◌, refl, some, inl, inr, List, [], ◌∷◌, count, length, done,
  Option-cases, subst, sym, arith,
}
use inel.RingResult.{Cqueue}
use inel.Slab.{Slab}
use inel.IoUring.{IoUring, fixed, close}
use inel.Register
use inel.Register.{SlotRegister}
use inel.Register.Lending.{Lent, get-Lends, get-same, get_none_iff, remove-Lent}
use inel.Completion.{Completion}
use inel.Op.{entry_of}
use inel.Ring.{
  Ring, IoResult, ok, no_slots, io_error, get_direct_slot, release_direct_slot, submit_detached,
  ignore_key,
}
use inel.Ring.Slots.{Lending}
use inel.Source.{
  OwnedDirect, DirectAutoFd, manual, auto, as_source, as_slot, reserve, get, drop_direct, release,
  run_detached, of_slot,
}

module _ (Q : Cqueue) (U : IoUring) (S : Slab Completion) where
  Lending-files :
      {r : Ring Q U S} {files buffers groups lent : List ℕ} {slots : SlotRegister}
      → Lending Q U S r files buffers groups
      → Lent slots lent
      → Lending Q U S (record r { direct_files = slots }) lent buffers groups
  Lending-files l lent = record {
    counts = record {
      valid = l.counts.valid;
      active = l.counts.active;
      canceled = l.counts.canceled;
      detached = l.counts.detached;
      small = l.counts.small;
    };
    direct_files = lent;
    fixed_buffers = l.fixed_buffers;
    buffer_groups = l.buffer_groups;
  }

  -- A ring lends the slots of the list, and the slot of `d`, which dropping `d` gives back.
  pub record Owns (r : Ring Q U S) (files buffers groups : List ℕ) (d : OwnedDirect) : Type 0 where
    pub lending : Lending Q U S r (as_slot d ∷ files) buffers groups
    pub fresh : count (as_slot d) files ≡ 0
    pub target : as_source d ≡ fixed (as_slot d)
    pub after : Ring Q U S
    pub drops : drop_direct Q U S r d ≡ done (record { ring = after; value = tt; effects = [] })
    pub given_back : Lending Q U S after files buffers groups

  unfoldable pub Reserves :
      List ℕ → List ℕ → List ℕ → Ring Q U S → Ring Q U S × IoResult OwnedDirect → Type 0
  Reserves files buffers groups r (r', ok d) = Owns r' files buffers groups d
  Reserves files buffers groups r (r', no_slots) =
      Lending Q U S r' files buffers groups × (length files ≡ r.direct_files.size)
  Reserves files buffers groups r (r', io_error) = ⊥

  owned :
      {r : Ring Q U S} {files buffers groups : List ℕ} (slot : ℕ)
      → Lending Q U S r (slot ∷ files) buffers groups
      → count slot files ≡ 0
      → Owns r files buffers groups (manual (record { slot = slot }))
  unfolding as_slot as_source of_slot drop_direct release release_direct_slot
  owned {r} {files} slot l fresh = record {
    lending = l;
    fresh = fresh;
    target = refl;
    after = record r { direct_files = Register.remove r.direct_files slot };
    drops = refl;
    given_back = Lending-files l (remove-Lent r.direct_files [] slot files l.direct_files);
  }

  -- On a ring whose counters and slots are right, reserving a descriptor either gives one that acts
  -- on a slot which was lent to nobody, and dropping it never panics and gives that slot back; or
  -- it fails and lends nothing, where every slot is lent already.
  pub reserve-Reserves :
      {r : Ring Q U S} {files buffers groups : List ℕ}
      → Lending Q U S r files buffers groups
      → Reserves files buffers groups r (reserve Q U S r)
  unfolding Reserves reserve get get_direct_slot
  reserve-Reserves {r} {files} l = elim (Option-cases (Register.get r.direct_files).0) [
    | inl g ↦ rw g (
      Lending-files l (subst (λ s. Lent s files) (sym (get-same r.direct_files g)) l.direct_files),
      (get_none_iff r.direct_files files l.direct_files).0 g,
    )
    | inr (slot, g) ↦
        let (lent, fresh, _) = get-Lends r.direct_files files l.direct_files g in
        rw g (owned slot (Lending-files l lent) fresh)
  ]

  -- With room in the counters, on a ring whose counters and slots are right, dropping a descriptor
  -- whose slot the kernel has picked, where the kernel takes the entry that closes it, does not
  -- panic; the ring lends as much as before, and has one more entry detached.
  pub drop_auto-Lending :
      {r : Ring Q U S} {files buffers groups : List ℕ} (direct : DirectAutoFd) {ring : U.Instance}
      → Lending Q U S r files buffers groups
      → r.active + r.detached + 1 < 2 ^ 31
      → U.push (record (entry_of (close (fixed direct.slot))) { user_data = ignore_key }) r.ring
        ≡ some ring
      → (after : Ring Q U S) × (drop_direct Q U S r (auto direct)
          ≡ done (record { ring = after; value = tt; effects = [] }))
        × Lending Q U S after files buffers groups
        × (after.detached ≡ r.detached + 1)
  unfolding drop_direct run_detached submit_detached of_slot
  drop_auto-Lending {r} direct {ring} l room e = (
    record r { ring = ring; detached = (r.detached + 1) % 2 ^ 32 },
    rw e refl,
    record {
      counts = record {
        valid = l.counts.valid;
        active = l.counts.active;
        canceled = l.counts.canceled;
        detached = omega (arith, l.counts.detached, room);
        small = omega (arith, room);
      };
      direct_files = l.direct_files;
      fixed_buffers = l.fixed_buffers;
      buffer_groups = l.buffer_groups;
    },
    omega (arith, room),
  )
