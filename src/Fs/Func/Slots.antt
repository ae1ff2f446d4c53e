-- ===== src/Fs/Func/Slots.antt =====
-- What writing and reading whole files through a slot does, and to the slot.
use inel.Base.{
  ℕ, zero, suc, ◌≡◌, ◌≢◌, ◌↔◌, refl, sym, subst, Option-cases, inl, inr, none, some, List, [], ◌∷◌,
  Outcome, done, panic, assertion_failed, arith,
}
use inel.Base.Int.{ℤ, pos, negsuc}
use inel.RingResult.{RingResult}
use inel.Register
use inel.Register.{SlotRegister}
use inel.Register.Lending.{Lent, get-Lends, get-same, remove-Lent}
use inel.Buffer.{StableBuffer}
use inel.IoUring.{Entry}
use inel.Op.{chain}
use inel.Op.Results.{ok, expect_zero, expect_positive}
use inel.Op.Paths.{FilePath}
use inel.Op.Chains.{chain_of, chain_of-append, none, more}
use inel.Fs.Func.{
  Machine, reserved, with_slot, both, btry, finish_write, written, write_buf, write_buf_entries,
  read_buf_entries,
}

module _ (M : Machine) where
  open M use {World, perform_both}

  module _ {A : Type 0} (w : World) (slots : SlotRegister) (out : List ℕ) (l : Lent slots out)
      (body : ℕ → World → Outcome A × World) where
    -- The slot that a body gets is given back whatever the body does; with none left it panics.
    pub with_slot-Lent : Lent (with_slot M w slots body).slots out
    unfolding with_slot reserved
    with_slot-Lent = elim (Option-cases (Register.get slots).0) [
      | inl g ↦ rw g (subst (λ s. Lent s out) (sym (get-same slots g)) l)
      | inr (slot, g) ↦
          rw g (remove-Lent (Register.get slots).1 [] slot out (get-Lends slots out l g).0)
    ]

  module _ (B : StableBuffer) where
    abbrev answer : ℤ → ℕ → RingResult
    answer n f = record { ret = n; flags = f }

    numbers_ok :
        (buf : B.Buf) (a b : ℤ) (f g : ℕ)
        → (written M B buf (answer a f, answer b g) ≡ done (buf, ok tt))
          ↔ ((a ≡ pos 0) × (b ≡ pos (B.size buf)))
    unfolding written btry finish_write expect_zero expect_positive
    numbers_ok buf (pos zero) (pos n) f g = ground arith
    numbers_ok buf (pos zero) (negsuc n) f g = ground arith
    numbers_ok buf (pos (suc m)) b f g = ground arith
    numbers_ok buf (negsuc m) (pos n) f g = ground arith
    numbers_ok buf (negsuc m) (negsuc n) f g = ground arith

    numbers_short :
        (buf : B.Buf) (a b : ℤ) (f g : ℕ)
        → (written M B buf (answer a f, answer b g) ≡ panic assertion_failed)
          ↔ ((a ≡ pos 0) × ((n : ℕ) × (b ≡ pos n) × (n ≢ B.size buf)))
    unfolding written btry finish_write expect_zero expect_positive
    numbers_short buf (pos zero) (pos n) f g =
        (λ e. (refl, (n, refl, ground (arith, e))), λ h. ground (arith, h.1.2, h.1.1))
    numbers_short buf (pos zero) (negsuc n) f g = (λ e. cc, λ h. cc h.1.1)
    numbers_short buf (pos (suc m)) b f g = (λ e. cc, λ h. absurd (ground (arith, h.0)))
    numbers_short buf (negsuc m) (pos n) f g = (λ e. cc, λ h. cc h.0)
    numbers_short buf (negsuc m) (negsuc n) f g = (λ e. cc, λ h. cc h.0)

    -- Where a slot is left, writing a whole file succeeds exactly when the kernel has opened the file
    -- in that slot and reports as many bytes as the buffer has, and panics by its assertion exactly
    -- when it has opened the file and reports another number. The slot is given back in every case.
    pub write_buf-succeeds_iff :
        (path : FilePath) (buf : B.Buf) (w : World) (slots : SlotRegister) (out : List ℕ) {slot : ℕ}
        → Lent slots out
        → (Register.get slots).0 ≡ some slot
        → let entries = write_buf_entries M B path buf slot in
          let answers = (perform_both entries.0 entries.1 w).0 in
          let ran = write_buf M B path buf w slots in
          ((ran.outcome ≡ done (buf, ok tt))
            ↔ ((answers.0.ret ≡ pos 0) × (answers.1.ret ≡ pos (B.size buf))))
          × ((ran.outcome ≡ panic assertion_failed)
              ↔ ((answers.0.ret ≡ pos 0) × ((n : ℕ) × (answers.1.ret ≡ pos n) × (n ≢ B.size buf))))
          × Lent ran.slots out
    unfolding write_buf with_slot reserved both
    write_buf-succeeds_iff path buf w slots out {slot} l g =
        let a =
          (perform_both (write_buf_entries M B path buf slot).0
            (write_buf_entries M B path buf slot).1 w).0 in
        (
          rw g (numbers_ok buf a.0.ret a.1.ret a.0.flags a.1.flags),
          rw g (numbers_short buf a.0.ret a.1.ret a.0.flags a.1.flags),
          with_slot-Lent w slots out l
              (both M B (write_buf_entries M B path buf) (written M B buf)),
        )

    -- Writing and reading a whole file chain both their entries, so that whatever is submitted next,
    -- by whatever task, is of the same chain: it waits for them, and is cancelled where the file
    -- cannot be opened or fewer bytes are transferred than the buffer has.
    pub write_buf-takes_next :
        (path : FilePath) (buf : B.Buf) (slot : ℕ) (next : List Entry)
        → let w = write_buf_entries M B path buf slot in
          let r = read_buf_entries M B path buf slot in
          (chain_of (w.0 ∷ w.1 ∷ next) ≡ w.0 ∷ w.1 ∷ chain_of next)
          × (chain_of (r.0 ∷ r.1 ∷ next) ≡ r.0 ∷ r.1 ∷ chain_of next)
    unfolding write_buf_entries read_buf_entries chain
    write_buf-takes_next path buf slot next = (
      chain_of-append
          ((write_buf_entries M B path buf slot).0 ∷ (write_buf_entries M B path buf slot).1 ∷ [])
          next (more refl (more refl none)),
      chain_of-append
          ((read_buf_entries M B path buf slot).0 ∷ (read_buf_entries M B path buf slot).1 ∷ [])
          next (more refl (more refl none)),
    )
