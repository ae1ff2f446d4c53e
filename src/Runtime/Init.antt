-- ===== src/Runtime/Init.antt =====
-- When a thread's ring is replaced by a new one.
use inel.Base.{
  ℕ, ◌≡◌, refl, Bool, true, false, Bool-cases, ◌⊎◌, inl, inr, some, List, [], done, panic,
  reactor_running,
}
use inel.RingResult.{Cqueue}
use inel.Slab
use inel.Slab.{Slab}
use inel.IoUring.{IoUring, Registration}
use inel.Completion.{Completion}
use inel.Ring
use inel.Ring.{Ring}
use inel.Ring.Slots.{Lending, is_done_iff}
use inel.Ring.Options.{RingOptions, Fits, build-Lending}
use inel.Runtime.{init, is_done}

true≢false : {b : Bool} → b ≡ true → b ≡ false → ⊥
true≢false t f = cc

module _ (Q : Cqueue) (U : IoUring) (S : Slab Completion) where
  -- Nothing is in flight or detached on the ring, and no slot of it is lent.
  pub record Unused (r : Ring Q U S) (files buffers groups : List ℕ) : Type 0 where
    pub active : r.active ≡ 0
    pub detached : r.detached ≡ 0
    pub entries : Slab.len S r.completions.slab ≡ 0
    pub slots : (files ≡ []) × (buffers ≡ []) × (groups ≡ [])

  -- Where the kernel accepts every registration, `init` on a thread whose ring has right counters
  -- and slots either replaces a ring that nobody uses, with no entry in flight and no slot lent, by
  -- one whose counters are right and of which no slot is lent; or panics, where something is in
  -- flight or lent.
  pub init-Replaces :
      {r : Ring Q U S} {files buffers groups : List ℕ} (o : RingOptions) {u : U.Instance}
      → Lending Q U S r files buffers groups
      → Fits Q U S o
      → U.build o.submissions ≡ some u
      → ((g : Registration) (v : U.Instance) → (w : U.Instance) × (U.register g v ≡ some w))
      → (Unused r files buffers groups
          × ((r' : Ring Q U S) × (init Q U S (some r) o ≡ done (some r'))
              × Lending Q U S r' [] [] []))
        ⊎ ((¬ Unused r files buffers groups) × (init Q U S (some r) o ≡ panic reactor_running))
  unfolding init is_done
  init-Replaces {r} o l fits b accepts = elim (Bool-cases (Ring.is_done Q U S r)) [
    | inl y ↦
        let (active, detached, entries, files, buffers, groups) = (is_done_iff Q U S l).0 y in
        let (r', e, l', _) = build-Lending Q U S o fits b accepts in
        inl (
          record {
            active = active;
            detached = detached;
            entries = entries;
            slots = (files, buffers, groups);
          },
          (r', rw (y, e) refl, l'),
        )
    | inr n ↦ inr (
      λ v.
          let (files, buffers, groups) = v.slots in
          true≢false
            ((is_done_iff Q U S l).1 (v.active, v.detached, v.entries, files, buffers, groups)) n,
      rw n refl,
    )
  ]
