-- ===== src/Group/Recycled.antt =====
-- What `ReadBufferSet::recycle` leaves, and the end of a group.
use inel.Base.{
  suc, ◌+◌, ◌<◌, ◌≡◌, ◌≢◌, refl, ap, Bool-cases, true, List, [], ◌∷◌, length, ltb, ◌==◌,
  if◌then◌else◌, Outcome, done, panic, assertion_failed, ◌>>=◌, arith, inl, inr,
}
use inel.RingResult.{Cqueue, RingResult}
use inel.Cancellation.{BoxedSlice}
use inel.Slab.{Slab, len}
use inel.Base.Int.{ℤ, pos, negsuc}
use inel.Op.Results.{ok, expect_positive}
use inel.Group
use inel.Group.{ReadBufferGroup, present}
use inel.Group.Operations.{provide_entry, remove_result, unwrap}
use inel.Group.Sets.{insert, recycle, recycle_all}

module _ (Q : Cqueue) (S : Slab BoxedSlice) where
  all_recycled :
      (bs : List BoxedSlice) (g : ReadBufferGroup S)
      → g.storage.cancelled ≡ bs
      → ((recycle_all Q S bs g).1.storage.cancelled ≡ [])
        × (length ((recycle_all Q S bs g).0) ≡ length bs)
        × (present S ((recycle_all Q S bs g).1) ≡ present S g + length bs)
  unfolding recycle_all insert provide_entry Group.put present len
  all_recycled [] g e = (e, refl, omega arith)
  all_recycled (b ∷ bs) g e =
      let more : ReadBufferGroup S = record g {
        storage = record { buffers = (S.insert b g.storage.buffers).1; cancelled = bs };
      } in
      let (none, count, all) = all_recycled bs more refl in
      (none, ap suc count, omega (arith, all, S.total-insert (λ _. 1) b g.storage.buffers))

  -- Recycling ends with no buffer cancelled, has submitted one entry for each that was, and stores
  -- that many more.
  pub recycle-present :
      (g : ReadBufferGroup S)
      → ((recycle Q S g).1.storage.cancelled ≡ [])
        × (length ((recycle Q S g).0) ≡ length g.storage.cancelled)
        × (present S ((recycle Q S g).1) ≡ present S g + length g.storage.cancelled)
  unfolding recycle
  recycle-present g = all_recycled g.storage.cancelled g refl

  -- What the result of `RemoveBuffers` leaves of the group.
  unfoldable pub Releases : ReadBufferGroup S → RingResult → Outcome (ReadBufferGroup S) → Type 0
  Releases g res (done g') = (present S g' ≡ 0) × (g'.id ≡ g.id)
  Releases g res (panic e) = (0 < present S g) × (expect_positive res ≢ done (ok (present S g)))

  -- The result of `RemoveBuffers` either leaves the group without a buffer and with its number, or
  -- panics, where the group had buffers and the kernel does not report that it has removed as many.
  pub remove_result-Releases :
      (g : ReadBufferGroup S) (res : RingResult) → Releases g res (remove_result Q S g res)
  unfolding Releases remove_result unwrap expect_positive Group.clear present len
  remove_result-Releases g res = elim (Bool-cases (ltb 0 (present S g))) [
    | inl y ↦ rw y (of_number res.ret y)
    | inr y ↦ rw y (ground (arith, y), refl)
  ]
    where
      of_number :
          (n : ℤ)
          → ltb 0 (present S g) ≡ true
          → Releases g
              (record { ret = n; flags = res.flags })
              (expect_positive (record { ret = n; flags = res.flags }) >>= unwrap Q S >>= λ removed.
                if removed == present S g then done (Group.clear S g) else panic assertion_failed)
      of_number (pos n) y = elim (Bool-cases (n == present S g)) [
        | inl z ↦ rw z (S.total-with_capacity (λ _. 1) 0, refl)
        | inr z ↦ rw z (
          ground (arith, y),
          (λ q. let same : n ≡ present S g = cc in absurd (ground (arith, z, same))),
        )
      ]
      of_number (negsuc n) y = (ground (arith, y), (λ q. cc))
