-- ===== src/Group/Kernel.antt =====
-- The buffers of a group that the kernel knows, and the storage of the group.
use inel.Base.{
  ℕ, suc, ◌+◌, ◌%◌, ◌^◌, ◌<◌, ◌≡◌, refl, sym, ap, ◌∙◌, subst, Bool-cases, Option, none, some,
  Option-cases, List, [], ◌∷◌, ◌==◌, if◌then◌else◌, done, done_eq, arith, eq-or-ne, inl, inr,
  ==_refl, ==_ne,
}
use inel.RingResult.{Cqueue, RingResult, buffer_id}
use inel.Cancellation.{BoxedSlice}
use inel.IoUring.{Opcode, provide_buffers}
use inel.Slab.{Slab, len}
use inel.Base.Int.{ℤ, pos, negsuc}
use inel.Op.Results.{Result, ok, err, expect_positive}
use inel.Group
use inel.Group.{BufferStorage, ReadBufferGroup}
use inel.Group.Operations.{provide_entry, read_result, taken, on_cancelled}

-- The memory of a buffer, as an entry names it.
abbrev pub region : BoxedSlice → ℕ × ℕ
region b = (b.address, b.length % 2 ^ 32)

abbrev pub region_of : Option BoxedSlice → Option (ℕ × ℕ)
region_of none = none
region_of (some b) = some (region b)

unfoldable pub find : ℕ → List (ℕ × (ℕ × ℕ)) → Option (ℕ × ℕ)
find k [] = none
find k ((j, m) ∷ known) = let later = find k known in if k == j then some m else later

-- The kernel has handed out the buffer.
unfoldable pub forget : ℕ → List (ℕ × (ℕ × ℕ)) → List (ℕ × (ℕ × ℕ))
forget k [] = []
forget k ((j, m) ∷ known) = let later = forget k known in if k == j then later else ((j, m) ∷ later)

-- What the kernel makes of an entry.
unfoldable pub learn : Opcode → List (ℕ × (ℕ × ℕ)) → List (ℕ × (ℕ × ℕ))
learn o known = elim o [ provide_buffers p n c g i ↦ (i, (p, n)) ∷ known | _ ↦ known ]

find-forget :
    (k j : ℕ) (known : List (ℕ × (ℕ × ℕ)))
    → find k (forget j known) ≡ (if k == j then none else find k known)
unfolding find forget
find-forget k j [] = ground arith
find-forget k j ((i, m) ∷ known) = ground (arith, find-forget k j known)

module _ (Q : Cqueue) (S : Slab BoxedSlice) where
  pub record Shared : Type 0 where
    pub group : ReadBufferGroup S
    pub known : List (ℕ × (ℕ × ℕ))

  -- The storage has a buffer under exactly the numbers that the kernel knows, with that memory.
  unfoldable pub Agrees : Shared → Type 0
  Agrees s = (k : ℕ) → region_of (S.get k s.group.storage.buffers) ≡ find k s.known

  unfoldable pub provided : BoxedSlice → Shared → Shared
  unfolding provide_entry learn
  provided b s =
      let (entry, g) = provide_entry Q S b s.group in
      record { group = g; known = learn entry.opcode s.known }

  -- There is a number of 16 bits for one more buffer.
  unfoldable pub HasRoom : BoxedSlice → ReadBufferGroup S → Type 0
  HasRoom b g = (S.insert b g.storage.buffers).0 < 2 ^ 16

  pub data Step (s : Shared) : Shared → Type 0 where
    inserts : (b : BoxedSlice) → HasRoom b s.group → Step s (provided b s)
    reads :
        (id : ℕ) (m : ℕ × ℕ) (res : RingResult) {value : _} {g : ReadBufferGroup S}
        → buffer_id Q res ≡ some id
        → find id s.known ≡ some m
        → read_result Q S s.group res ≡ done (value, g)
        → Step s (record { group = g; known = forget id s.known })
    discards :
        (id : ℕ) (m : ℕ × ℕ) (res : RingResult) {g : ReadBufferGroup S}
        → buffer_id Q res ≡ some id
        → find id s.known ≡ some m
        → on_cancelled Q S s.group res ≡ done g
        → Step s (record { group = g; known = forget id s.known })
    recycles :
        (b : BoxedSlice) {g : ReadBufferGroup S}
        → Group.get_cancelled S s.group ≡ (some b, g)
        → HasRoom b g
        → Step s (provided b (record s { group = g }))

  pub data Reached : Shared → Type 0 where
    start : (id : ℕ) → Reached (record { group = Group.register S id; known = [] })
    next : {s t : Shared} → Reached s → Step s t → Reached t

  provided-Agrees :
      (b : BoxedSlice) (s : Shared) → HasRoom b s.group → Agrees s → Agrees (provided b s)
  unfolding HasRoom Agrees provided provide_entry Group.put learn find
  provided-Agrees b s room a k =
      let cut : (S.insert b s.group.storage.buffers).0 % 2 ^ 16
          ≡ (S.insert b s.group.storage.buffers).0 =
        omega (arith, room) in
      rw (cut, S.get-insert b s.group.storage.buffers k)
        (elim (eq-or-ne k ((S.insert b s.group.storage.buffers).0)) [
          | inl y ↦ rw (y, ==_refl ((S.insert b s.group.storage.buffers).0)) refl
          | inr y ↦ rw (==_ne k ((S.insert b s.group.storage.buffers).0) y) (a k)
        ])

  found :
      (s : Shared) (id : ℕ) (m : ℕ × ℕ)
      → Agrees s
      → find id s.known ≡ some m
      → (b : BoxedSlice) × (S.get id s.group.storage.buffers ≡ some b) × (region b ≡ m)
  unfolding Agrees
  found s id m a e = elim (Option-cases (S.get id s.group.storage.buffers)) [
    | inl q ↦ (let no : none ≡ some m = sym (ap region_of q) ∙ a id ∙ e in cc)
    | inr (b, q) ↦
        (let yes : some (region b) ≡ some m = sym (ap region_of q) ∙ a id ∙ e in (b, q, cc))
  ]

  removed-Agrees :
      (s : Shared) (id : ℕ) (g : ReadBufferGroup S)
      → Agrees s
      → g.storage.buffers ≡ S.remove id s.group.storage.buffers
      → Agrees (record { group = g; known = forget id s.known })
  unfolding Agrees
  removed-Agrees s id g a q k =
      rw (q, S.get-remove id k s.group.storage.buffers, find-forget k id s.known)
        (elim (Bool-cases (k == id)) [ inl y ↦ rw y refl | inr y ↦ rw y (a k) ])

  expect_positive_total :
      (res : RingResult) → (count : Result ℕ) × (expect_positive res ≡ done count)
  unfolding expect_positive
  expect_positive_total res = of_number res.ret
    where
      of_number :
          (n : ℤ)
          → (count : Result ℕ) × (expect_positive (record { ret = n; flags = res.flags })
              ≡ done count)
      of_number (pos n) = (ok n, refl)
      of_number (negsuc n) = (err (pos (suc n)), refl)

  -- Where the storage agrees with the kernel, a read that completes with a buffer which the kernel
  -- knows does not panic: it gives the buffer whose memory the kernel was given under that number,
  -- with the count or the error of the result, takes it and no other out of the group, and the
  -- storage agrees with the kernel, which has handed the buffer out.
  pub read-gives :
      (s : Shared) (id : ℕ) (m : ℕ × ℕ) (res : RingResult)
      → Agrees s
      → buffer_id Q res ≡ some id
      → find id s.known ≡ some m
      → (b : BoxedSlice) × (count : Result ℕ) × (g : ReadBufferGroup S) × (read_result Q S s.group
            res
          ≡ done ((some b, count), g))
        × (expect_positive res ≡ done count)
        × (region b ≡ m)
        × (g.storage.cancelled ≡ s.group.storage.cancelled)
        × (Group.present S g + 1 ≡ Group.present S s.group)
        × Agrees (record { group = g; known = forget id s.known })
  unfolding read_result taken Group.take Group.remove Group.present len
  read-gives s id m res a chosen known =
      let (b, q, same) = found s id m a known in
      let (count, c) = expect_positive_total res in
      (
        b,
        count,
        record (s.group) {
          storage = record (s.group.storage) { buffers = S.remove id s.group.storage.buffers };
        },
        rw (chosen, taken, Group.take, Group.remove, q, c) refl,
        c,
        same,
        refl,
        S.total-remove (λ _. 1) id s.group.storage.buffers q,
        removed-Agrees s id _ a refl,
      )

  -- Where the storage agrees with the kernel, a cancelled read that completes with a buffer which
  -- the kernel knows does not panic: the buffer moves to the cancelled ones, the first to be
  -- recycled, and the storage agrees with the kernel, which has handed the buffer out.
  pub on_cancelled-keeps :
      (s : Shared) (id : ℕ) (m : ℕ × ℕ) (res : RingResult)
      → Agrees s
      → buffer_id Q res ≡ some id
      → find id s.known ≡ some m
      → (b : BoxedSlice) × (g : ReadBufferGroup S) × (on_cancelled Q S s.group res ≡ done g)
        × (region b ≡ m)
        × (g.storage.cancelled ≡ b ∷ s.group.storage.cancelled)
        × (Group.present S g + 1 ≡ Group.present S s.group)
        × Agrees (record { group = g; known = forget id s.known })
  unfolding on_cancelled Group.mark_cancelled Group.remove Group.present len
  on_cancelled-keeps s id m res a chosen known =
      let (b, q, same) = found s id m a known in
      (
        b,
        record (s.group) {
          storage = record {
            buffers = S.remove id s.group.storage.buffers;
            cancelled = b ∷ s.group.storage.cancelled;
          };
        },
        rw (on_cancelled, chosen, Group.mark_cancelled, Group.remove, q) refl,
        same,
        refl,
        S.total-remove (λ _. 1) id s.group.storage.buffers q,
        removed-Agrees s id _ a refl,
      )

  get_cancelled-buffers :
      (g : ReadBufferGroup S) → (Group.get_cancelled S g).1.storage.buffers ≡ g.storage.buffers
  unfolding Group.get_cancelled
  get_cancelled-buffers g = by_list g.storage.cancelled
    where
      by_list :
          (bs : List BoxedSlice)
          → (Group.get_cancelled S (record g {
            storage = record { buffers = g.storage.buffers; cancelled = bs };
          })).1.storage.buffers
            ≡ g.storage.buffers
      by_list [] = refl
      by_list (b ∷ bs) = refl

  pub step-Agrees : {s t : Shared} → Agrees s → Step s t → Agrees t
  unfolding Agrees
  step-Agrees {s} a (inserts b room) = provided-Agrees b s room a
  step-Agrees {s} a (reads id m res {value} {g} chosen known q) =
      let (b, count, g', q', c, same, kept, fewer, agrees) = read-gives s id m res a chosen known in
      subst (λ r. Agrees (record { group = r.1; known = forget id s.known })) (done_eq (sym q' ∙ q))
        agrees
  step-Agrees {s} a (discards id m res {g} chosen known q) =
      let (b, g', q', same, kept, fewer, agrees) = on_cancelled-keeps s id m res a chosen known in
      subst (λ r. Agrees (record { group = r; known = forget id s.known })) (done_eq (sym q' ∙ q))
        agrees
  step-Agrees {s} a (recycles b {g} q room) =
      provided-Agrees b (record s { group = g }) room (moved a)
    where
      moved : Agrees s → Agrees (record s { group = g })
      moved a k =
          let same : g.storage.buffers ≡ s.group.storage.buffers =
            ap (λ r. r.1.storage.buffers) (sym q) ∙ get_cancelled-buffers s.group in
          rw same (a k)

  -- After any sequence of insertions and recyclings with room for a number of 16 bits, and of reads
  -- and cancelled reads that complete with a buffer which the kernel knows, the group stores a
  -- buffer under exactly the numbers that the kernel knows, and it is the memory that the kernel
  -- was given under that number.
  pub Reached-Agrees : {s : Shared} → Reached s → Agrees s
  unfolding Agrees Group.register find
  Reached-Agrees (start id) = λ k. rw (S.get-with_capacity 128 k) refl
  Reached-Agrees (next r m) = step-Agrees (Reached-Agrees r) m
