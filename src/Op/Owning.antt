-- ===== src/Op/Owning.antt =====
-- Which operations keep the contract of the trait `Op`: what their entry points to is handed to the
-- cancellation.
use inel.Base.{ℕ, ◌-◌, ◌%◌, ◌^◌, ◌<◌, ◌≡◌, ◌⊎◌, inl, inr, List, [], ◌∷◌, map, arith}
use inel.Cancellation.{
  Cancellation, Cancellations, nil, cons, BoxedSlice, combine, drop_raw, drop_cancels_raw,
  of_cstring, empty,
}
use inel.Buffer.{StableBuffer}
use inel.Buffer.Kept.{
  Frees, Frees-part, Keeps, IsKept, Frees-left, Frees-right, Keeps-part, free-Frees,
}
use inel.Op.Access.{regions, KeepsAll, Owns}
use inel.Op.Transfer
use inel.Op.Transfer.{Transfer, read_op, write_op, read_entry, write_entry}
use inel.Op.Exact
use inel.Op.Exact.{VectoredExact}
use inel.Op.Vectored
use inel.Op.Vectored.{Vectored, into_all}
use inel.Op.Link.{
  LinkAt, SymlinkAt, PathOp, link_op, symlink_op, unlink_op, mk_dir_op, open_op, open_direct_op,
  open_auto_op, combine_paths,
}
use inel.Op.Net.{Address, RegisterFile, connect_op, bind_op, timeout_op, register_file_op}

-- One of the cancellations keeps `n` bytes at `p`.
KeptIn : Cancellations → ℕ → ℕ → Type 0
KeptIn cs p n = (n ≡ 0) ⊎ Frees p n (drop_cancels_raw cs)

KeptIn-first :
    (c : Cancellation) (cs : Cancellations) (p n : ℕ) → Keeps c p n → KeptIn (cons c cs) p n
unfolding Keeps KeptIn drop_raw
KeptIn-first c cs p n (inl z) = inl z
KeptIn-first c cs p n (inr f) = inr (Frees-left _ f)

KeptIn-later :
    (c : Cancellation) (cs : Cancellations) (p n : ℕ) → KeptIn cs p n → KeptIn (cons c cs) p n
unfolding KeptIn drop_raw
KeptIn-later c cs p n (inl z) = inl z
KeptIn-later c cs p n (inr f) = inr (Frees-right (drop_raw c) f)

Keeps-combine : (cs : Cancellations) (ptr p n : ℕ) → KeptIn cs p n → Keeps (combine ptr cs) p n
unfolding Keeps KeptIn combine drop_raw
Keeps-combine cs ptr p n (inl z) = inl z
Keeps-combine cs ptr p n (inr f) = inr (Frees-left _ f)

module _ (B : StableBuffer) where
  -- For a buffer that its cancellation keeps, what the entries of `Read` and `Write` let the kernel
  -- reach stays allocated until the cancellation is dropped: the length, cut to 32 bits, does not
  -- exceed the buffer.
  pub transfer-Owns : (t : Transfer B) → IsKept B → Owns (read_op B) t × Owns (write_op B) t
  unfolding Owns KeepsAll regions read_entry write_entry Transfer.cancel IsKept
  transfer-Owns t kept = ((cut, tt), (cut, tt))
    where
      cut : Keeps (B.into t.buf) (B.stable_ptr t.buf) (B.size t.buf % 2 ^ 32)
      cut =
          Keeps-part (B.into t.buf) (B.stable_ptr t.buf) (B.size t.buf) _ _
            (inr (omega arith, omega arith)) (kept t.buf)

  -- The cancellations at the end of a list keep the buffers that they were made from.
  into_all-KeepsAll :
      (bs : List B.Buf) (ptr : ℕ) (cs : Cancellations)
      → IsKept B
      → ((p n : ℕ) → KeptIn (into_all B bs) p n → KeptIn cs p n)
      → KeepsAll (combine ptr cs) (map (λ b. (B.stable_ptr b, B.size b)) bs)
  unfolding KeepsAll IsKept into_all
  into_all-KeepsAll [] ptr cs kept end = tt
  into_all-KeepsAll (b ∷ bs) ptr cs kept end = (
    Keeps-combine cs ptr (B.stable_ptr b) (B.size b)
        (end _ _ (KeptIn-first (B.into b) (into_all B bs) _ _ (kept b))),
    into_all-KeepsAll bs ptr cs kept
        (λ p n k. end p n (KeptIn-later (B.into b) (into_all B bs) p n k)),
  )

  -- For buffers that their cancellations keep, every buffer of a vectored operation stays allocated
  -- until the combined cancellation is dropped.
  pub vectored-KeepsAll :
      (v : Vectored B) (ptr : ℕ)
      → IsKept B
      → KeepsAll (Vectored.cancel B v ptr) (map (λ b. (B.stable_ptr b, B.size b)) v.bufs)
  unfolding Vectored.cancel
  vectored-KeepsAll v ptr kept = into_all-KeepsAll v.bufs ptr (into_all B v.bufs) kept (λ p n k. k)

  -- The same holds of the operations on an array of buffers.
  pub exact-KeepsAll :
      (v : VectoredExact B) (ptr : ℕ)
      → IsKept B
      → KeepsAll (Exact.cancel B v ptr) (map (λ b. (B.stable_ptr b, B.size b)) v.bufs)
  unfolding Exact.cancel
  exact-KeepsAll v ptr kept = into_all-KeepsAll v.bufs ptr (into_all B v.bufs) kept (λ p n k. k)

path_Keeps : (s : BoxedSlice) → 1 < s.length → Keeps (of_cstring s) s.address 1
unfolding Keeps of_cstring drop_raw
path_Keeps s h = elim (free-Frees s.address (s.length - 1)) [
  | inl z ↦ absurd (omega (arith, z))
  | inr f ↦ inr (Frees-part s.address 1 (omega arith) (omega arith) f)
]

-- The operations on one path that is not empty hand the path that their entry points to over to
-- their cancellation: its first byte stays allocated until the cancellation is dropped.
pub path-Owns :
    (p : PathOp) (n : ℕ)
    → 1 < p.path.length
    → Owns unlink_op p
      × Owns mk_dir_op p
      × Owns open_op p
      × Owns (open_direct_op n) p
      × Owns open_auto_op p
unfolding Owns KeepsAll regions
path-Owns p n h = let k = path_Keeps p.path h in ((k, tt), (k, tt), (k, tt), (k, tt), (k, tt))

-- The operations on two paths that are not empty hand both to their cancellation: the first byte of
-- each, in the order of the entry, stays allocated until the cancellation is dropped.
pub link-Owns :
    (l : LinkAt) (s : SymlinkAt) (ptr : ℕ)
    → 1 < l.from_path.length
    → 1 < l.to_path.length
    → 1 < s.path.length
    → 1 < s.target.length
    → Owns (link_op ptr) l × Owns (symlink_op ptr) s
unfolding Owns KeepsAll regions combine_paths
link-Owns l s ptr a b c d = (
  (first l.from_path l.to_path a, (second l.from_path l.to_path b, tt)),
  (second s.path s.target d, (first s.path s.target c, tt)),
)
  where
    first :
        (x y : BoxedSlice)
        → 1 < x.length
        → Keeps (combine ptr (cons (of_cstring x) (cons (of_cstring y) nil))) x.address 1
    first x y h = Keeps-combine _ ptr _ _ (KeptIn-first (of_cstring x) _ _ _ (path_Keeps x h))

    second :
        (x y : BoxedSlice)
        → 1 < y.length
        → Keeps (combine ptr (cons (of_cstring x) (cons (of_cstring y) nil))) y.address 1
    second x y h =
        Keeps-combine _ ptr _ _
          (KeptIn-later (of_cstring x) _ _ _ (KeptIn-first (of_cstring y) nil _ _ (path_Keeps y h)))

unkept : (p n : ℕ) → 0 < n → ¬ Keeps empty p n
unfolding Keeps empty drop_raw
unkept p n h k = elim k [ inl z ↦ omega (arith, z) | inr f ↦ elim f [ ] ]

-- `Connect` and `Bind` with an address of some length, `Timeout` and `RegisterFile` point the
-- kernel to memory of the operation itself, which their cancellation does not keep.
pub embedded-unkept :
    (c : Address) (timespec : ℕ) (f : RegisterFile)
    → 0 < c.len
    → (¬ Owns connect_op c)
      × (¬ Owns bind_op c)
      × (¬ Owns timeout_op timespec)
      × (¬ Owns register_file_op f)
unfolding Owns KeepsAll regions
embedded-unkept c timespec f h = (
  λ k. unkept c.here c.len h k.0,
  λ k. unkept c.here c.len h k.0,
  λ k. unkept timespec 1 (omega arith) k.0,
  λ k. unkept f.here 4 (omega arith) k.0,
)
