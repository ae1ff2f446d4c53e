-- ===== src/Group.antt =====
-- crates/inel-reactor/src/group.rs: the buffers of a group, which the kernel fills.
pub mod Operations
pub mod Sets
pub mod Kernel
pub mod Recycled
pub mod Share
mod Tests
use inel.Base.{
  ℕ, ◌%◌, ◌^◌, Option, none, some, List, [], ◌∷◌, Outcome, done, panic, unexpected_key, ◌>>=◌,
}
use inel.Slab.{Slab, len}
use inel.Cancellation.{BoxedSlice}

module _ (S : Slab BoxedSlice) where
  -- The vector of the cancelled buffers, its last element first.
  pub record BufferStorage : Type 0 where
    pub buffers : S.Store
    pub cancelled : List BoxedSlice

  -- `id` is the index of the `BufferGroupId`.
  pub record ReadBufferGroup : Type 0 where
    pub id : ℕ
    pub storage : BufferStorage

  unfoldable pub register : ℕ → ReadBufferGroup
  register id = record {
    id = id;
    storage = record { buffers = S.with_capacity 128; cancelled = [] };
  }

  -- `Slab::remove`, which panics on a vacant key.
  unfoldable pub remove : ℕ → S.Store → Outcome (BoxedSlice × S.Store)
  remove k s = elim (S.get k s) [ none ↦ panic unexpected_key | some b ↦ done (b, S.remove k s) ]

  unfoldable pub take : ℕ → ReadBufferGroup → Outcome (BoxedSlice × ReadBufferGroup)
  unfolding remove
  take id g = remove id g.storage.buffers >>= λ (b, left).
      done (b, record g { storage = record (g.storage) { buffers = left } })

  unfoldable pub put : BoxedSlice → ReadBufferGroup → ℕ × ReadBufferGroup
  put buffer g =
      let (key, more) = S.insert buffer g.storage.buffers in
      (key % 2 ^ 16, record g { storage = record (g.storage) { buffers = more } })

  -- A slab that has been cleared is an empty one.
  unfoldable pub clear : ReadBufferGroup → ReadBufferGroup
  clear g = record g { storage = record (g.storage) { buffers = S.with_capacity 0 } }

  unfoldable pub present : ReadBufferGroup → ℕ
  present g = len S g.storage.buffers

  unfoldable pub mark_cancelled : ℕ → ReadBufferGroup → Outcome ReadBufferGroup
  unfolding remove
  mark_cancelled id g = remove id g.storage.buffers >>= λ (b, left).
      done (record g { storage = record { buffers = left; cancelled = b ∷ g.storage.cancelled } })

  unfoldable pub get_cancelled : ReadBufferGroup → Option BoxedSlice × ReadBufferGroup
  get_cancelled g = elim g.storage.cancelled [
    | [] ↦ (none, g)
    | b ∷ bs ↦ (some b, record g { storage = record (g.storage) { cancelled = bs } })
  ]
