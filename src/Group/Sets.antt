-- ===== src/Group/Sets.antt =====
-- crates/inel/src/group.rs: the sets of buffers that readers and writers share. What is submitted
-- detached is the list of its entries.
use inel.Base.{ℕ, Option, none, some, List, [], ◌∷◌, replicate, Outcome, done, panic, unwrap_failed}
use inel.RingResult.{Cqueue}
use inel.Cancellation.{BoxedSlice}
use inel.IoUring.{Entry}
use inel.Slab.{Slab}
use inel.Op.Results.{Result, ok, err}
use inel.Group.{ReadBufferGroup}
use inel.Group.Operations.{provide_entry}

module _ (Q : Cqueue) (S : Slab BoxedSlice) where
  -- `ReadBufferSet::insert`.
  unfoldable pub insert : BoxedSlice → ReadBufferGroup S → Entry × ReadBufferGroup S
  unfolding provide_entry
  insert b g = provide_entry Q S b g

  -- `ReadBufferSet::recycle`: the loop ends with the list of the cancelled buffers.
  unfoldable pub recycle_all : List BoxedSlice → ReadBufferGroup S → List Entry × ReadBufferGroup S
  unfolding insert
  recycle_all [] g = ([], g)
  recycle_all (b ∷ bs) g =
      let (entry, g') = insert b (record g { storage = record (g.storage) { cancelled = bs } }) in
      let (entries, g'') = recycle_all bs g' in (entry ∷ entries, g'')

  unfoldable pub recycle : ReadBufferGroup S → List Entry × ReadBufferGroup S
  unfolding recycle_all
  recycle g = recycle_all g.storage.cancelled g

  -- `ReadBufferSet::read` on what the read gives: a buffer with an error is inserted again.
  unfoldable pub finish_read :
      (Option BoxedSlice × Result ℕ) × ReadBufferGroup S
      → Outcome (Result (BoxedSlice × ℕ) × List Entry × ReadBufferGroup S)
  unfolding insert
  finish_read ((none, ok n), g) = panic unwrap_failed
  finish_read ((some b, ok n), g) = done (ok (b, n), [], g)
  finish_read ((none, err e), g) = done (err e, [], g)
  finish_read ((some b, err e), g) = let (entry, g') = insert b g in done (err e, entry ∷ [], g')

-- `WriteBufferSetInner`, the last buffer of its vector first. A buffer is its bytes.
pub record WriteBufferSet : Type 0 where
  pub buffers : List (List ℕ)
  pub capacity : ℕ

unfoldable pub with_buffers : ℕ → ℕ → WriteBufferSet
with_buffers count capacity = record {
  buffers = replicate count (replicate capacity 0);
  capacity = capacity;
}

unfoldable pub insert_buffer : List ℕ → WriteBufferSet → WriteBufferSet
insert_buffer b s = record s { buffers = b ∷ s.buffers }

unfoldable pub get_buffer : WriteBufferSet → List ℕ × WriteBufferSet
get_buffer s = elim s.buffers [
  | [] ↦ (replicate s.capacity 0, s)
  | b ∷ bs ↦ (b, record s { buffers = bs })
]
