-- ===== src/Group/Share.antt =====
-- crates/inel/src/group.rs: a set of read buffers that is filled when it is made, and the group that
-- shares a set of each kind.
pub mod Room
use inel.Base.{ℕ, List, [], ◌∷◌, Outcome, done, ◌>>=◌}
use inel.RingResult.{Cqueue, RingResult}
use inel.Cancellation.{BoxedSlice}
use inel.IoUring.{IoUring, Entry}
use inel.Slab.{Slab}
use inel.Completion.{Completion}
use inel.Op.Results.{Result}
use inel.Ring.{Ring, IoResult, ok, no_slots, io_error, get_buffer_group, submit}
use inel.Register
use inel.Group
use inel.Group.{ReadBufferGroup}
use inel.Group.Operations.{provide_entry}
use inel.Group.Sets
use inel.Group.Sets.{WriteBufferSet, insert_buffer, get_buffer}

-- `WriteBufferSet::write` on what the write gives: the buffer goes into the set.
unfoldable pub finish_write : WriteBufferSet → List ℕ × Result ℕ → Result ℕ × WriteBufferSet
unfolding insert_buffer
finish_write set (buf, res) = (res, insert_buffer buf set)

pub record BufferShareGroupOptions : Type 0 where
  pub capacity : ℕ
  pub initial_read_count : ℕ
  pub initial_write_count : ℕ

unfoldable pub options : BufferShareGroupOptions
options = record { capacity = 4096; initial_read_count = 128; initial_write_count = 16 }

unfoldable pub buffer_capacity : ℕ → BufferShareGroupOptions → BufferShareGroupOptions
buffer_capacity n o = record o { capacity = n }

unfoldable pub initial_read_buffers : ℕ → BufferShareGroupOptions → BufferShareGroupOptions
initial_read_buffers n o = record o { initial_read_count = n }

unfoldable pub initial_write_buffers : ℕ → BufferShareGroupOptions → BufferShareGroupOptions
initial_write_buffers n o = record o { initial_write_count = n }

module _ (Q : Cqueue) (U : IoUring) (V : Slab Completion) (S : Slab BoxedSlice) where
  -- The entries of `ProvideBuffer` for each buffer in turn; making one moves its buffer into the
  -- group.
  unfoldable pub provide_all : List BoxedSlice → ReadBufferGroup S → List Entry × ReadBufferGroup S
  unfolding provide_entry
  provide_all [] g = ([], g)
  provide_all (b ∷ bs) g =
      let (entry, g') = provide_entry Q S b g in
      let (entries, g'') = provide_all bs g' in (entry ∷ entries, g'')

  -- The first polls of all the futures of a `FuturesUnordered`, which it makes before it waits.
  unfoldable pub submit_all : Ring Q U V → List Entry → ℕ → Outcome (Ring Q U V)
  submit_all r [] waker = done r
  submit_all r (entry ∷ entries) waker = do
    (r', key) ← submit Q U V r entry waker
    submit_all r' entries waker

  -- `ReadBufferSet::with_buffers` up to its first wait, on the group that `empty` gives and the
  -- buffers that it allocates. The number of buffers at once that `for_each_concurrent` is given
  -- limits only what is done with finished futures.
  unfoldable pub fill_group :
      List BoxedSlice
      → ℕ
      → Ring Q U V × ReadBufferGroup S
      → Outcome (Ring Q U V × ReadBufferGroup S)
  unfolding provide_all submit_all
  fill_group buffers waker (r, g) =
      let (entries, g') = provide_all buffers g in do r' ← submit_all r entries waker; done (r', g')

  -- `ReadBufferGroup::register`, and `ReadBufferSet::empty`.
  register_group : Ring Q U V × IoResult ℕ → Ring Q U V × IoResult (ReadBufferGroup S)
  register_group (r, ok id) = (r, ok (Group.register S (Register.group_index id)))
  register_group (r, no_slots) = (r, no_slots)
  register_group (r, io_error) = (r, io_error)

  unfoldable pub empty : Ring Q U V → Ring Q U V × IoResult (ReadBufferGroup S)
  unfolding register_group
  empty r = register_group (get_buffer_group Q U V r)

  pub record BufferShareGroup : Type 0 where
    pub read : ReadBufferGroup S
    pub write : WriteBufferSet

  unfoldable pub insert_read_buffer : BoxedSlice → BufferShareGroup → Entry × BufferShareGroup
  insert_read_buffer b s =
      let (entry, g) = Sets.insert Q S b s.read in (entry, record s { read = g })

  unfoldable pub insert_write_buffer : List ℕ → BufferShareGroup → BufferShareGroup
  insert_write_buffer b s = record s { write = insert_buffer b s.write }

  unfoldable pub get_write_buffer : BufferShareGroup → List ℕ × BufferShareGroup
  get_write_buffer s = let (b, w) = get_buffer s.write in (b, record s { write = w })

  -- `BufferShareGroupOptions::build`, on a set of read buffers that has been filled.
  unfoldable pub share : BufferShareGroupOptions → ReadBufferGroup S → BufferShareGroup
  share o read = record { read = read; write = Sets.with_buffers o.initial_write_count o.capacity }
