-- ===== src/Group/Operations.antt =====
-- crates/inel-reactor/src/op/group.rs: the operations on a group, which they share with its owner: the
-- group is passed in and out.
use inel.Base.{
  ℕ, ◌%◌, ◌^◌, ltb, ◌==◌, if◌then◌else◌, Option, none, some, Outcome, done, panic, assertion_failed,
  unwrap_failed, ◌>>=◌,
}
use inel.RingResult.{Cqueue, RingResult, buffer_id}
use inel.Cancellation.{BoxedSlice}
use inel.IoUring.{Entry, Target, provide_buffers, remove_buffers, read_select, read_multi}
use inel.Slab.{Slab}
use inel.Op.{entry_of}
use inel.Op.Results.{Result, ok, err, expect_positive, expect_zero}
use inel.Op.Transfer.{no_offset}
use inel.Group
use inel.Group.{ReadBufferGroup, present}

module _ (Q : Cqueue) (S : Slab BoxedSlice) where
  -- `ProvideBuffer::entry`, which moves the buffer into the group. The size is cut to 32 bits.
  unfoldable pub provide_entry : BoxedSlice → ReadBufferGroup S → Entry × ReadBufferGroup S
  unfolding Group.put
  provide_entry b g =
      let (id, g') = Group.put S b g in
      (entry_of (provide_buffers b.address (b.length % 2 ^ 32) 1 g.id id), g')

  unfoldable pub provide_result : RingResult → Outcome (Result (Unit {0}))
  unfolding expect_zero
  provide_result res = expect_zero res

  -- `RemoveBuffers`.
  unfoldable pub remove_entry : ReadBufferGroup S → Entry
  unfolding present
  remove_entry g = entry_of (remove_buffers (present S g % 2 ^ 16) g.id)

  unfoldable pub unwrap : Result ℕ → Outcome ℕ
  unwrap (ok n) = done n
  unwrap (err e) = panic unwrap_failed

  unfoldable pub remove_result : ReadBufferGroup S → RingResult → Outcome (ReadBufferGroup S)
  unfolding present Group.clear unwrap expect_positive
  remove_result g res =
      if ltb 0 (present S g)
      then (expect_positive res >>= unwrap >>= λ removed.
          if removed == present S g then done (Group.clear S g) else panic assertion_failed)
      else done g

  -- `ReadGroup::entry`: the kernel picks a buffer of the group.
  unfoldable pub read_entry : Target → ReadBufferGroup S → Entry
  read_entry source g = entry_of (read_select source 0 0 g.id no_offset)

  unfoldable pub read_multi_entry : Target → ReadBufferGroup S → Entry
  read_multi_entry source g = entry_of (read_multi source g.id)

  unfoldable pub taken :
      Option ℕ → ReadBufferGroup S → Outcome (Option BoxedSlice × ReadBufferGroup S)
  unfolding Group.take
  taken none g = done (none, g)
  taken (some id) g = Group.take S id g >>= λ (b, g'). done (some b, g')

  -- `ReadGroup::result`, and `ReadGroupMulti::next`.
  unfoldable pub read_result :
      ReadBufferGroup S → RingResult → Outcome ((Option BoxedSlice × Result ℕ) × ReadBufferGroup S)
  unfolding taken buffer_id expect_positive
  read_result g res = taken (buffer_id Q res) g >>= λ (buffer, g').
      (expect_positive res >>= λ count. done ((buffer, count), g'))

  -- The callback of `ReadGroup::cancel` and of `ReadGroupMulti::cancel`.
  unfoldable pub on_cancelled : ReadBufferGroup S → RingResult → Outcome (ReadBufferGroup S)
  unfolding Group.mark_cancelled buffer_id
  on_cancelled g res = elim (buffer_id Q res) [
    | none ↦ done g
    | some id ↦ Group.mark_cancelled S id g
  ]
