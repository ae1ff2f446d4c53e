-- ===== src/Group/Share/Room.antt =====
-- How many read buffers fit into the submission queue when a set is filled.
mod Tests
use inel.Base.{
  ℕ, zero, suc, ◌+◌, ◌-◌, ◌<◌, ◌≤◌, ◌≡◌, refl, ap, Option, none, some, Option-cases, inl, inr, List,
  [], ◌∷◌, length, Outcome, done, panic, queue_full, ◌>>=◌, arith,
}
use inel.RingResult.{Cqueue}
use inel.Cancellation.{BoxedSlice}
use inel.IoUring.{IoUring, Entry}
use inel.Slab.{Slab, len}
use inel.Key
use inel.Completion
use inel.Completion.{Completion}
use inel.Ring.{Ring, submit}
use inel.Group
use inel.Group.{ReadBufferGroup, present}
use inel.Group.Operations.{provide_entry}
use inel.Group.Share.{provide_all, submit_all, fill_group}

-- The free places of the submission queue: an entry is refused exactly where there is none, and
-- takes one.
pub record Places (U : IoUring) : Type 0 where
  pub room : U.Instance → ℕ
  pub refused : (e : Entry) (u : U.Instance) → U.push e u ≡ none → room u ≡ 0
  pub taken : (e : Entry) (u u' : U.Instance) → U.push e u ≡ some u' → room u ≡ room u' + 1

module _ (Q : Cqueue) (U : IoUring) (V : Slab Completion) (S : Slab BoxedSlice) (P : Places U) where
  open P use {room}

  -- What filling a set leaves of the queue, or that it panics.
  unfoldable pub Fills : ℕ → ℕ → Outcome (Ring Q U V) → Type 0
  Fills before n (done r) = before ≡ room r.ring + n
  Fills before n (panic e) = (before < n) × (e ≡ queue_full)

  one_more :
      (before after n : ℕ) (o : Outcome (Ring Q U V))
      → before ≡ after + 1
      → Fills after n o
      → Fills before (suc n) o
  unfolding Fills
  one_more before after n (done r) e h = omega (arith, e, h)
  one_more before after n (panic x) e (few, same) = (omega (arith, e, few), same)

  submit_all-Fills :
      (entries : List Entry) (r : Ring Q U V) (waker : ℕ)
      → Fills (room r.ring) (length entries) (submit_all Q U V S r entries waker)
  unfolding submit_all submit Fills
  submit_all-Fills [] r waker = omega arith
  submit_all-Fills (entry ∷ entries) r waker =
      let (key, completions) = Completion.insert V r.completions waker in
      let pushed : Entry = record entry { user_data = Key.as_u64 key } in
      elim (Option-cases (U.push pushed r.ring)) [
        | inl n ↦ rw n (omega (arith, P.refused pushed r.ring n), refl)
        | inr (u, y) ↦ rw y (
            one_more (room r.ring) (room u) (length entries) _ (P.taken pushed r.ring u y)
              (submit_all-Fills entries _ waker))
      ]

  pub provide_all-present :
      (buffers : List BoxedSlice) (g : ReadBufferGroup S)
      → (length ((provide_all Q U V S buffers g).0) ≡ length buffers)
        × (present S ((provide_all Q U V S buffers g).1) ≡ present S g + length buffers)
  unfolding provide_all provide_entry Group.put present len
  provide_all-present [] g = (refl, omega arith)
  provide_all-present (b ∷ bs) g =
      let more : ReadBufferGroup S = record g {
        storage = record (g.storage) { buffers = (S.insert b g.storage.buffers).1 };
      } in
      let (count, all) = provide_all-present bs more in
      (ap suc count, omega (arith, all, S.total-insert (λ _. 1) b g.storage.buffers))

  -- What filling a set with so many buffers leaves.
  unfoldable pub FillsGroup :
      ℕ → ℕ → ReadBufferGroup S → Outcome (Ring Q U V × ReadBufferGroup S) → Type 0
  FillsGroup before n g (done (r, g')) =
      (before ≡ room r.ring + n) × (present S g' ≡ present S g + n)
  FillsGroup before n g (panic e) = (before < n) × (e ≡ queue_full)

  with_group :
      (before n m : ℕ) (g g' : ReadBufferGroup S) (o : Outcome (Ring Q U V))
      → m ≡ n
      → present S g' ≡ present S g + n
      → Fills before m o
      → FillsGroup before n g (o >>= λ r'. done (r', g'))
  unfolding Fills FillsGroup
  with_group before n m g g' (done r) e all h = (omega (arith, e, h), all)
  with_group before n m g g' (panic x) e all (few, same) = (omega (arith, e, few), same)

  -- Filling a set submits the entries of all its buffers before it waits for any: it panics, as the
  -- submission queue is full, where the queue has not that many free places; otherwise every buffer
  -- is present in the group and has taken one place.
  pub fill_group-FillsGroup :
      (buffers : List BoxedSlice) (waker : ℕ) (r : Ring Q U V) (g : ReadBufferGroup S)
      → FillsGroup (room r.ring) (length buffers) g (fill_group Q U V S buffers waker (r, g))
  unfolding fill_group
  fill_group-FillsGroup buffers waker r g =
      let (count, all) = provide_all-present buffers g in
      with_group (room r.ring) (length buffers) (length ((provide_all Q U V S buffers g).0)) g
        ((provide_all Q U V S buffers g).1)
        (submit_all Q U V S r ((provide_all Q U V S buffers g).0) waker) count all
        (submit_all-Fills ((provide_all Q U V S buffers g).0) r waker)
