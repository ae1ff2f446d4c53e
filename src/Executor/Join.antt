-- ===== src/Executor/Join.antt =====
-- join.rs and `Executor::spawn` and `Executor::block_on` of executor.rs: how the output of a future
-- reaches the one who waits for it. The channel is that of the crate `futures`.
mod Tests
use inel.Base.{
  ℕ, length, ◌≡◌, refl, sym, ap, ◌∙◌, true, Option, none, some, List, [], Outcome, done, panic,
  expect, deadlock, arith,
}
use inel.Executor.{is_done}
use inel.Executor.Tasks.{tally, strong_of}
use inel.Executor.Run.{System, Step, spawns, spawn_task, checking, polling, Reached, next}
use inel.Executor.Done.{stops_iff}

-- `oneshot::Receiver::try_recv`: a value, none yet, or none any more.
pub data Received (T : Type 0) : Type 0 where
  value : T → Received T
  empty : Received T
  canceled : Received T

-- `oneshot::channel` as its state. A value that was sent stays until it is received, also when the
-- sender is dropped; without one nothing is received.
pub record Oneshot (T : Type 0) : Type 1 where
  pub Channel : Type 0
  pub channel : Channel
  pub send : T → Channel → Channel
  pub drop_sender : Channel → Channel
  pub try_recv : Channel → Received T
  pub sent : Channel → Option T
  pub channel-sent : sent channel ≡ none
  pub send-sent : (v : T) (c : Channel) → sent c ≡ none → sent (send v c) ≡ some v
  pub drop-sent : (c : Channel) → sent (drop_sender c) ≡ sent c
  pub recv-value : (c : Channel) (v : T) → sent c ≡ some v → try_recv c ≡ value v
  pub recv-none : (c : Channel) (v : T) → try_recv c ≡ value v → sent c ≡ some v

module _ {T : Type 0} (O : Oneshot T) where
  open O use {Channel, channel, send, drop_sender, try_recv, sent}

  -- `JoinHandle::try_join`: `.ok()?` makes one of both that are no value.
  unfoldable pub joined : Received T → Option T
  joined (value v) = some v
  joined empty = none
  joined canceled = none

  unfoldable pub try_join : Channel → Option T
  unfolding joined
  try_join c = joined (try_recv c)

  -- The end of `block_on`, once `run` has returned.
  unfoldable pub finish_block_on : Channel → Outcome T
  unfolding try_join
  finish_block_on c = expect deadlock (try_join c)

  -- `Executor::spawn`: the task, which gets the next place, and the channel of its handle.
  unfoldable pub spawn_with : System → System × Channel
  spawn_with s = (spawn_task s, channel)

  -- The executor with the channel of the task `k`, and the output that its future has given. The
  -- task is spawned with its channel; its future gives its output while the task is polled, once;
  -- the sender goes with the task.
  pub data Joins (k : ℕ) : System → Channel → Option T → Type 0 where
    spawned :
        {s : System}
        → Reached s
        → k ≡ length s.executor.tasks
        → Joins k (spawn_with s).0 (spawn_with s).1 none
    steps : {s t : System} {c : Channel} {o : Option T} → Joins k s c o → Step s t → Joins k t c o
    gives :
        {s : System} {c : Channel} (v : T)
        → Joins k s c none
        → s.phase ≡ polling k
        → Joins k s (send v c) (some v)
    drops :
        {s : System} {c : Channel} {o : Option T}
        → Joins k s c o
        → tally strong_of s.executor.tasks k ≡ 0
        → Joins k s (drop_sender c) o

  reached : {k : ℕ} {s : System} {c : Channel} {o : Option T} → Joins k s c o → Reached s
  unfolding spawn_with
  reached (spawned r e) = next r spawns
  reached (steps j t) = next (reached j) t
  reached (gives v j p) = reached j
  reached (drops j p) = reached j

  holds : {k : ℕ} {s : System} {c : Channel} {o : Option T} → Joins k s c o → sent c ≡ o
  unfolding spawn_with
  holds (spawned r e) = O.channel-sent
  holds (steps j t) = holds j
  holds (gives {c = c} v j p) = O.send-sent v c (holds j)
  holds (drops {c = c} j p) = O.drop-sent c ∙ holds j

  recv_cases :
      (c : Channel) (o : Option T) (x : Received T) → try_recv c ≡ x → sent c ≡ o → joined x ≡ o
  unfolding joined
  recv_cases c o (value v) at h = sym (O.recv-none c v at) ∙ h
  recv_cases c none empty at h = refl
  recv_cases c (some v) empty at h = cc (O.recv-value c v h)
  recv_cases c none canceled at h = refl
  recv_cases c (some v) canceled at h = cc (O.recv-value c v h)

  -- Where the loop of `block_on` ends, `block_on` gives the output of the future if it has given
  -- one, whether or not its sender is still there; otherwise it panics for a deadlock, and then no
  -- task is queued and nobody keeps a waker of any, so that the future could never have gone on.
  pub block_on-Ends :
      {k : ℕ} {s : System} {c : Channel} {o : Option T}
      → Joins k s c o
      → s.phase ≡ checking
      → is_done s.executor ≡ true
      → (finish_block_on c ≡ expect deadlock o) × (s.executor.queue ≡ []) × (s.wakers ≡ [])
  unfolding finish_block_on try_join
  block_on-Ends {s = s} {c} {o} j p e =
      let (queue, wakers) = (stops_iff s (reached j) p).0 e in
      (ap (expect deadlock) (recv_cases c o (try_recv c) refl (holds j)), queue, wakers)
