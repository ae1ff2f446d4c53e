-- ===== src/Executor.antt =====
-- crates/inel-executor/src: the tasks with their flags and reference counts (task.rs), the wakers
-- (waker.rs) and the loop that runs the tasks (executor.rs). A task is its place in the order of
-- spawning; what its future does with wakers while it is polled is a sequence of steps.
pub mod Tasks
pub mod Balance
pub mod Run
pub mod Turns
pub mod Done
pub mod Starved
pub mod Join
mod Tests
use inel.Base.{
  ℕ, zero, suc, ◌+◌, ◌-◌, Bool, true, false, List, [], ◌∷◌, ◌++◌, length, ltb, ◌==◌, if◌then◌else◌,
}

-- `strong` is the count of the `Rc` that holds the task.
pub record Task : Type 0 where
  pub scheduled : Bool
  pub strong : ℕ

-- `TaskQueue`, with every task that was spawned: one whose count is 0 has been dropped, and the
-- sender that it held with it.
pub record Executor : Type 0 where
  pub tasks : List Task
  pub queue : List ℕ

unfoldable pub new : Executor
new = record { tasks = []; queue = [] }

unfoldable pub modify : ℕ → (Task → Task) → List Task → List Task
modify i f [] = []
modify zero f (t ∷ ts) = f t ∷ ts
modify (suc i) f (t ∷ ts) = t ∷ modify i f ts

abbrev pub more : Task → Task
more t = record t { strong = t.strong + 1 }

abbrev pub fewer : Task → Task
fewer t = record t { strong = t.strong - 1 }

abbrev pub with_flag : Bool → Task → Task
with_flag b t = record t { scheduled = b }

-- `Rc::clone`.
unfoldable pub clone_rc : ℕ → Executor → Executor
unfolding modify
clone_rc i e = record e { tasks = modify i more e.tasks }

-- The drop of an `Rc`.
unfoldable pub drop_rc : ℕ → Executor → Executor
unfolding modify
drop_rc i e = record e { tasks = modify i fewer e.tasks }

unfoldable pub is_scheduled : List Task → ℕ → Bool
is_scheduled [] i = true
is_scheduled (t ∷ ts) zero = t.scheduled
is_scheduled (t ∷ ts) (suc i) = is_scheduled ts i

-- `Task::schedule`.
unfoldable pub schedule : ℕ → Executor → Executor
unfolding is_scheduled clone_rc modify
schedule i e =
    if is_scheduled e.tasks i
    then e
    else clone_rc i
        (record { tasks = modify i (with_flag true) e.tasks; queue = e.queue ++ (i ∷ []) })

-- `TaskQueue::schedule`, which drops its own `Rc` at the end: `Executor::spawn`.
unfoldable pub spawn : Executor → Executor
unfolding schedule drop_rc
spawn e =
    let i = length e.tasks in
    drop_rc i
      (schedule i (record e { tasks = e.tasks ++ (record { scheduled = false; strong = 1 } ∷ []) }))

-- The iterator of `drain` takes a task off the queue; `run` makes a waker of a clone of it, and
-- `Task::poll` clears the flag before it polls the future.
unfoldable pub begin_poll : ℕ → List ℕ → Executor → Executor
unfolding clone_rc modify
begin_poll i rest e =
    clone_rc i (record { tasks = modify i (with_flag false) e.tasks; queue = rest })

-- The end of the body of the loop drops the waker and the task.
unfoldable pub end_poll : ℕ → Executor → Executor
unfolding drop_rc
end_poll i e = drop_rc i (drop_rc i e)

-- `WakerHelper::wake`, which drops the waker; `wake_by_ref` is `schedule`.
unfoldable pub wake : ℕ → Executor → Executor
unfolding schedule drop_rc
wake i e = drop_rc i (schedule i e)

-- The senders that tasks hold.
unfoldable pub senders : List Task → ℕ
senders [] = 0
senders (t ∷ ts) = (if t.strong == 0 then 0 else 1) + senders ts

-- `sender_count` counts the queue's own too.
unfoldable pub is_done : Executor → Bool
unfolding senders
is_done e = (senders e.tasks + 1) == 1
