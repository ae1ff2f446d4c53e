-- ===== src/Executor/Join/Tests.antt =====
-- A task that gives its output in its first poll.
use inel.Base.{ℕ, ◌≡◌, refl, ap, Option, none, some, [], expect, deadlock}
use inel.Executor.{is_done}
use inel.Executor.Run.{
  System, started, start, check, poll, return_from, checking, checks, polls, returns, waits,
  resumes, spawn_task,
}
use inel.Executor.Join.{
  Received, value, empty, Oneshot, Joins, spawned, steps, gives, finish_block_on, block_on-Ends,
}

received : Option ℕ → Received ℕ
received none = empty
received (some v) = value v

received-some : (o : Option ℕ) (v : ℕ) → received o ≡ value v → o ≡ some v
unfolding received
received-some none v e = cc
received-some (some w) v e = cc

received_of : (c : Option ℕ) (v : ℕ) → c ≡ some v → received c ≡ value v
unfolding received
received_of c v h = ap received h

-- The channel is what was sent last.
abbrev cell : Oneshot ℕ
cell = record {
  Channel = Option ℕ;
  channel = none;
  send = λ v c. some v;
  drop_sender = λ c. c;
  try_recv = received;
  sent = λ c. c;
  channel-sent = refl;
  send-sent = λ v c h. refl;
  drop-sent = λ c. refl;
  recv-value = received_of;
  recv-none = received-some;
}

abbrev one_task : System
one_task = spawn_task started

abbrev polled : System
polled = return_from 0 (poll 0 [] (check one_task))

abbrev ended : System
ended = record polled { phase = checking }

gives_output : Joins cell 0 ended (some 42) (some 42)
unfolding started spawn_task check poll return_from inel.Executor.spawn inel.Executor.schedule
    inel.Executor.begin_poll inel.Executor.end_poll is_done inel.Executor.Join.spawn_with
gives_output =
    steps
      (steps
        (steps
          (gives 42 (steps (steps (spawned start refl) (checks refl)) (polls 0 [] refl refl)) refl)
          (returns 0 refl))
        (waits refl refl))
      (resumes refl)

block_on-Ends_example :
    (finish_block_on cell (some 42) ≡ expect deadlock (some 42))
    × (ended.executor.queue ≡ [])
    × (ended.wakers ≡ [])
unfolding started spawn_task check poll return_from inel.Executor.spawn inel.Executor.schedule
    inel.Executor.begin_poll inel.Executor.end_poll is_done
block_on-Ends_example = block_on-Ends cell gives_output refl refl
