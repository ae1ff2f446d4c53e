-- ===== src/Executor/Tests.antt =====
-- A task that keeps a waker of itself, and two tasks that are polled in turn.
use inel.Base.{ℕ, ◌≡◌, ◌≢◌, ◌⊎◌, ◌↔◌, refl, true, List, [], ◌∷◌, ◌++◌, drop, arith}
use inel.Executor.{is_done}
use inel.Executor.Balance.{Balances}
use inel.Executor.Run.{
  System, held, Reached, start, next, started, spawn_task, check, poll, clone_waker, spawns, checks,
  polls, clones, returns, wakes_by_ref, wake_by_ref, return_from, by_loop, waiting, draining,
  polling, Reached-Balances,
}
use inel.Executor.Done.{stops_iff}
use inel.Executor.Starved.{wakes_itself, never_waits}
use inel.Executor.Turns.{Steps, none, then_one, polls_begun, polled_in_turn}

unfoldable one_task : System
one_task = spawn_task started

one_task-Reached : Reached one_task
unfolding one_task
one_task-Reached = next start spawns

stops_iff_example :
    (is_done one_task.executor ≡ true) ↔ ((one_task.executor.queue ≡ []) × (one_task.wakers ≡ []))
unfolding one_task spawn_task started
stops_iff_example = stops_iff one_task one_task-Reached refl

unfoldable keeps_waker : System
keeps_waker = clone_waker 0 (poll 0 [] (check one_task))

keeps_waker-Reached : Reached keeps_waker
unfolding keeps_waker one_task spawn_task started check poll inel.Executor.is_done
    inel.Executor.spawn held
keeps_waker-Reached =
    next (next (next one_task-Reached (checks refl)) (polls 0 [] refl refl))
      (clones 0 (omega arith))

Reached-Balances_example : Balances keeps_waker.executor (held keeps_waker)
Reached-Balances_example = Reached-Balances keeps_waker-Reached

unfoldable two_tasks : System
two_tasks = check (spawn_task one_task)

unfoldable first_polled : System
first_polled = poll 0 (1 ∷ []) two_tasks

polls_first : Steps two_tasks first_polled
unfolding first_polled two_tasks one_task spawn_task started check inel.Executor.is_done
    inel.Executor.spawn
polls_first = then_one none (polls 0 (1 ∷ []) refl refl)

polled_in_turn_example :
    (later : List ℕ) × (first_polled.executor.queue
      ≡ drop (polls_begun polls_first) (0 ∷ []) ++ (1 ∷ later))
unfolding polls_first polls_begun two_tasks one_task spawn_task started check inel.Executor.spawn
polled_in_turn_example = polled_in_turn polls_first (0 ∷ []) [] 1 refl (omega arith)

-- One poll of a task that wakes itself.
unfoldable woken : System
woken = wake_by_ref 0 (poll 0 [] (check one_task))

turn : Steps (check one_task) (return_from 0 woken)
unfolding woken one_task spawn_task started check poll wake_by_ref held by_loop
    inel.Executor.is_done inel.Executor.spawn
turn =
    then_one (then_one (then_one none (polls 0 [] refl refl)) (wakes_by_ref 0 (omega arith)))
      (returns 0 refl)

never_waits_example :
    ((return_from 0 woken).phase ≢ waiting)
    × (((return_from 0 woken).phase ≡ draining)
        ⊎ ((j : ℕ) × ((return_from 0 woken).phase ≡ polling j)))
unfolding turn woken one_task spawn_task started check poll wake_by_ref wakes_itself
    inel.Executor.begin_poll inel.Executor.is_done inel.Executor.spawn
never_waits_example =
    never_waits 0 turn (next one_task-Reached (checks refl)) refl (omega arith) refl
