-- ===== src/Queues.antt =====
-- `ResultQueues` of crates/inel-reactor/src/ring/completion.rs.
pub mod Laws
use inel.Base.{
  ℕ, ◌%◌, ◌^◌, Bool, Option, none, some, List, [], ◌∷◌, ◌++◌, length, get_elem?, set, replicate,
  below, ◌==◌, Outcome, done, expect, index_out_of_bounds, ◌>>=◌,
}
use inel.RingResult.{RingResult}

-- A queue is its results in the order of arrival. `unused` is a stack: its head is the last element
-- of the source's vector.
pub record ResultQueues : Type 0 where
  pub queues : List (List RingResult)
  pub unused : List ℕ

unfoldable pub with_capacity : ℕ → ResultQueues
with_capacity n = record { queues = replicate n []; unused = below n }

unfoldable pub is_empty : ResultQueues → Bool
is_empty q = length q.queues == length q.unused

-- The handle and the new state. The index of a new queue is cut to a `u32`.
pop_or_push : List ℕ → ResultQueues → ℕ × ResultQueues
pop_or_push (handle ∷ rest) q = (handle, record q { unused = rest })
pop_or_push [] q = (length q.queues % 2 ^ 32, record { queues = q.queues ++ [] ∷ []; unused = [] })

unfoldable pub handle : ResultQueues → ℕ × ResultQueues
unfolding pop_or_push
handle q = pop_or_push q.unused q

unfoldable pub get : ResultQueues → ℕ → Outcome (List RingResult)
get q h = expect index_out_of_bounds (get_elem? q.queues h)

-- What is assigned through the reference that `get` returns.
unfoldable pub put : ResultQueues → ℕ → List RingResult → ResultQueues
put q h results = record q { queues = set q.queues h results }

unfoldable pub push_back : ResultQueues → ℕ → RingResult → Outcome ResultQueues
unfolding get put
push_back q h r = do results ← get q h; done (put q h (results ++ r ∷ []))

unfoldable pub release : ResultQueues → ℕ → Outcome ResultQueues
unfolding get put
release q h = do _ ← get q h; done (record (put q h []) { unused = h ∷ q.unused })
