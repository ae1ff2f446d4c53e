-- ===== src/Completion/Own.antt =====
-- Who owns a result queue: each is unused, or held by one completion.
use inel.Base.{
  ℕ, ◌+◌, ◌≤◌, ◌<◌, ◌≡◌, ◌≢◌, true, false, some, List, ◌∷◌, length, get_elem?, count, ◌==◌,
  if◌then◌else◌, arith,
}
use inel.RingResult.{RingResult}
use inel.Slab.{Slab}
use inel.Slab.Facts.{le-total, add-le-total}
use inel.Queues.{ResultQueues}
use inel.Queues.Laws.{inside, IsClear, IsPool}
use inel.Completion.{
  Completion, vacant, single, multiple, cancelled, finished, CompletionSet, is_finished,
}

-- 1 if the completion stores its results in queue `h`.
abbrev pub holds : ℕ → Completion → ℕ
holds h (multiple waker handle more) = if handle == h then 1 else 0
holds h (vacant waker) = 0
holds h (single result) = 0
holds h (cancelled cancel) = 0
holds h finished = 0

abbrev pub is_multiple : Completion → ℕ
is_multiple (multiple waker handle more) = 1
is_multiple (vacant waker) = 0
is_multiple (single result) = 0
is_multiple (cancelled cancel) = 0
is_multiple finished = 0

-- The queue of an entry that expects no more results is not empty.
abbrev pub IsFull : Completion → ResultQueues → Type 0
IsFull (multiple waker handle false) q =
    (r : RingResult) × (rs : List RingResult) × (get_elem? q.queues handle ≡ some (r ∷ rs))
IsFull (multiple waker handle true) q = Unit {0}
IsFull (vacant waker) q = Unit {0}
IsFull (single result) q = Unit {0}
IsFull (cancelled cancel) q = Unit {0}
IsFull finished q = ⊥

module _ (S : Slab Completion) where
  open S use {get, total}

  pub record Inv (s : CompletionSet S) : Type 0 where
    pub owners : (h : ℕ) → count h s.queues.unused + total (holds h) s.slab ≡ inside h s.queues
    pub sized : length s.queues.unused + total is_multiple s.slab ≡ length s.queues.queues
    pub clear : IsClear s.queues
    pub full : (k : ℕ) (c : Completion) → get k s.slab ≡ some c → IsFull c s.queues

-- The change that a method makes to one completion and the queues keeps the others' queues.
pub record Local (c c' : Completion) (q q' : ResultQueues) : Type 0 where
  pub owners :
      (h : ℕ)
      → count h q'.unused + holds h c' + inside h q ≡ count h q.unused + holds h c + inside h q'
  pub sized :
      length q'.unused + is_multiple c' + length q.queues
      ≡ length q.unused + is_multiple c + length q'.queues
  pub kept :
      (h : ℕ)
      → holds h c ≡ 0
      → count h q.unused ≡ 0
      → h < length q.queues
      → get_elem? q'.queues h ≡ get_elem? q.queues h
  pub clear : IsClear q'
  pub grown : length q'.queues ≤ length q.queues + 1
  pub full : is_finished c' ≡ false → IsFull c' q'

module _ (S : Slab Completion) {s : CompletionSet S} (v : Inv S s) where
  open S use {get, total, write, remove}
  open s use {slab, queues}

  pub Inv-IsPool : IsPool queues
  Inv-IsPool h = omega (arith, v.owners h)

  -- A completion's queue exists and is not unused.
  pub held :
      (k h : ℕ) {c : Completion}
      → get k slab ≡ some c
      → holds h c ≡ 1
      → (count h queues.unused ≡ 0) × (h < length queues.queues)
  held k h e own = ground (arith, v.owners h, le-total S (holds h) k slab e)

  -- No other completion has that queue.
  pub held_once :
      (k j h : ℕ) {c d : Completion}
      → k ≢ j
      → get k slab ≡ some c
      → get j slab ≡ some d
      → holds h d ≡ 1
      → holds h c ≡ 0
  held_once k j h ne e e' own =
      ground (arith, v.owners h, add-le-total S (holds h) k j slab ne e e')
