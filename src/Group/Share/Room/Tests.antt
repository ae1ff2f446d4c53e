-- ===== src/Group/Share/Room/Tests.antt =====
-- A set of two buffers, on a queue with three places.
use inel.Base.{ℕ, zero, suc, ◌+◌, ◌≡◌, refl, Option, none, some, [], ◌∷◌, arith}
use inel.Cancellation.{BoxedSlice}
use inel.IoUring.{IoUring}
use inel.Slab.Vector.{vector_slab}
use inel.Completion.Examples.{linux, V, fresh}
use inel.Ring.{Ring}
use inel.Ring.Examples.{slots}
use inel.Group
use inel.Group.{ReadBufferGroup}
use inel.Group.Share.{fill_group}
use inel.Group.Share.Room.{Places, FillsGroup, fill_group-FillsGroup}

push_one : ℕ → Option ℕ
push_one zero = none
push_one (suc n) = some n

push_one-none : (n : ℕ) → push_one n ≡ none → n ≡ 0
unfolding push_one
push_one-none zero e = refl
push_one-none (suc n) e = cc

push_one-some : (n m : ℕ) → push_one n ≡ some m → n ≡ m + 1
unfolding push_one
push_one-some zero m e = cc
push_one-some (suc n) m e = let same : n ≡ m = cc in omega (arith, same)

-- A queue is the number of its free places.
abbrev queue : IoUring
queue = record {
  Instance = ℕ;
  build = λ n. some n;
  push = λ e u. push_one u;
  submit_and_wait = λ n u. some u;
  completion = λ u. ([], u);
  register = λ r u. some u;
}

abbrev places : Places queue
places = record {
  room = λ u. u;
  refused = λ e u h. push_one-none u h;
  taken = λ e u u' h. push_one-some u u' h;
}

abbrev three_left : Ring linux queue V
three_left = record {
  ring = 3;
  active = 0;
  detached = 0;
  canceled = 0;
  completions = fresh;
  direct_files = slots;
  fixed_buffers = slots;
  buffer_groups = slots;
}

abbrev page : BoxedSlice
page = record { address = 4096; length = 64 }

unfoldable group : ReadBufferGroup (vector_slab BoxedSlice)
group = Group.register (vector_slab BoxedSlice) 3

fill_group-FillsGroup_example :
    FillsGroup linux queue V
      (vector_slab BoxedSlice)
      places
      3
      2
      group
      (fill_group linux queue V (vector_slab BoxedSlice) (page ∷ page ∷ []) 5 (three_left, group))
fill_group-FillsGroup_example =
    fill_group-FillsGroup linux queue V (vector_slab BoxedSlice) places (page ∷ page ∷ []) 5
      three_left group
