-- ===== src/Group/Tests.antt =====
-- A group of two buffers over the slab that is a vector.
use inel.Base.{ℕ, ◌+◌, ◌≡◌, refl, false, some, [], ◌∷◌, done, arith}
use inel.Base.Int.{pos}
use inel.RingResult.{Cqueue, RingResult, buffer_id}
use inel.Cancellation.{BoxedSlice}
use inel.Slab.Vector.{vector_slab}
use inel.Op.Results.{Result, expect_positive}
use inel.Group
use inel.Group.{ReadBufferGroup, present}
use inel.Group.Operations.{read_result}
use inel.Group.Kernel.{
  Shared, Agrees, Reached, start, next, inserts, provided, find, forget, region, HasRoom,
  Reached-Agrees, read-gives,
}

-- The flags are the number of the buffer.
abbrev flags_are_ids : Cqueue
flags_are_ids = record { more = λ f. false; buffer_select = λ f. some f }

abbrev page : BoxedSlice
page = record { address = 4096; length = 64 }

abbrev fresh : Shared flags_are_ids (vector_slab BoxedSlice)
fresh = record { group = Group.register (vector_slab BoxedSlice) 3; known = [] }

unfoldable one_page : Shared flags_are_ids (vector_slab BoxedSlice)
one_page = provided flags_are_ids (vector_slab BoxedSlice) page fresh

one_page-Reached : Reached flags_are_ids (vector_slab BoxedSlice) one_page
unfolding one_page HasRoom Group.register
one_page-Reached = next (start 3) (inserts page (omega arith))

Reached-Agrees_example : Agrees flags_are_ids (vector_slab BoxedSlice) one_page
Reached-Agrees_example = Reached-Agrees flags_are_ids (vector_slab BoxedSlice) one_page-Reached

abbrev seven_bytes : RingResult
seven_bytes = record { ret = pos 7; flags = 0 }

read-gives_example :
    (b : BoxedSlice) × (count : Result ℕ) × (g : ReadBufferGroup (vector_slab BoxedSlice))
    × (read_result flags_are_ids (vector_slab BoxedSlice) one_page.group seven_bytes
        ≡ done ((some b, count), g))
    × (expect_positive seven_bytes ≡ done count)
    × (region b ≡ region page)
    × (g.storage.cancelled ≡ one_page.group.storage.cancelled)
    × (present (vector_slab BoxedSlice) g + 1 ≡ present (vector_slab BoxedSlice) one_page.group)
    × Agrees flags_are_ids
        (vector_slab BoxedSlice)
        (record { group = g; known = forget 0 one_page.known })
unfolding one_page buffer_id find provided Group.register
read-gives_example =
    read-gives flags_are_ids (vector_slab BoxedSlice) one_page 0 (region page) seven_bytes
      (Reached-Agrees flags_are_ids (vector_slab BoxedSlice) one_page-Reached) refl refl

abbrev one_cancelled : ReadBufferGroup (vector_slab BoxedSlice)
one_cancelled = record { id = 3; storage = record { buffers = []; cancelled = page ∷ [] } }
