-- ===== src/Cancellation/Tests.antt =====
-- Concrete cancellations.
use inel.Base.Int.{pos}
use inel.RingResult.{RingResult}
use inel.Cancellation.{Cancellations, nil, cons, BoxedSlice, Vector, consuming, of_slice}

abbrev hundred : RingResult
hundred = record { ret = pos 100; flags = 0 }

abbrev slice : BoxedSlice
slice = record { address = 7; length = 5 }

abbrev spare : Vector
spare = record { address = 7; length = 3; capacity = 8 }

abbrev parts : Cancellations
parts = cons (of_slice slice) (cons (consuming 30 2) nil)
