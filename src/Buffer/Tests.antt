-- ===== src/Buffer/Tests.antt =====
-- Concrete buffers and views.
use inel.Base.{ℕ, ◌≡◌, List, [], ◌∷◌, length, ◌==◌, if◌then◌else◌, arith}
use inel.Buffer.{RangeBounds, View, boxed_buffer, included, unbounded, of_view, view_ptr, view_size}
use inel.Buffer.Kept.{IsKept, Keeps, view-Keeps, boxed_buffer-IsKept}
use inel.Buffer.Cursor.{StableBufferMut, Reading, Writing}

-- A buffer of eight bytes that is its bytes; what does not fit is not stored.
store_at : List ℕ → List ℕ → List ℕ
store_at b m = if length m == length b then m else b

store_at-eq : (b m : List ℕ) → length m ≡ length b → store_at b m ≡ m
unfolding store_at
store_at-eq b m e = ground (arith, e)

abbrev plain : StableBufferMut
plain = record { Buf = List ℕ; bytes = λ b. b; store = store_at; bytes-store = store_at-eq }

abbrev half : Writing plain
half = record { inner = 1 ∷ 2 ∷ 0 ∷ 0 ∷ []; pos = 2 }

abbrev rest : Reading plain
rest = record { inner = 1 ∷ 2 ∷ 3 ∷ 4 ∷ []; range = record { start = 1; end = 3 } }

abbrev part : View boxed_buffer RangeBounds
unfolding boxed_buffer
part = record {
  inner = record { address = 4096; length = 8 };
  range = record { start_bound = included 3; end_bound = unbounded };
}

view-Keeps_example :
    Keeps (of_view boxed_buffer part) (view_ptr boxed_buffer part) (view_size boxed_buffer part)
unfolding boxed_buffer part IsKept
view-Keeps_example = view-Keeps boxed_buffer part (omega arith) (boxed_buffer-IsKept part.inner)
