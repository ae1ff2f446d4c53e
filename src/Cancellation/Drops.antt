-- ===== src/Cancellation/Drops.antt =====
-- What `drop_raw` of a cancellation does, against the drop of the value that it was made from.
use mathlib.Core.List.{flat_map}
use inel.RingResult.{RingResult}
use inel.Base.{ℕ, suc, ◌-◌, ◌<◌, ◌≡◌, ◌↔◌, refl, ap, ap₂, List, [], ◌∷◌, ◌++◌, arith, length}
use inel.Cancellation.{
  Cancellation, Cancellations, nil, cons, Vector, BoxedSlice, combine, of_vector, of_cstring,
  drop_raw, drop_cancels_raw, consume, free, drop_vector, drop_boxed_slice, length_cancels,
}

abbrev pub to_list : Cancellations → List Cancellation
to_list nil = []
to_list (cons c cs) = c ∷ to_list cs

length-to_list : (cs : Cancellations) → length_cancels cs ≡ length (to_list cs)
length-to_list nil = refl
length-to_list (cons c cs) = ap suc (length-to_list cs)

free-eq : (a m n : ℕ) → (free a m ≡ free a n) ↔ (m ≡ n)
unfolding free
free-eq a m n = ground arith

-- Dropping the cancellation made from a vector does what dropping the vector does exactly when the
-- vector has no spare capacity.
pub drop_raw-of_vector :
    (v : Vector) → (drop_raw (of_vector v) ≡ drop_vector v) ↔ (v.length ≡ v.capacity)
unfolding drop_raw of_vector drop_vector
drop_raw-of_vector v = free-eq v.address v.length v.capacity

-- The cancellation made from a `CString`, which counts its zero byte, never returns the memory as
-- it was allocated.
pub drop_raw-of_cstring :
    (s : BoxedSlice) → 0 < s.length → ¬ (drop_raw (of_cstring s) ≡ drop_boxed_slice s)
unfolding drop_raw of_cstring drop_boxed_slice
drop_raw-of_cstring s h e = omega (arith, (free-eq s.address (s.length - 1) s.length).0 e)

drop_cancels_raw-flat_map :
    (cs : Cancellations) → drop_cancels_raw cs ≡ flat_map drop_raw (to_list cs)
unfolding drop_raw flat_map
drop_cancels_raw-flat_map nil = refl
drop_cancels_raw-flat_map (cons c cs) = ap (◌++◌ (drop_raw c)) (drop_cancels_raw-flat_map cs)

-- A combined cancellation drops each of its parts once, in order, then returns their array, and
-- hands no result to any of their callbacks.
pub drop_raw-combine :
    (a : ℕ) (cs : Cancellations) (r : RingResult)
    → (drop_raw (combine a cs) ≡ flat_map drop_raw (to_list cs) ++ free a (length (to_list cs)))
      × (consume (combine a cs) r ≡ [])
unfolding drop_raw combine consume
drop_raw-combine a cs r =
    (ap₂ (λ xs n. xs ++ free a n) (drop_cancels_raw-flat_map cs) (length-to_list cs), refl)
