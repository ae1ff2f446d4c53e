-- ===== src/Buffer.antt =====
-- crates/inel-reactor/src/buffer.rs: the buffers that operations hand to the kernel, and views of
-- parts of them.
pub mod Kept
pub mod Cursor
mod Tests
use inel.Base.{
  List, [], ℕ, ◌+◌, ◌-◌, ◌%◌, ◌^◌, min, Bool, true, false, Option, none, some, List, length, take,
  drop, ◌++◌, ◌==◌, ltb, if◌then◌else◌, Outcome, done, expect, index_out_of_bounds, moved_out,
  panic,
}
use inel.Cancellation.{
  Cancellation, Effect, Vector, BoxedSlice, of_slice, of_vector, of_option, of_static,
  drop_boxed_slice, drop_vector,
}

-- The trait `StableBuffer` with `Into<Cancellation>` and the drop of the buffer. The null pointer is
-- 0.
pub record StableBuffer : Type 1 where
  pub Buf : Type 0
  pub stable_ptr : Buf → ℕ
  pub size : Buf → ℕ
  pub into : Buf → Cancellation
  pub dropped : Buf → List Effect

-- `&'static [u8]` and `&'static str`: an address and a length.
pub record Static : Type 0 where
  pub address : ℕ
  pub length : ℕ

unfoldable pub static_buffer : StableBuffer
static_buffer = record {
  Buf = Static;
  stable_ptr = λ b. b.address;
  size = λ b. b.length;
  into = λ b. of_static;
  dropped = λ b. [];
}

-- `Box<[u8]>`.
unfoldable pub boxed_buffer : StableBuffer
boxed_buffer = record {
  Buf = BoxedSlice;
  stable_ptr = λ b. b.address;
  size = λ b. b.length;
  into = of_slice;
  dropped = drop_boxed_slice;
}

ptr_or_null : Option BoxedSlice → ℕ
ptr_or_null none = 0
ptr_or_null (some b) = b.address

size_or_zero : Option BoxedSlice → ℕ
size_or_zero none = 0
size_or_zero (some b) = b.length

dropped_option : Option BoxedSlice → List Effect
dropped_option none = []
dropped_option (some b) = drop_boxed_slice b

-- `Option<Box<[u8]>>`.
unfoldable pub optional_buffer : StableBuffer
unfolding ptr_or_null size_or_zero dropped_option
optional_buffer = record {
  Buf = Option BoxedSlice;
  stable_ptr = ptr_or_null;
  size = size_or_zero;
  into = of_option of_slice;
  dropped = dropped_option;
}

-- `Vec<u8>` and `String`.
unfoldable pub vector_buffer : StableBuffer
vector_buffer = record {
  Buf = Vector;
  stable_ptr = λ b. b.address;
  size = λ b. b.length;
  into = of_vector;
  dropped = drop_vector;
}

-- `std::ops::Bound<usize>` and `RangeBounds<usize>`.
pub data Bound : Type 0 where
  included excluded : ℕ → Bound
  unbounded : Bound

pub record RangeBounds : Type 0 where
  pub start_bound : Bound
  pub end_bound : Bound

module _ (B : StableBuffer) where
  open B use {Buf}

  pub record View (R : Type 0) : Type 0 where
    pub inner : Buf
    pub range : R

  -- `+ 1` on a `usize`.
  unfoldable pub start : View RangeBounds → ℕ
  start v = elim v.range.start_bound [
    | included x ↦ x
    | excluded x ↦ (x + 1) % 2 ^ 64
    | unbounded ↦ 0
  ]

  unfoldable pub end : View RangeBounds → ℕ
  end v = elim v.range.end_bound [
    | included x ↦ (x + 1) % 2 ^ 64
    | excluded x ↦ x
    | unbounded ↦ B.size v.inner
  ]

  -- `StableBuffer` of a view. Subtraction is saturating.
  unfoldable pub view_ptr : View RangeBounds → ℕ
  unfolding start
  view_ptr v = (B.stable_ptr v.inner + start v) % 2 ^ 64

  unfoldable pub view_size : View RangeBounds → ℕ
  unfolding start end
  view_size v = min (end v) (B.size v.inner) - start v

  unfoldable pub of_view : View RangeBounds → Cancellation
  of_view v = B.into v.inner

  unfoldable pub view_buffer : StableBuffer
  unfolding view_ptr view_size of_view
  view_buffer = record {
    Buf = View RangeBounds;
    stable_ptr = view_ptr;
    size = view_size;
    into = of_view;
    dropped = λ v. B.dropped v.inner;
  }
