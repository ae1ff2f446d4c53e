-- ===== src/Cancellation.antt =====
-- crates/inel-reactor/src/cancellation.rs.
-- A cancellation keeps what an operation owned until the kernel is done with it.
mod Drops
mod Tests
use inel.Base.{
  ℕ, suc, ◌+◌, ◌-◌, Option, none, some, List, [], ◌∷◌, ◌++◌, Bool, length, ◌==◌, if◌then◌else◌,
}
use inel.RingResult.{RingResult}

-- The closures that `drop` holds, one for each constructor of a cancellation.
pub data DropFn : Type 0 where
  drop_rc drop_cancels drop_box drop_slice : DropFn

-- `ptr` is an address, or that of an array of cancellations, with the array; a consume callback is
-- known by a number.
mutual
  pub data Cancellation : Type 0 where
    cancellation : Pointer → ℕ → Option DropFn → Option ℕ → Cancellation

  pub data Pointer : Type 0 where
    null : Pointer
    address : ℕ → Pointer
    array : ℕ → Cancellations → Pointer

  pub data Cancellations : Type 0 where
    nil : Cancellations
    cons : Cancellation → Cancellations → Cancellations

-- What the program does to the outside: wakes a task, hands a result to a callback, gives up a
-- reference, or returns memory to the allocator (`dealloc a n`: `n` elements at address `a`).
pub data Effect : Type 0 where
  wake : ℕ → Effect
  consumed : ℕ → Pointer → RingResult → Effect
  release_rc : ℕ → Effect
  dealloc : ℕ → ℕ → Effect

unfoldable pub empty : Cancellation
empty = cancellation null 0 none none

-- `Rc::into_raw` of an `Rc` at address `rc`, with the callback of the macro `consuming!`.
unfoldable pub consuming : ℕ → ℕ → Cancellation
consuming rc callback = cancellation (address rc) 0 (some drop_rc) (some callback)

abbrev pub length_cancels : Cancellations → ℕ
length_cancels nil = 0
length_cancels (cons c cs) = suc (length_cancels cs)

-- `cancels` is a vector at address `a`; its length is kept, its capacity is not.
unfoldable pub combine : ℕ → Cancellations → Cancellation
combine a cancels = cancellation (array a cancels) (length_cancels cancels) (some drop_cancels) none

-- `Vec<T>`: the buffer's address, the elements in use, the elements allocated.
pub record Vector : Type 0 where
  pub address : ℕ
  pub length : ℕ
  pub capacity : ℕ

-- `Box<[T]>`, `Vec<T>::into_boxed_slice`: the allocation has exactly the length.
pub record BoxedSlice : Type 0 where
  pub address : ℕ
  pub length : ℕ

-- `From<Box<T>>`.
unfoldable pub of_box : ℕ → Cancellation
of_box a = cancellation (address a) 0 (some drop_box) none

-- `From<Box<[T]>>`.
unfoldable pub of_slice : BoxedSlice → Cancellation
of_slice b = cancellation (address b.address) b.length (some drop_slice) none

-- `From<Vec<T>>` and `From<String>`.
unfoldable pub of_vector : Vector → Cancellation
of_vector v = cancellation (address v.address) v.length (some drop_slice) none

-- `CString::into_bytes`: the final zero byte is popped, and its place stays allocated. A `CString`
-- is a boxed slice that counts the zero byte.
unfoldable pub into_bytes : BoxedSlice → Vector
into_bytes s = record { address = s.address; length = s.length - 1; capacity = s.length }

-- `From<CString>`.
unfoldable pub of_cstring : BoxedSlice → Cancellation
unfolding into_bytes of_vector
of_cstring s = of_vector (into_bytes s)

-- `From<Option<Box<T>>>` and `From<Option<Box<[T]>>>`.
unfoldable pub of_option {ℓ} : {A : Type ℓ} → (A → Cancellation) → Option A → Cancellation
unfolding empty
of_option f none = empty
of_option f (some a) = f a

-- `From<&'static [u8]>` and `From<&'static str>`.
unfoldable pub of_static : Cancellation
unfolding empty
of_static = empty

-- What the allocator is told when an allocation of `n` elements is given up; none was made for 0.
unfoldable pub free : ℕ → ℕ → List Effect
free a n = if n == 0 then [] else dealloc a n ∷ []

-- `Cancellation::drop_raw`. `drop_cancels` drops the elements in order, and then their array.
unfoldable mutual
  unfolding free

  pub drop_raw : Cancellation → List Effect
  drop_raw (cancellation p len none c) = []
  drop_raw (cancellation p len (some d) c) = run_drop p d len

  pub run_drop : Pointer → DropFn → ℕ → List Effect
  run_drop null d len = []
  run_drop (address a) drop_rc len = release_rc a ∷ []
  run_drop (address a) drop_box len = dealloc a 1 ∷ []
  run_drop (address a) drop_slice len = free a len
  run_drop (address a) drop_cancels len = []
  run_drop (array a cs) d len = drop_cancels_raw cs ++ free a len

  pub drop_cancels_raw : Cancellations → List Effect
  drop_cancels_raw nil = []
  drop_cancels_raw (cons c cs) = drop_raw c ++ drop_cancels_raw cs

-- `Cancellation::consume`.
unfoldable pub consume : Cancellation → RingResult → List Effect
consume (cancellation p len d none) r = []
consume (cancellation p len d (some callback)) r = consumed callback p r ∷ []

-- The loop over the queued results in `Completion::try_cancel`.
unfoldable pub consume_all : Cancellation → List RingResult → List Effect
unfolding consume
consume_all c [] = []
consume_all c (r ∷ rs) = consume c r ++ consume_all c rs

-- The drop of the value itself, had it not been turned into a cancellation.
unfoldable pub drop_vector : Vector → List Effect
unfolding free
drop_vector v = free v.address v.capacity

unfoldable pub drop_boxed_slice : BoxedSlice → List Effect
unfolding free
drop_boxed_slice b = free b.address b.length
