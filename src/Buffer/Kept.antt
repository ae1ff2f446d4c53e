-- ===== src/Buffer/Kept.antt =====
-- The memory that a buffer shows to the kernel, against what its cancellation frees.
use inel.Base.{
  ℕ, ◌+◌, ◌-◌, ◌%◌, ◌^◌, ◌≤◌, ◌≡◌, refl, min, ◌⊎◌, inl, inr, none, some, List, [], ◌∷◌, ◌++◌, arith,
  eq-or-ne, Bool-cases, ◌==◌, ==→≡,
}
use inel.Cancellation.{
  Cancellation, Effect, dealloc, of_slice, of_vector, of_option, drop_raw, free,
}
use inel.Buffer.{
  StableBuffer, boxed_buffer, optional_buffer, vector_buffer, RangeBounds, View, start, end,
  view_ptr, view_size, of_view,
}

-- One of the effects frees a region with all of the `n` bytes at `p`.
pub data Frees (p n : ℕ) : List Effect → Type 0 where
  here : (a m : ℕ) {fx : List Effect} → a ≤ p → p + n ≤ a + m → Frees p n (dealloc a m ∷ fx)
  there : (e : Effect) {fx : List Effect} → Frees p n fx → Frees p n (e ∷ fx)

-- `n` bytes at `p` stay allocated until the cancellation is dropped.
unfoldable pub Keeps : Cancellation → ℕ → ℕ → Type 0
Keeps c p n = (n ≡ 0) ⊎ Frees p n (drop_raw c)

unfoldable pub IsKept : StableBuffer → Type 0
unfolding Keeps
IsKept B = (b : B.Buf) → Keeps (B.into b) (B.stable_ptr b) (B.size b)

pub Frees-left :
    {p n : ℕ} {fx : List Effect} (gx : List Effect) → Frees p n fx → Frees p n (fx ++ gx)
Frees-left gx (here a m l u) = here a m l u
Frees-left gx (there e f) = there e (Frees-left gx f)

pub Frees-right :
    {p n : ℕ} (fx : List Effect) {gx : List Effect} → Frees p n gx → Frees p n (fx ++ gx)
Frees-right [] f = f
Frees-right (e ∷ fx) f = there e (Frees-right fx f)

-- A part of a region that is kept is kept.
pub Frees-part :
    {p n : ℕ} {fx : List Effect} (q m : ℕ) → p ≤ q → q + m ≤ p + n → Frees p n fx → Frees q m fx
Frees-part q m l u (here a k below above) =
    here a k (omega (arith, l, below)) (omega (arith, u, above))
Frees-part q m l u (there e f) = there e (Frees-part q m l u f)

pub free-Frees : (a n : ℕ) → (n ≡ 0) ⊎ Frees a n (free a n)
unfolding free
free-Frees a n = elim (Bool-cases (n == 0)) [
  | inl z ↦ inl (==→≡ n 0 z)
  | inr nz ↦ inr (rw nz (here a n (omega arith) (omega arith)))
]

pub boxed_buffer-IsKept : IsKept boxed_buffer
unfolding IsKept Keeps boxed_buffer of_slice drop_raw
boxed_buffer-IsKept b = free-Frees b.address b.length

pub vector_buffer-IsKept : IsKept vector_buffer
unfolding IsKept Keeps vector_buffer of_vector drop_raw
vector_buffer-IsKept v = free-Frees v.address v.length

pub optional_buffer-IsKept : IsKept optional_buffer
unfolding IsKept Keeps optional_buffer of_option of_slice drop_raw
optional_buffer-IsKept none = inl refl
optional_buffer-IsKept (some b) = free-Frees b.address b.length

-- The region of a view lies inside that of its buffer.
inside :
    (base size s e : ℕ)
    → base + size ≤ 2 ^ 64
    → (min e size - s ≡ 0)
      ⊎ ((base ≤ (base + s) % 2 ^ 64) × ((base + s) % 2 ^ 64 + (min e size - s) ≤ base + size))
inside base size s e fits = elim (eq-or-ne (min e size - s) 0) [
  | inl z ↦ inl z
  | inr nz ↦
      let cut : (base + s) % 2 ^ 64 ≡ base + s = omega arith in
      inr (omega (arith, cut), omega (arith, cut))
]

pub Keeps-part :
    (c : Cancellation) (base size q m : ℕ)
    → (m ≡ 0) ⊎ ((base ≤ q) × (q + m ≤ base + size))
    → Keeps c base size
    → Keeps c q m
unfolding Keeps
Keeps-part c base size q m (inl z) k = inl z
Keeps-part c base size q m (inr (l, u)) (inl z) = inl (omega arith)
Keeps-part c base size q m (inr (l, u)) (inr f) = inr (Frees-part q m l u f)

module _ (B : StableBuffer) where
  -- For a buffer that does not reach beyond the address space and that its cancellation keeps, what
  -- a view of it shows to the kernel is kept by the view's cancellation, whatever the range, also
  -- where the ends of the range wrap around or exceed the buffer.
  pub view-Keeps :
      (v : View B RangeBounds)
      → B.stable_ptr v.inner + B.size v.inner ≤ 2 ^ 64
      → Keeps (B.into v.inner) (B.stable_ptr v.inner) (B.size v.inner)
      → Keeps (of_view B v) (view_ptr B v) (view_size B v)
  unfolding view_ptr view_size of_view
  view-Keeps v fits kept =
      Keeps-part (B.into v.inner) (B.stable_ptr v.inner) (B.size v.inner) _ _
        (inside (B.stable_ptr v.inner) (B.size v.inner) (start B v) (end B v) fits) kept
