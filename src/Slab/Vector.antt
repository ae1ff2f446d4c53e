-- ===== src/Slab/Vector.antt =====
-- A slab by a vector of places, the first vacant one filled first: the laws of `Slab` can be met.
use inel.Base.{
  ℕ, zero, suc, ◌+◌, ◌≤◌, ◌≡◌, refl, Option, none, some, List, [], ◌∷◌, ◌==◌, if◌then◌else◌, arith,
}
use inel.Slab.{Slab}

module _ {A : Type 0} where
  abbrev pub push_front : Option A → ℕ × List (Option A) → ℕ × List (Option A)
  push_front o r = (suc r.0, o ∷ r.1)

  abbrev pub insert : A → List (Option A) → ℕ × List (Option A)
  insert a [] = (0, some a ∷ [])
  insert a (none ∷ s) = (0, some a ∷ s)
  insert a (some b ∷ s) = push_front (some b) (insert a s)

  abbrev pub get : ℕ → List (Option A) → Option A
  get k [] = none
  get zero (o ∷ s) = o
  get (suc k) (o ∷ s) = get k s

  abbrev pub put : ℕ → Option A → List (Option A) → List (Option A)
  put k v [] = []
  put zero v (o ∷ s) = v ∷ s
  put (suc k) v (o ∷ s) = o ∷ put k v s

  abbrev pub weight : (A → ℕ) → Option A → ℕ
  weight f none = 0
  weight f (some a) = f a

  abbrev pub total : (A → ℕ) → List (Option A) → ℕ
  total f [] = 0
  total f (o ∷ s) = weight f o + total f s

  pub get_new_key : (a : A) (s : List (Option A)) → get (insert a s).0 s ≡ none
  get_new_key a [] = refl
  get_new_key a (none ∷ s) = refl
  get_new_key a (some b ∷ s) = get_new_key a s

  pub get-insert :
      (a : A) (s : List (Option A)) (k : ℕ)
      → get k (insert a s).1 ≡ (if k == (insert a s).0 then some a else get k s)
  get-insert a [] zero = refl
  get-insert a [] (suc k) = ground arith
  get-insert a (none ∷ s) zero = refl
  get-insert a (none ∷ s) (suc k) = ground arith
  get-insert a (some b ∷ s) zero = ground arith
  get-insert a (some b ∷ s) (suc k) = ground (arith, get-insert a s k)

  pub get-write :
      (k j : ℕ) (b : A) (s : List (Option A)) {a : A}
      → get k s ≡ some a
      → get j (put k (some b) s) ≡ (if j == k then some b else get j s)
  get-write k j b [] e = cc
  get-write zero zero b (o ∷ s) e = refl
  get-write zero (suc j) b (o ∷ s) e = ground arith
  get-write (suc k) zero b (o ∷ s) e = ground arith
  get-write (suc k) (suc j) b (o ∷ s) e = ground (arith, get-write k j b s e)

  pub get-remove :
      (k j : ℕ) (s : List (Option A)) → get j (put k none s) ≡ (if j == k then none else get j s)
  get-remove k j [] = ground arith
  get-remove zero zero (o ∷ s) = refl
  get-remove zero (suc j) (o ∷ s) = ground arith
  get-remove (suc k) zero (o ∷ s) = ground arith
  get-remove (suc k) (suc j) (o ∷ s) = ground (arith, get-remove k j s)

  pub total-insert :
      (f : A → ℕ) (a : A) (s : List (Option A)) → total f (insert a s).1 ≡ f a + total f s
  total-insert f a [] = omega arith
  total-insert f a (none ∷ s) = omega arith
  total-insert f a (some b ∷ s) = omega (arith, total-insert f a s)

  pub total-put :
      (f : A → ℕ) (k : ℕ) (v : Option A) (s : List (Option A)) {a : A}
      → get k s ≡ some a
      → total f (put k v s) + f a ≡ weight f v + total f s
  total-put f k v [] e = cc
  total-put f zero v (o ∷ s) e = ground arith
  total-put f (suc k) v (o ∷ s) e = omega (arith, total-put f k v s e)

pub total_mono :
    {A : Type 0} (f g : A → ℕ) (s : List (Option A)) → ((a : A) → f a ≤ g a) → total f s ≤ total g s
total_mono f g [] h = omega arith
total_mono f g (none ∷ s) h = omega (arith, total_mono f g s h)
total_mono f g (some a ∷ s) h = omega (arith, h a, total_mono f g s h)

pub total-remove :
    {A : Type 0} (f : A → ℕ) (k : ℕ) (s : List (Option A)) {a : A}
    → get k s ≡ some a
    → total f (put k none s) + f a ≡ total f s
total-remove f k s e = omega (arith, total-put f k none s e)

abbrev pub vector_slab : (A : Type 0) → Slab A
vector_slab A = record {
  Store = List (Option A);
  with_capacity = λ n. [];
  insert = insert;
  get = get;
  write = λ k b s. put k (some b) s;
  remove = λ k s. put k none s;
  total = total;
  get-with_capacity = λ n k. refl;
  get_new_key = get_new_key;
  get-insert = get-insert;
  get-write = get-write;
  get-remove = get-remove;
  total-with_capacity = λ f n. refl;
  total-insert = total-insert;
  total-write = λ f k b s e. total-put f k (some b) s e;
  total-remove = total-remove;
  total_mono = total_mono;
}
