-- ===== src/Base/Slices.antt =====
-- Prefixes and suffixes of lists.
use Prim.Native.Nat.{ℕ, zero, suc, ◌+◌, ◌-◌, min, ◌≤◌}
use mathlib.Core.Path.{◌≡◌, refl, ap, sym, ◌∙◌}
use mathlib.Core.List.{List, [], ◌∷◌, ◌++◌}
use native.Mathlib.Omega.{arith}
use native.Mathlib.Numerals.{unary_clauses}
use inel.Base.Lists.{length, take, drop}

module _ {ℓ} {A : Type ℓ} where
  take_nil : (n : ℕ) → take {A = A} n [] ≡ []
  take_nil zero = refl
  take_nil (suc n) = refl

  drop_nil : (n : ℕ) → drop {A = A} n [] ≡ []
  drop_nil zero = refl
  drop_nil (suc n) = refl

  pub take-min : (n : ℕ) (xs : List A) → take (min (length xs) n) xs ≡ take n xs
  take-min zero [] = take_nil (min 0 0)
  take-min (suc n) [] = simp unary_clauses refl
  take-min zero (x ∷ xs) = simp unary_clauses refl
  take-min (suc n) (x ∷ xs) = simp unary_clauses (ap (◌∷◌ x) (take-min n xs))

  pub take-shorter : (m n : ℕ) (xs : List A) → n ≤ m → take m (take n xs) ≡ take n xs
  take-shorter m zero xs h = take_nil m
  take-shorter m (suc n) [] h = take_nil m
  take-shorter zero (suc n) (x ∷ xs) h = absurd (omega (arith, h))
  take-shorter (suc m) (suc n) (x ∷ xs) h = ap (◌∷◌ x) (take-shorter m n xs (omega (arith, h)))

  pub take-append_plus :
      (xs ys : List A) (k : ℕ) → take (length xs + k) (xs ++ ys) ≡ xs ++ take k ys
  take-append_plus [] ys k = let e : 0 + k ≡ k = omega arith in rw e refl
  take-append_plus (x ∷ xs) ys k =
      let e : suc (length xs) + k ≡ suc (length xs + k) = omega arith in
      rw e (ap (◌∷◌ x) (take-append_plus xs ys k))

  pub take-append_exact : (xs ys : List A) → take (length xs) (xs ++ ys) ≡ xs
  take-append_exact [] ys = refl
  take-append_exact (x ∷ xs) ys = ap (◌∷◌ x) (take-append_exact xs ys)

  pub drop-take : (k n : ℕ) (xs : List A) → drop k (take n xs) ≡ take (n - k) (drop k xs)
  drop-take zero n xs = simp unary_clauses refl
  drop-take (suc k) zero xs = let e : 0 - suc k ≡ 0 = omega arith in rw e refl
  drop-take (suc k) (suc n) [] = sym (take_nil (suc n - suc k))
  drop-take (suc k) (suc n) (x ∷ xs) = simp unary_clauses (drop-take k n xs)

  pub drop-drop : (k s : ℕ) (xs : List A) → drop k (drop s xs) ≡ drop (s + k) xs
  drop-drop k zero xs = let e : 0 + k ≡ k = omega arith in rw e refl
  drop-drop k (suc s) [] = drop_nil k ∙ sym (drop_nil (suc s + k))
  drop-drop k (suc s) (x ∷ xs) =
      let e : suc s + k ≡ suc (s + k) = omega arith in rw e (drop-drop k s xs)

  pub nil_of_length : (xs : List A) → length xs ≡ 0 → xs ≡ []
  nil_of_length [] e = refl
  nil_of_length (x ∷ xs) e = absurd (omega arith)
