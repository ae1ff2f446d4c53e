-- ===== src/Slab.antt =====
-- The interface of the crate `slab`, which the repository only uses: a store that gives out keys.
pub mod Facts
pub mod Vector
use inel.Base.{ℕ, Bool, ◌+◌, ◌≤◌, ◌≡◌, Option, none, some, ◌==◌, if◌then◌else◌}

-- `total f s` is `s.iter().map(|(_, v)| f(v)).sum()`; `write` is an assignment through `get_mut`.
pub record Slab (A : Type 0) : Type 1 where
  pub Store : Type 0
  pub with_capacity : ℕ → Store
  pub insert : A → Store → ℕ × Store
  pub get : ℕ → Store → Option A
  pub write : ℕ → A → Store → Store
  pub remove : ℕ → Store → Store
  pub total : (A → ℕ) → Store → ℕ
  pub get-with_capacity : (n k : ℕ) → get k (with_capacity n) ≡ none
  pub get_new_key : (a : A) (s : Store) → get (insert a s).0 s ≡ none
  pub get-insert :
      (a : A) (s : Store) (k : ℕ)
      → get k (insert a s).1 ≡ (if k == (insert a s).0 then some a else get k s)
  pub get-write :
      (k j : ℕ) (b : A) (s : Store) {a : A}
      → get k s ≡ some a
      → get j (write k b s) ≡ (if j == k then some b else get j s)
  pub get-remove : (k j : ℕ) (s : Store) → get j (remove k s) ≡ (if j == k then none else get j s)
  pub total-with_capacity : (f : A → ℕ) (n : ℕ) → total f (with_capacity n) ≡ 0
  pub total-insert : (f : A → ℕ) (a : A) (s : Store) → total f (insert a s).1 ≡ f a + total f s
  pub total-write :
      (f : A → ℕ) (k : ℕ) (b : A) (s : Store) {a : A}
      → get k s ≡ some a
      → total f (write k b s) + f a ≡ f b + total f s
  pub total-remove :
      (f : A → ℕ) (k : ℕ) (s : Store) {a : A}
      → get k s ≡ some a
      → total f (remove k s) + f a ≡ total f s
  pub total_mono : (f g : A → ℕ) (s : Store) → ((a : A) → f a ≤ g a) → total f s ≤ total g s

module _ {A : Type 0} (S : Slab A) where
  open S use {Store, total}

  -- `Slab::len` and `Slab::is_empty`.
  unfoldable pub len : Store → ℕ
  len = total (λ _. 1)

  unfoldable pub is_empty : Store → Bool
  unfolding len
  is_empty s = len s == 0
