-- ===== src/Slab/Facts.antt =====
-- What follows from the laws of a slab.
use inel.Base.{ℕ, ◌+◌, ◌≤◌, ◌≡◌, ◌≢◌, ◌∙◌, some, arith}
use inel.Slab.{Slab}

module _ {A : Type 0} (S : Slab A) where
  open S use {Store, get, remove, total, get-remove, total-remove}

  -- An entry counts towards every total.
  pub le-total : (f : A → ℕ) (k : ℕ) (s : Store) {a : A} → get k s ≡ some a → f a ≤ total f s
  le-total f k s e = omega (arith, total-remove f k s e)

  -- So do two entries under different keys.
  pub add-le-total :
      (f : A → ℕ) (k j : ℕ) (s : Store) {a b : A}
      → k ≢ j
      → get k s ≡ some a
      → get j s ≡ some b
      → f a + f b ≤ total f s
  add-le-total f k j s {b = b} ne e e' =
      omega (arith, total-remove f k s e, le-total f j (remove k s) there)
    where
      there : get j (remove k s) ≡ some b
      there = get-remove k j s ∙ ground (arith, e')
