-- ===== src/Executor/Tasks.antt =====
-- The tasks of the executor by what is counted of each.
use inel.Base.{
  ℕ, zero, suc, ◌+◌, ◌-◌, ◌<◌, ◌≤◌, ◌≡◌, ◌≢◌, refl, ap, Bool, List, [], ◌∷◌, ◌++◌, length, ◌==◌,
  if◌then◌else◌, arith, eq-or-ne, inl, inr,
}
use inel.Executor.{Task, modify, more, fewer, with_flag, is_scheduled, senders}

unfoldable pub tally : (Task → ℕ) → List Task → ℕ → ℕ
tally F [] i = 0
tally F (t ∷ ts) zero = F t
tally F (t ∷ ts) (suc i) = tally F ts i

abbrev pub strong_of : Task → ℕ
strong_of t = t.strong

abbrev pub flag_of : Task → ℕ
flag_of t = if t.scheduled then 1 else 0

pub length-modify : (i : ℕ) (f : Task → Task) (ts : List Task) → length (modify i f ts) ≡ length ts
unfolding modify
length-modify i f [] = refl
length-modify zero f (t ∷ ts) = refl
length-modify (suc i) f (t ∷ ts) = ap suc (length-modify i f ts)

pub tally-modify_self :
    (F : Task → ℕ) (g : ℕ → ℕ) (f : Task → Task) (ts : List Task) (i : ℕ)
    → ((t : Task) → F (f t) ≡ g (F t))
    → i < length ts
    → tally F (modify i f ts) i ≡ g (tally F ts i)
unfolding tally modify
tally-modify_self F g f [] i law h = absurd (omega (arith, h))
tally-modify_self F g f (t ∷ ts) zero law h = law t
tally-modify_self F g f (t ∷ ts) (suc i) law h = tally-modify_self F g f ts i law (omega (arith, h))

pub tally-modify_ne :
    (F : Task → ℕ) (f : Task → Task) (ts : List Task) (i j : ℕ)
    → i ≢ j
    → tally F (modify j f ts) i ≡ tally F ts i
unfolding tally modify
tally-modify_ne F f [] i j h = refl
tally-modify_ne F f (t ∷ ts) zero zero h = absurd (h refl)
tally-modify_ne F f (t ∷ ts) (suc i) zero h = refl
tally-modify_ne F f (t ∷ ts) zero (suc j) h = refl
tally-modify_ne F f (t ∷ ts) (suc i) (suc j) h = tally-modify_ne F f ts i j (λ e. h (ap suc e))

pub tally_beyond : (F : Task → ℕ) (ts : List Task) (i : ℕ) → length ts ≤ i → tally F ts i ≡ 0
unfolding tally
tally_beyond F [] i h = refl
tally_beyond F (t ∷ ts) zero h = absurd (omega (arith, h))
tally_beyond F (t ∷ ts) (suc i) h = tally_beyond F ts i (omega (arith, h))

pub within_of_tally : (F : Task → ℕ) (ts : List Task) (i : ℕ) → 0 < tally F ts i → i < length ts
unfolding tally
within_of_tally F [] i h = absurd (omega (arith, h))
within_of_tally F (t ∷ ts) zero h = omega arith
within_of_tally F (t ∷ ts) (suc i) h = omega (arith, within_of_tally F ts i h)

pub tally-append :
    (F : Task → ℕ) (ts : List Task) (t : Task) (i : ℕ)
    → tally F (ts ++ (t ∷ [])) i ≡ tally F ts i + (if i == length ts then F t else 0)
unfolding tally
tally-append F [] t zero = omega arith
tally-append F [] t (suc i) = ground arith
tally-append F (u ∷ ts) t zero = ground arith
tally-append F (u ∷ ts) t (suc i) = ground (arith, tally-append F ts t i)

pub is_scheduled-flag :
    (ts : List Task) (i : ℕ)
    → i < length ts
    → tally flag_of ts i ≡ (if is_scheduled ts i then 1 else 0)
unfolding tally is_scheduled
is_scheduled-flag [] i h = absurd (omega (arith, h))
is_scheduled-flag (t ∷ ts) zero h = refl
is_scheduled-flag (t ∷ ts) (suc i) h = is_scheduled-flag ts i (omega (arith, h))

pub none_of_senders : (ts : List Task) → senders ts ≡ 0 → (i : ℕ) → tally strong_of ts i ≡ 0
unfolding senders tally
none_of_senders [] h i = refl
none_of_senders (t ∷ ts) h zero = ground (arith, h)
none_of_senders (t ∷ ts) h (suc i) = none_of_senders ts (omega (arith, h)) i

pub senders_of_none : (ts : List Task) → ((i : ℕ) → tally strong_of ts i ≡ 0) → senders ts ≡ 0
unfolding senders tally
senders_of_none [] h = refl
senders_of_none (t ∷ ts) h = ground (arith, h 0, senders_of_none ts (λ i. h (suc i)))

-- What changing one task does to what is counted.
abbrev pub one_at : ℕ → ℕ → ℕ
one_at j i = if i == j then 1 else 0

module _ (ts : List Task) (j : ℕ) where
  pub more-strong :
      (i : ℕ)
      → j < length ts
      → tally strong_of (modify j more ts) i ≡ tally strong_of ts i + one_at j i
  more-strong i h = elim (eq-or-ne i j) [
    | inl y ↦
        rw y (ground (arith, tally-modify_self strong_of (λ n. n + 1) more ts j (λ t. refl) h))
    | inr y ↦ ground (arith, y, tally-modify_ne strong_of more ts i j y)
  ]

  pub fewer-strong :
      (i : ℕ)
      → j < length ts
      → tally strong_of (modify j fewer ts) i ≡ tally strong_of ts i - one_at j i
  fewer-strong i h = elim (eq-or-ne i j) [
    | inl y ↦
        rw y (ground (arith, tally-modify_self strong_of (λ n. n - 1) fewer ts j (λ t. refl) h))
    | inr y ↦ ground (arith, y, tally-modify_ne strong_of fewer ts i j y)
  ]

  pub same-tally :
      (F : Task → ℕ) (f : Task → Task) (i : ℕ)
      → ((t : Task) → F (f t) ≡ F t)
      → j < length ts
      → tally F (modify j f ts) i ≡ tally F ts i
  same-tally F f i law h = elim (eq-or-ne i j) [
    | inl y ↦ rw y (tally-modify_self F (λ n. n) f ts j law h)
    | inr y ↦ tally-modify_ne F f ts i j y
  ]

  pub flagged :
      (b : Bool) (i : ℕ)
      → j < length ts
      → tally flag_of (modify j (with_flag b) ts) i
        ≡ (if i == j then (if b then 1 else 0) else tally flag_of ts i)
  flagged b i h = elim (eq-or-ne i j) [
    | inl y ↦ rw y (
        ground (
          arith,
          tally-modify_self flag_of (λ n. if b then 1 else 0) (with_flag b) ts j (λ t. refl) h,
        ))
    | inr y ↦ ground (arith, y, tally-modify_ne flag_of (with_flag b) ts i j y)
  ]
