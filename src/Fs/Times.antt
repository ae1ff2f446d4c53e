-- ===== src/Fs/Times.antt =====
-- The times of a file against what their seconds and nanoseconds mean.
use inel.Base.{
  ℕ, suc, ◌+◌, ◌-◌, ◌*◌, ◌^◌, ◌<◌, ◌≤◌, ◌≡◌, ◌↔◌, ◌⊎◌, inl, inr, refl, Bool-cases, true, false, ltb,
  ◌==◌, if◌then◌else◌, none, some, arith,
}
use inel.Base.Int.{ℤ, pos, negsuc}
use inel.Fs.{Timestamp, giga, checked_add, checked_sub, convert_timestamp}

-- The nanoseconds count forward from the second, also before the epoch.
unfoldable pub instant : Timestamp → ℤ
instant t = elim t.tv_sec [
  | pos sec ↦ pos (sec * giga + t.tv_nsec)
  | negsuc n ↦ negsuc (suc n * giga - t.tv_nsec - 1)
]

-- An `i64`.
unfoldable pub FitsWord : ℤ → Type 0
FitsWord s = elim s [ pos sec ↦ sec < 2 ^ 63 | negsuc n ↦ suc n ≤ 2 ^ 63 ]

-- The nanoseconds are less than a second, and the seconds an `i64`.
unfoldable pub IsValid : Timestamp → Type 0
unfolding FitsWord
IsValid t = (t.tv_nsec < giga) × FitsWord t.tv_sec

unfoldable pub IsAfterEpoch : Timestamp → Type 0
IsAfterEpoch t = elim t.tv_sec [ pos sec ↦ Unit {0} | negsuc n ↦ ⊥ ]

later :
    (sec nsec : ℕ)
    → nsec < giga
    → sec < 2 ^ 63
    → checked_add sec nsec ≡ some (pos (sec * giga + nsec))
unfolding checked_add
later sec nsec h k =
    let fits : ltb (sec * giga + nsec) (2 ^ 63 * giga) ≡ true = ground (arith, h, k) in rw fits refl

earlier :
    (n nsec : ℕ)
    → nsec < giga
    → suc n ≤ 2 ^ 63
    → (checked_sub (suc n) nsec ≡ some (negsuc (suc n * giga - nsec - 1))) ↔ (nsec ≡ 0)
unfolding checked_sub
earlier n nsec h k = (forth (Bool-cases (ltb (2 ^ 63 * giga) (suc n * giga + nsec))), back)
  where
    some_time : (suc n * giga + nsec == 0) ≡ false
    some_time = ground arith

    forth :
        (ltb (2 ^ 63 * giga) (suc n * giga + nsec) ≡ true)
          ⊎ (ltb (2 ^ 63 * giga) (suc n * giga + nsec) ≡ false)
        → (if suc n * giga + nsec == 0
            then some (pos 0)
            else if ltb (2 ^ 63 * giga) (suc n * giga + nsec)
            then none
            else some (negsuc (suc n * giga + nsec - 1)))
          ≡ some (negsuc (suc n * giga - nsec - 1))
        → nsec ≡ 0
    forth (inl y) e = cc (rw (some_time, y) at e)
    forth (inr y) e =
        let e' : some (negsuc (suc n * giga + nsec - 1)) ≡ some (negsuc (suc n * giga - nsec - 1)) =
          rw (some_time, y) at e in
        let same : suc n * giga + nsec - 1 ≡ suc n * giga - nsec - 1 = cc in omega (arith, same, h)

    back :
        nsec ≡ 0
        → (if suc n * giga + nsec == 0
            then some (pos 0)
            else if ltb (2 ^ 63 * giga) (suc n * giga + nsec)
            then none
            else some (negsuc (suc n * giga + nsec - 1)))
          ≡ some (negsuc (suc n * giga - nsec - 1))
    back e =
        let fits : ltb (2 ^ 63 * giga) (suc n * giga + nsec) ≡ false = ground (arith, e, k) in
        let same : suc n * giga + nsec - 1 ≡ suc n * giga - nsec - 1 = omega (arith, e) in
        rw (some_time, fits, same) refl

right : {A : Type 0} → ⊥ ⊎ A → A
right (inl x) = absurd x
right (inr a) = a

-- For a timestamp of less than a second of nanoseconds and seconds that fit 64 bits, the time that
-- the code gives is the instant that the timestamp means exactly when it is not before the epoch or
-- has no nanoseconds.
pub convert_timestamp-instant :
    (t : Timestamp)
    → IsValid t
    → (convert_timestamp t ≡ some (instant t)) ↔ (IsAfterEpoch t ⊎ (t.tv_nsec ≡ 0))
unfolding convert_timestamp instant IsValid IsAfterEpoch
convert_timestamp-instant t (h, k) = by_second t.tv_sec k
  where
    by_second :
        (s : ℤ)
        → FitsWord s
        → (convert_timestamp (record t { tv_sec = s }) ≡ some (instant (record t { tv_sec = s })))
          ↔ (IsAfterEpoch (record t { tv_sec = s }) ⊎ (t.tv_nsec ≡ 0))
    by_second (pos sec) k' = (λ e. inl tt, λ e. later sec t.tv_nsec h k')
    by_second (negsuc n) k' =
        let (forth, back) = earlier n t.tv_nsec h k' in (λ e. inr (forth e), λ e. back (right e))
