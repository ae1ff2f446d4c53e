-- ===== src/Register/Lending.antt =====
-- A register against the list of the slots that are lent out.
use inel.Base.{
  ℕ, ◌+◌, ◌%◌, ◌≤◌, ◌<◌, ◌≡◌, refl, ◌^◌, ◌*◌, ◌/◌, ◌↔◌, true, Bool-cases, inl, inr, subst, some,
  none, List, [], ◌∷◌, ◌++◌, length, count, ltb, ◌==◌, if◌then◌else◌, arith, length-append,
  count-append,
}
use inel.Register.{SlotRegister, new, get, remove, is_full, group_index}

-- Each index below `len` is either vacant or lent, once.
pub record Lent (r : SlotRegister) (out : List ℕ) : Type 0 where
  pub once : (i : ℕ) → count i r.vacant + count i out ≡ (if ltb i r.len then 1 else 0)
  pub total : length r.vacant + length out ≡ r.len
  pub within : r.len ≤ r.size
  pub small : r.size < 2 ^ 32

pub new-Lent : (size : ℕ) → size < 2 ^ 32 → Lent (new size) []
unfolding new
new-Lent size b = record {
  once = λ i. ground arith;
  total = omega arith;
  within = omega arith;
  small = b;
}

abbrev register : List ℕ → ℕ → ℕ → SlotRegister
register vacant len size = record { vacant = vacant; len = len; size = size }

-- What a successful `get` does to the slots.
abbrev pub Lends : SlotRegister → List ℕ → SlotRegister → ℕ → Type 0
Lends r out r' i = Lent r' (i ∷ out) × (count i out ≡ 0) × (i < r.size)

fresh_Lends :
    (len size : ℕ) (out : List ℕ)
    → Lent (register [] len size) out
    → len < size
    → Lends (register [] len size) out (register [] ((len + 1) % 2 ^ 32) size) len
fresh_Lends len size out l lt = (
  record {
    once = λ j. rw cut (ground (arith, l.once j));
    total = omega (arith, l.total, cut);
    within = omega (arith, cut);
    small = l.small;
  },
  ground (arith, l.once len),
  lt,
)
  where
    cut : (len + 1) % 2 ^ 32 ≡ len + 1
    cut = omega (arith, l.small)

vacant_Lends :
    (v : ℕ) (vs : List ℕ) (len size : ℕ) (out : List ℕ)
    → Lent (register (v ∷ vs) len size) out
    → Lends (register (v ∷ vs) len size) out (register vs len size) v
vacant_Lends v vs len size out l = (
  record {
    once = λ j. ground (arith, l.once j);
    total = omega (arith, l.total);
    within = l.within;
    small = l.small;
  },
  ground (arith, l.once v),
  ground (arith, l.once v, l.within),
)

get_cases :
    (vacant : List ℕ) (len size : ℕ) (out : List ℕ) {i : ℕ}
    → Lent (register vacant len size) out
    → (get (register vacant len size)).0 ≡ some i
    → Lends (register vacant len size) out (get (register vacant len size)).1 i
unfolding get
get_cases [] len size out {i} l g = elim (Bool-cases (len == size)) [
  | inl full ↦ absurd (ground (arith, g, full))
  | inr free ↦
      let same : len ≡ i = ground (arith, g, free) in
      rw free (
        subst (Lends (register [] len size) out (register [] ((len + 1) % 2 ^ 32) size)) same
          (fresh_Lends len size out l (ground (arith, free, l.within))))
]
get_cases (v ∷ vs) len size out {i} l g =
    let same : v ≡ i = ground (arith, g) in
    subst (Lends (register (v ∷ vs) len size) out (register vs len size)) same
      (vacant_Lends v vs len size out l)

-- A slot that a register gives out is below its size and was not lent to anybody, and the register
-- goes on keeping each slot either vacant or lent.
pub get-Lends :
    (r : SlotRegister) (out : List ℕ) {i : ℕ}
    → Lent r out
    → (get r).0 ≡ some i
    → Lends r out (get r).1 i
get-Lends r out = get_cases r.vacant r.len r.size out

get_none_cases :
    (vacant : List ℕ) (len size : ℕ) (out : List ℕ)
    → Lent (register vacant len size) out
    → ((get (register vacant len size)).0 ≡ none) ↔ (length out ≡ size)
unfolding get
get_none_cases [] len size out l = ground (arith, l.total)
get_none_cases (v ∷ vs) len size out l = (λ e. cc, λ e. absurd (omega (arith, l.total, l.within)))

-- A register refuses a slot exactly when as many are lent as it has.
pub get_none_iff :
    (r : SlotRegister) (out : List ℕ) → Lent r out → ((get r).0 ≡ none) ↔ (length out ≡ r.size)
get_none_iff r = get_none_cases r.vacant r.len r.size

get_none_same :
    (vacant : List ℕ) (len size : ℕ)
    → (get (register vacant len size)).0 ≡ none
    → (get (register vacant len size)).1 ≡ register vacant len size
unfolding get
get_none_same [] len size g = elim (Bool-cases (len == size)) [
  | inl full ↦ rw full refl
  | inr free ↦ absurd (ground (arith, g, free))
]
get_none_same (v ∷ vs) len size g = cc

-- A register that refuses a slot is left as it is.
pub get-same : (r : SlotRegister) → (get r).0 ≡ none → (get r).1 ≡ r
get-same r = get_none_same r.vacant r.len r.size

-- A slot that comes back is vacant again; the others stay lent.
pub remove-Lent :
    (r : SlotRegister) (xs : List ℕ) (i : ℕ) (ys : List ℕ)
    → Lent r (xs ++ i ∷ ys)
    → Lent (remove r i) (xs ++ ys)
unfolding remove
remove-Lent r xs i ys l = rw inside record {
  once = λ j. ground (arith, l.once j, count-append j xs (i ∷ ys), count-append j xs ys);
  total = omega (arith, l.total, length-append xs (i ∷ ys), length-append xs ys);
  within = l.within;
  small = l.small;
}
  where
    inside : ltb i r.size ≡ true
    inside = ground (arith, l.once i, count-append i xs (i ∷ ys), l.within)

-- The register is full exactly when nothing is lent.
pub is_full_iff : (r : SlotRegister) (out : List ℕ) → Lent r out → (is_full r ≡ true) ↔ (out ≡ [])
unfolding is_full
is_full_iff r [] l = ground (arith, l.total)
is_full_iff r (i ∷ out) l = (λ e. absurd (ground (arith, l.total, e)), λ e. cc)

-- What can happen to a register of a given size, with the slots that are out.
pub data Reached (size : ℕ) : SlotRegister → List ℕ → Type 0 where
  start : Reached size (new size) []
  lends :
      {r : SlotRegister} {out : List ℕ} (i : ℕ)
      → Reached size r out
      → (get r).0 ≡ some i
      → Reached size (get r).1 (i ∷ out)
  takes_back :
      {r : SlotRegister} {out : List ℕ} (xs : List ℕ) (i : ℕ) (ys : List ℕ)
      → Reached size r out
      → out ≡ xs ++ i ∷ ys
      → Reached size (remove r i) (xs ++ ys)

-- After any sequence of gets, and of removes of slots that are out, each index below the number of
-- slots ever made is either vacant or out, once, and that number is within the size.
pub Reached-Lent :
    {size : ℕ} {r : SlotRegister} {out : List ℕ} → size < 2 ^ 32 → Reached size r out → Lent r out
Reached-Lent b start = new-Lent _ b
Reached-Lent b (lends {r} {out} i h g) = (get-Lends r out (Reached-Lent b h) g).0
Reached-Lent b (takes_back {r} xs i ys h e) =
    remove-Lent r xs i ys (subst (Lent r) e (Reached-Lent b h))

-- Two groups, the first of a slot below 65536, have one kernel id exactly when their slots differ
-- by a multiple of 65536.
pub group_index_eq :
    (i j : ℕ) → i < 2 ^ 16 → (group_index i ≡ group_index j) ↔ ((k : ℕ) × (j ≡ i + k * 2 ^ 16))
unfolding group_index
group_index_eq i j b = (λ e. (j / 2 ^ 16, omega arith), λ h. omega (arith, h.1))
