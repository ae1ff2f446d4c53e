-- ===== src/Fs/Modes.antt =====
-- Permissions and options, bit by bit.
use inel.Base.{
  and_left, and_right, ℕ, zero, suc, ◌<◌, ◌^◌, ◌≡◌, refl, sym, ap, ◌∙◌, Bool, true, false, not,
  ◌&&◌, ◌||◌, ◌==◌, ==→≡, if◌then◌else◌, arith,
}
use Prim.Native.Nat.{bit_and}
use inel.Fs.{
  Permissions, Permission, get, set, unset, user_read, user_write, user_execute, group_read,
  group_write, group_execute, other_read, other_write, other_execute, OpenOptions, raw_opts,
}

eqb : Bool → Bool → Bool
eqb true b = b
eqb false b = not b

eqb→≡ : (a b : Bool) → eqb a b ≡ true → a ≡ b
unfolding eqb
eqb→≡ true true h = refl
eqb→≡ true false h = cc
eqb→≡ false true h = cc
eqb→≡ false false h = refl

-- A test of every value below a bound.
checked_below : ℕ → (ℕ → Bool) → Bool
checked_below zero p = true
checked_below (suc n) p = p n && checked_below n p

checked_below-holds : (n : ℕ) (p : ℕ → Bool) (x : ℕ) → checked_below n p ≡ true → x < n → p x ≡ true
unfolding checked_below
checked_below-holds zero p x h lt = absurd (omega (arith, lt))
checked_below-holds (suc n) p x h lt = ground (arith, checked_below-holds n p x)

all_permissions : (Permission → Bool) → Bool
all_permissions f =
    f user_read
    && (f user_write
        && (f user_execute
            && (f group_read
                && (f group_write
                    && (f group_execute && (f other_read && (f other_write && f other_execute)))))))

all_permissions_lem :
    (f : Permission → Bool) → all_permissions f ≡ true → (p : Permission) → f p ≡ true
unfolding all_permissions
all_permissions_lem f h user_read = ground (arith, h)
all_permissions_lem f h user_write = ground (arith, h)
all_permissions_lem f h user_execute = ground (arith, h)
all_permissions_lem f h group_read = ground (arith, h)
all_permissions_lem f h group_write = ground (arith, h)
all_permissions_lem f h group_execute = ground (arith, h)
all_permissions_lem f h other_read = ground (arith, h)
all_permissions_lem f h other_write = ground (arith, h)
all_permissions_lem f h other_execute = ground (arith, h)

unfoldable pub has : ℕ → ℕ → Bool
has flags flag = not (bit_and flags flag == 0)

-- The bit that POSIX has for a permission, from the lowest.
abbrev pub place : Permission → ℕ
place other_execute = 0
place other_write = 1
place other_read = 2
place group_execute = 3
place group_write = 4
place group_read = 5
place user_execute = 6
place user_write = 7
place user_read = 8

permission_at : ℕ → Permission
permission_at n =
    if n == 0
    then other_execute
    else if n == 1
    then other_write
    else if n == 2
    then other_read
    else if n == 3
    then group_execute
    else if n == 4
    then group_write
    else if n == 5
    then group_read
    else if n == 6
    then user_execute
    else if n == 7
    then user_write
    else user_read

permission_at-place : (p : Permission) → permission_at (place p) ≡ p
unfolding permission_at
permission_at-place other_execute = refl
permission_at-place other_write = refl
permission_at-place other_read = refl
permission_at-place group_execute = refl
permission_at-place group_write = refl
permission_at-place group_read = refl
permission_at-place user_execute = refl
permission_at-place user_write = refl
permission_at-place user_read = refl

-- Two permissions on the same bit are the same.
unfoldable pub same : Permission → Permission → Bool
same p q = place p == place q

pub same→≡ : (p q : Permission) → same p q ≡ true → p ≡ q
unfolding same
same→≡ p q e =
    sym (permission_at-place p)
    ∙ ap permission_at (==→≡ (place p) (place q) e)
    ∙ permission_at-place q

-- What a permission of a mode is, and what setting and unsetting `q` does to it.
right_for : Permission → Permission → ℕ → Bool
unfolding get set unset same has
right_for p q raw =
    eqb (get (record { raw = raw }) p) (has raw (2 ^ place p))
    && (eqb (get (set (record { raw = raw }) q) p) (same p q || get (record { raw = raw }) p)
        && eqb (get (unset (record { raw = raw }) q) p)
            (not (same p q) && get (record { raw = raw }) p))

checked : all_permissions (λ p. all_permissions (λ q. checked_below 512 (right_for p q))) ≡ true
unfolding all_permissions checked_below right_for eqb
checked = refl

-- On modes of nine bits, a permission is one that the mode has if its bit of POSIX is set; setting
-- a permission makes it one that the mode has, unsetting it one that it has not, and neither
-- changes any other permission.
pub get-set :
    (p q : Permission) (s : Permissions)
    → s.raw < 512
    → (get s p ≡ has s.raw (2 ^ place p))
      × (get (set s q) p ≡ (same p q || get s p))
      × (get (unset s q) p ≡ (not (same p q) && get s p))
unfolding right_for
get-set p q s h =
    let holds : right_for p q s.raw ≡ true =
      checked_below-holds 512 (right_for p q) s.raw
        (all_permissions_lem (λ q'. checked_below 512 (right_for p q'))
          (all_permissions_lem (λ p'. all_permissions (λ q'. checked_below 512 (right_for p' q')))
            checked p)
          q)
        h in
    let changes = and_right _ _ holds in
    (
      eqb→≡ _ _ (and_left _ _ holds),
      eqb→≡ _ _ (and_left _ _ changes),
      eqb→≡ _ _ (and_right _ _ changes),
    )

all_bools : (Bool → Bool) → Bool
all_bools f = f true && f false

all_bools_lem : (f : Bool → Bool) → all_bools f ≡ true → (b : Bool) → f b ≡ true
unfolding all_bools
all_bools_lem f h true = and_left (f true) (f false) h
all_bools_lem f h false = and_right (f true) (f false) h

abbrev options : Bool → Bool → Bool → Bool → Bool → Bool → OpenOptions
options r w a c t d = record {
  read = r;
  write = w;
  append = a;
  create = c;
  truncate = t;
  direct = d;
  permissions = record { raw = 0 };
}

-- `O_ACCMODE`.
unfoldable pub access_of : Bool → Bool → ℕ
access_of r w = if r then (if w then 2 else 0) else if w then 1 else 0

read_back : ℕ → Bool → Bool → Bool → Bool → Bool → Bool → Bool
unfolding access_of has
read_back flags r w a c t d =
    (bit_and flags 3 == access_of r w)
    && (eqb (has flags 0x400) a
        && (eqb (has flags 0x40) c && (eqb (has flags 0x200) t && eqb (has flags 0x4000) d)))

options_checked :
    all_bools (λ r. all_bools (λ w. all_bools (λ a. all_bools (λ c.
      all_bools (λ t. all_bools (λ d. read_back (raw_opts (options r w a c t d)).0 r w a c t d))))))
    ≡ true
unfolding all_bools read_back raw_opts eqb
options_checked = refl

read_back-parts :
    (flags : ℕ) (r w a c t d : Bool)
    → read_back flags r w a c t d ≡ true
    → (bit_and flags 3 ≡ access_of r w)
      × (has flags 0x400 ≡ a)
      × (has flags 0x40 ≡ c)
      × (has flags 0x200 ≡ t)
      × (has flags 0x4000 ≡ d)
unfolding read_back
read_back-parts flags r w a c t d h = (
  ==→≡ _ _ (and_left access later h),
  eqb→≡ _ _ (and_left (is_as 0x400 a) (is_as 0x40 c && last_two) h1),
  eqb→≡ _ _ (and_left (is_as 0x40 c) last_two h2),
  eqb→≡ _ _ (and_left (is_as 0x200 t) (is_as 0x4000 d) h3),
  eqb→≡ _ _ (and_right (is_as 0x200 t) (is_as 0x4000 d) h3),
)
  where
    is_as : ℕ → Bool → Bool
    is_as flag b = eqb (has flags flag) b

    access : Bool
    access = bit_and flags 3 == access_of r w

    last_two : Bool
    last_two = is_as 0x200 t && is_as 0x4000 d

    later : Bool
    later = is_as 0x400 a && (is_as 0x40 c && last_two)

    h1 : later ≡ true
    h1 = and_right access later h

    h2 : (is_as 0x40 c && last_two) ≡ true
    h2 = and_right (is_as 0x400 a) (is_as 0x40 c && last_two) h1

    h3 : last_two ≡ true
    h3 = and_right (is_as 0x40 c) last_two h2

-- The flags and the mode that options become tell the access, each of the other options, and the
-- permissions.
pub raw_opts-has :
    (o : OpenOptions)
    → ((bit_and (raw_opts o).0 3 ≡ access_of o.read o.write)
        × (has (raw_opts o).0 0x400 ≡ o.append)
        × (has (raw_opts o).0 0x40 ≡ o.create)
        × (has (raw_opts o).0 0x200 ≡ o.truncate)
        × (has (raw_opts o).0 0x4000 ≡ o.direct))
      × ((raw_opts o).1 ≡ o.permissions.raw)
unfolding raw_opts
raw_opts-has o =
    (read_back-parts (raw_opts o).0 o.read o.write o.append o.create o.truncate o.direct all, refl)
  where
    all : read_back (raw_opts o).0 o.read o.write o.append o.create o.truncate o.direct ≡ true
    all =
        all_bools_lem _
          (all_bools_lem _
            (all_bools_lem _
              (all_bools_lem _ (all_bools_lem _ (all_bools_lem _ options_checked o.read) o.write)
                o.append)
              o.create)
            o.truncate)
          o.direct
