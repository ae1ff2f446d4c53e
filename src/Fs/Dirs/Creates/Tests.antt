-- ===== src/Fs/Dirs/Creates/Tests.antt =====
-- Directories that are created in a concrete file system.
use inel.Base.{
  Bool, true, false, Bool-cases, inl, inr, [], ◌∷◌, ◌≡◌, refl, ap, subst, ◌==◌, if◌then◌else◌,
  ==_refl,
}
use inel.Base.Int.{pos}
use inel.Op.Results.{Result, ok, err}
use inel.Fs.Dirs.{Bytes, Files, items_of, create_dir_all}
use inel.Fs.Dirs.Creates.{Law, Creates, prefixes, create_dir_all-Creates}

same : Bytes → Bytes → Bool
same [] [] = true
same (c ∷ cs) (d ∷ ds) = if c == d then same cs ds else false
same cs ds = false

same_refl : (cs : Bytes) → same cs cs ≡ true
unfolding same
same_refl [] = refl
same_refl (c ∷ cs) = rw (==_refl c) (same_refl cs)

with_name : Bytes → (Bytes → Bool) → Bytes → Bool
with_name p w q = if same p q then true else w q

make : Bool → Bytes → (Bytes → Bool) → Result (Unit {0}) × (Bytes → Bool)
make true p w = (err (pos 17), w)
make false p w = (ok tt, with_name p w)

-- The world says which names there are.
abbrev names : Files
names = record { World = Bytes → Bool; mk_dir_at = λ p m w. make (w p) p w }

made_lem : (b : Bool) (p : Bytes) (w w' : Bytes → Bool) → make b p w ≡ (ok tt, w') → w' p ≡ true
unfolding make with_name
made_lem true p w w' e = cc
made_lem false p w w' e = subst (λ v. v p ≡ true) (ap (λ x. x.1) e) (rw (same_refl p) refl)

exists_lem :
    (b : Bool) (p : Bytes) (w w' : Bytes → Bool)
    → w p ≡ b
    → make b p w ≡ (err (pos 17), w')
    → w' p ≡ true
unfolding make
exists_lem true p w w' at e = subst (λ v. v p ≡ true) (ap (λ x. x.1) e) at
exists_lem false p w w' at e = cc

kept_lem : (b : Bool) (p q : Bytes) (w : Bytes → Bool) → w q ≡ true → (make b p w).1 q ≡ true
unfolding make with_name
kept_lem true p q w h = h
kept_lem false p q w h = elim (Bool-cases (same p q)) [ inl y ↦ rw y refl | inr n ↦ rw n h ]

abbrev law : Law names
law = record {
  Present = λ p w. w p ≡ true;
  made = λ p m w w' e. made_lem (w p) p w w' e;
  exists = λ p m w w' e. exists_lem (w p) p w w' refl e;
  kept = λ p q m w h. kept_lem (w p) p q w h;
}

-- The path `/a//./b`.
abbrev deep : Bytes
deep = b'/' ∷ b'a' ∷ b'/' ∷ b'/' ∷ b'.' ∷ b'/' ∷ b'b' ∷ []

-- The loop asks for `/`, `//a` and `//a/b`.
deep-prefixes :
    prefixes [] (items_of deep)
    ≡ (b'/' ∷ []) ∷ (b'/' ∷ b'/' ∷ b'a' ∷ []) ∷ (b'/' ∷ b'/' ∷ b'a' ∷ b'/' ∷ b'b' ∷ []) ∷ []
unfolding prefixes items_of
deep-prefixes = refl

root_only : Bytes → Bool
root_only q = same (b'/' ∷ []) q

create_dir_all-Creates_example :
    Creates names law (prefixes [] (items_of deep)) root_only (create_dir_all names deep root_only)
create_dir_all-Creates_example = create_dir_all-Creates names law deep root_only
