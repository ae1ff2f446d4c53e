-- ===== src/Fs/Dirs/Creates.antt =====
-- What creating directories recursively asks of the kernel, and what is there afterwards.
mod Tests
use inel.Base.{
  ℕ, Outcome, done, panic, true, false, Bool-cases, inl, inr, List, [], ◌∷◌, ◌++◌, ◌≡◌, refl, ap,
  ◌∙◌, ==→≡, sym, subst,
}
use inel.Base.Int.{ℤ, pos, negsuc}
use inel.Op.Results.{Result, ok, err}
use inel.Fs.Dirs.{
  Bytes, Files, separator, is_already_exists, items_of, all_modes, has_nul, make_dir, create_items,
  create_next, create_dir_all, create, create_recursive,
}

-- The paths of the loop: the first items, joined by separators.
unfoldable pub prefixes : Bytes → List Bytes → List Bytes
prefixes buf [] = []
prefixes buf (item ∷ items) = (buf ++ item) ∷ prefixes (buf ++ item ++ (separator ∷ [])) items

-- `Present p w`: something has the name `p`. A directory that the kernel says it has made, or
-- that it says is there, is present, and making one removes nothing.
pub record Law (F : Files) : Type 1 where
  pub Present : Bytes → F.World → Type 0
  pub made : (p : Bytes) (m : ℕ) (w w' : F.World) → F.mk_dir_at p m w ≡ (ok tt, w') → Present p w'
  pub exists :
      (p : Bytes) (m : ℕ) (w w' : F.World) → F.mk_dir_at p m w ≡ (err (pos 17), w') → Present p w'
  pub kept : (p q : Bytes) (m : ℕ) (w : F.World) → Present q w → Present q (F.mk_dir_at p m w).1

module _ (F : Files) (L : Law F) where
  open F use {World, mk_dir_at}
  open L use {Present}

  -- Each is present, and has no zero byte.
  pub data AllPresent (w : World) : List Bytes → Type 0 where
    none : AllPresent w []
    more :
        {p : Bytes} {ps : List Bytes}
        → has_nul p ≡ false
        → Present p w
        → AllPresent w ps
        → AllPresent w (p ∷ ps)

  -- The kernel after it was asked to make each.
  unfoldable pub asked : List Bytes → World → World
  asked [] w = w
  asked (p ∷ ps) w = asked ps ((mk_dir_at p all_modes w).1)

  asked-kept : (q : Bytes) (ps : List Bytes) (w : World) → Present q w → Present q (asked ps w)
  unfolding asked
  asked-kept q [] w h = h
  asked-kept q (p ∷ ps) w h = asked-kept q ps _ (L.kept p q all_modes w h)

  -- What the answer to making each of the paths, in order, is.
  unfoldable pub Creates : List Bytes → World → Outcome (Result (Unit {0})) × World → Type 0
  Creates ps w (done (ok u), w') = (w' ≡ asked ps w) × AllPresent w' ps
  Creates ps w (done (err e), w') =
      (made : List Bytes) × (p : Bytes) × (later : List Bytes) × (ps ≡ made ++ p ∷ later)
      × (mk_dir_at p all_modes (asked made w) ≡ (err e, w'))
      × (is_already_exists e ≡ false)
      × (has_nul p ≡ false)
      × AllPresent w' made
  Creates ps w (panic q, w') =
      (made : List Bytes) × (p : Bytes) × (later : List Bytes) × (ps ≡ made ++ p ∷ later)
      × (w' ≡ asked made w)
      × (has_nul p ≡ true)
      × AllPresent w' made

  behind :
      (p : Bytes) (ps : List Bytes) (w w1 : World) (a : Outcome (Result (Unit {0})) × World)
      → has_nul p ≡ false
      → (mk_dir_at p all_modes w).1 ≡ w1
      → Present p w1
      → Creates ps w1 a
      → Creates (p ∷ ps) w a
  unfolding Creates asked
  behind p ps w w1 (done (ok u), w') clean at h (same, all) =
      let here : Present p w' = subst (Present p) (sym same) (asked-kept p ps w1 h) in
      (same ∙ ap (asked ps) (sym at), more clean here all)
  behind p ps w w1 (done (err e), w') clean at h (made, q, later, split, answer, new, named, all) =
      let there : mk_dir_at q all_modes (asked made ((mk_dir_at p all_modes w).1)) ≡ (err e, w') =
        ap (λ v. mk_dir_at q all_modes (asked made v)) at ∙ answer in
      let here : Present p w' =
        subst (Present p) (ap (λ x. x.1) answer)
          (L.kept q p all_modes _ (asked-kept p made w1 h)) in
      (p ∷ made, q, later, ap (p ∷◌) split, there, new, named, more clean here all)
  behind p ps w w1 (panic x, w') clean at h (made, q, later, split, same, nul, all) =
      let here : Present p w' = subst (Present p) (sym same) (asked-kept p made w1 h) in
      (
        p ∷ made,
        q,
        later,
        ap (p ∷◌) split,
        same ∙ ap (asked made) (sym at),
        nul,
        more clean here all,
      )

  exists_number : (e : ℤ) → is_already_exists e ≡ true → e ≡ pos 17
  unfolding is_already_exists
  exists_number (pos n) h = ap pos (==→≡ n 17 h)
  exists_number (negsuc n) h = cc

  create_next-Creates :
      (p : Bytes) (ps : List Bytes) (w : World) (a : Result (Unit {0}) × World)
      (go_on : World → Outcome (Result (Unit {0})) × World)
      → has_nul p ≡ false
      → mk_dir_at p all_modes w ≡ a
      → ((v : World) → Creates ps v (go_on v))
      → Creates (p ∷ ps) w (create_next F go_on (done a.0, a.1))
  unfolding create_next Creates asked
  create_next-Creates p ps w (ok u, w1) go_on clean at rest =
      behind p ps w w1 (go_on w1) clean (ap (λ x. x.1) at) (L.made p all_modes w w1 at) (rest w1)
  create_next-Creates p ps w (err e, w1) go_on clean at rest =
      elim (Bool-cases (is_already_exists e)) [
        | inl y ↦
            let there : mk_dir_at p all_modes w ≡ (err (pos 17), w1) =
              at ∙ ap (λ n. (err n, w1)) (exists_number e y) in
            rw y (
              behind p ps w w1 (go_on w1) clean (ap (λ x. x.1) at) (L.exists p all_modes w w1 there)
                (rest w1))
        | inr n ↦ rw n ([], p, ps, refl, at, n, clean, none)
      ]

  pub create_items-Creates :
      (buf : Bytes) (items : List Bytes) (w : World)
      → Creates (prefixes buf items) w (create_items F buf items w)
  unfolding create_items make_dir prefixes Creates asked
  create_items-Creates buf [] w = (refl, none)
  create_items-Creates buf (item ∷ items) w =
      let next : Bytes = buf ++ item ++ (separator ∷ []) in
      elim (Bool-cases (has_nul (buf ++ item))) [
        | inl y ↦ rw y ([], buf ++ item, prefixes next items, refl, refl, y, none)
        | inr n ↦ rw n (
            create_next-Creates (buf ++ item) (prefixes next items) w
              (mk_dir_at (buf ++ item) all_modes w) _ n refl
              (λ v. create_items-Creates next items v))
      ]

  -- Creating a directory with its parents asks the kernel for each path that the items of the path
  -- make up, shortest first. Where it succeeds, it has asked for all of them, and each is present;
  -- where it fails, it fails as the kernel does on the first that the kernel does not say is there
  -- or has been made, asks for no other, and those before are present. Where it panics, it has come
  -- to a path with a zero byte, and those before are present; otherwise none of those it has come to
  -- has a zero byte.
  pub create_dir_all-Creates :
      (path : Bytes) (w : World) → Creates (prefixes [] (items_of path)) w (create_dir_all F path w)
  unfolding create_dir_all create create_recursive
  create_dir_all-Creates path w = create_items-Creates [] (items_of path) w
