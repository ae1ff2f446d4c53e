-- ===== src/Fs/Dirs.antt =====
-- crates/inel/src/fs/dir.rs, and `create_dir` and `create_dir_all` of crates/inel/src/fs/func.rs.
pub mod Creates
use inel.Base.{
  ℕ, Bool, true, false, List, [], ◌∷◌, ◌++◌, ◌==◌, if◌then◌else◌, ◌&&◌, ◌||◌, Outcome, done, panic,
  unwrap_failed,
}
use inel.Base.Int.{ℤ, pos, negsuc}
use inel.Op.Results.{Result, ok, err}

-- A path is its bytes; `MAIN_SEPARATOR` is `/`.
abbrev pub separator : ℕ
separator = b'/'

abbrev pub Bytes : Type 0
Bytes = List ℕ

-- `MkDirAt` with a path and a mode, awaited: what the kernel answers.
pub record Files : Type 1 where
  pub World : Type 0
  pub mk_dir_at : Bytes → ℕ → World → Result (Unit {0}) × World

-- `ErrorKind::AlreadyExists`: `EEXIST`.
unfoldable pub is_already_exists : ℤ → Bool
is_already_exists (pos n) = n == 17
is_already_exists (negsuc n) = false

-- `Path::iter`. The parts between separators; those that are empty or `.` are left out, but for a
-- `.` in front; of a path that starts with a separator, the first item is the separator.
unfoldable pub part : Bytes → List Bytes → List Bytes
part [] parts = parts
part (c ∷ []) parts = if c == b'.' then parts else ((c ∷ []) ∷ parts)
part (c ∷ d ∷ cs) parts = (c ∷ d ∷ cs) ∷ parts

-- `word` is what has been read of a part.
unfoldable pub parts_of : Bytes → Bytes → List Bytes
unfolding part
parts_of word [] = part word []
parts_of word (c ∷ cs) =
    let rest = parts_of [] cs in
    let more = parts_of (word ++ (c ∷ [])) cs in if c == separator then part word rest else more

-- What is behind a `.` that is a part of its own.
unfoldable pub is_end : Bytes → Bool
is_end [] = true
is_end (c ∷ cs) = c == separator

unfoldable pub items_of : Bytes → List Bytes
unfolding parts_of is_end
items_of [] = []
items_of (c ∷ cs) =
    if c == separator
    then ((c ∷ []) ∷ parts_of [] cs)
    else if c == b'.' && is_end cs
    then ((c ∷ []) ∷ parts_of [] cs)
    else parts_of (c ∷ []) cs

pub record DirBuilder : Type 0 where
  pub recursive : Bool

unfoldable pub new : DirBuilder
new = record { recursive = false }

-- The builder method `recursive`.
unfoldable pub with_recursive : Bool → DirBuilder → DirBuilder
with_recursive b d = record d { recursive = b }

abbrev pub all_modes : ℕ
all_modes = 0o777

-- A zero byte, on which the `unwrap` of `CString::new` panics.
unfoldable pub has_nul : Bytes → Bool
has_nul [] = false
has_nul (c ∷ cs) = c == 0 || has_nul cs

module _ (F : Files) where
  open F use {World, mk_dir_at}

  abbrev pub Answer : Type 0
  Answer = Outcome (Result (Unit {0})) × World

  -- `MkDirAt::new(path).mode(0o777)`, awaited.
  unfoldable pub make_dir : Bytes → World → Answer
  unfolding has_nul
  make_dir path w =
      if has_nul path
      then (panic unwrap_failed, w)
      else (let (a, w') = mk_dir_at path all_modes w in (done a, w'))

  -- The loop of `create_recursive`, with what `buf` holds, on the answer for the path so far.
  unfoldable pub unless : Bool → (World → Answer) → Answer → Answer
  unless true go_on (r, w) = go_on w
  unless false go_on (r, w) = (r, w)

  unfoldable pub create_next : (World → Answer) → Answer → Answer
  unfolding unless
  create_next go_on (done (ok u), w) = go_on w
  create_next go_on (done (err e), w) = unless (is_already_exists e) go_on (done (err e), w)
  create_next go_on (panic q, w) = (panic q, w)

  unfoldable pub create_items : Bytes → List Bytes → World → Answer
  unfolding create_next make_dir
  create_items buf [] w = (done (ok tt), w)
  create_items buf (item ∷ items) w =
      let go_on : World → Answer = create_items (buf ++ item ++ (separator ∷ [])) items in
      create_next go_on (make_dir (buf ++ item) w)

  unfoldable pub create_recursive : Bytes → World → Answer
  unfolding create_items
  create_recursive path w = create_items [] (items_of path) w

  unfoldable pub create : DirBuilder → Bytes → World → Answer
  unfolding make_dir
  create d path w = if d.recursive then create_recursive path w else make_dir path w

  unfoldable pub create_dir : Bytes → World → Answer
  unfolding new
  create_dir path w = create new path w

  unfoldable pub create_dir_all : Bytes → World → Answer
  unfolding new with_recursive
  create_dir_all path w = create (with_recursive true new) path w
