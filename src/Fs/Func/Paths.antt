-- ===== src/Fs/Func/Paths.antt =====
-- The directory that a path is resolved in.
use inel.Base.{ℕ, ◌≡◌, refl, false, List, [], ◌∷◌}
use inel.Base.Int.{ℤ}
use inel.IoUring
use inel.IoUring.{Opcode}
use inel.Op.Call.{submits}
use inel.Op.Link.{dir_of, at_fdcwd, no_dir}
use inel.Op.Paths.{FilePath}
use inel.Fs.{OpenOptions}
use inel.Fs.File.{open_with, open_direct_with}
use inel.Fs.Func.{hard_link, soft_link, remove_file, remove_dir}

-- The directories that the paths of an entry are relative to.
unfoldable pub directories : Opcode → List ℤ
directories (IoUring.open_at d p f m i) = d ∷ []
directories (IoUring.mk_dir_at d p m) = d ∷ []
directories (IoUring.link_at d p e q) = d ∷ e ∷ []
directories (IoUring.symlink_at d p q) = d ∷ []
directories (IoUring.unlink_at d p f) = d ∷ []
directories o = []

-- Opening a file, linking it symbolically and removing it resolve a relative path in the current
-- directory; linking it hard does so never: it gives the kernel a descriptor that is none, which
-- only absolute paths do without.
pub hard_link-directories :
    (o : OpenOptions) (a b : FilePath) (ptr : ℕ)
    → a.is_absolute ≡ false
    → (directories (submits (open_with o a)).opcode ≡ at_fdcwd ∷ [])
      × (directories (submits (open_direct_with o a)).opcode ≡ at_fdcwd ∷ [])
      × (directories (submits (soft_link a b ptr)).opcode ≡ at_fdcwd ∷ [])
      × (directories (submits (remove_file a)).opcode ≡ at_fdcwd ∷ [])
      × (directories (submits (remove_dir a)).opcode ≡ at_fdcwd ∷ [])
      × (directories (submits (hard_link a b ptr)).opcode ≡ no_dir ∷ no_dir ∷ [])
unfolding directories submits open_with open_direct_with soft_link remove_file remove_dir hard_link
    dir_of
hard_link-directories o a b ptr h = rw h (refl, refl, refl, refl, refl, refl)
