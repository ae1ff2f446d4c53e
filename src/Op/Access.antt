-- ===== src/Op/Access.antt =====
-- The memory that an entry lets the kernel reach, and what it takes for an operation to be cancelled
-- safely: the contract of the trait `Op`.
use inel.Base.{ℕ, ◌*◌, List, [], ◌∷◌}
use inel.Cancellation.{Cancellation}
use inel.IoUring
use inel.IoUring.{Opcode}
use inel.Buffer.Kept.{Keeps}
use inel.Op.{Op}

-- The size of an `iovec` is 16. Of a path and of a structure, whose length no argument gives, the
-- first byte stands for the rest.
unfoldable pub regions : Opcode → List (ℕ × ℕ)
regions (IoUring.read t p n o) = (p, n) ∷ []
regions (IoUring.write t p n o) = (p, n) ∷ []
regions (IoUring.read_fixed t p n i o) = (p, n) ∷ []
regions (IoUring.write_fixed t p n i o) = (p, n) ∷ []
regions (IoUring.readv t p n o) = (p, 16 * n) ∷ []
regions (IoUring.writev t p n o) = (p, 16 * n) ∷ []
regions (IoUring.open_at d p f m i) = (p, 1) ∷ []
regions (IoUring.statx d p f m) = (p, 1) ∷ []
regions (IoUring.mk_dir_at d p m) = (p, 1) ∷ []
regions (IoUring.link_at d p e q) = (p, 1) ∷ (q, 1) ∷ []
regions (IoUring.symlink_at d p q) = (p, 1) ∷ (q, 1) ∷ []
regions (IoUring.unlink_at d p f) = (p, 1) ∷ []
regions (IoUring.bind t p n) = (p, n) ∷ []
regions (IoUring.connect t p n) = (p, n) ∷ []
regions (IoUring.accept t p q i) = (p, 1) ∷ (q, 1) ∷ []
regions (IoUring.timeout p) = (p, 1) ∷ []
regions (IoUring.update_files p n) = (p, 4 * n) ∷ []
regions (IoUring.provide_buffers p n c g i) = (p, n) ∷ []
regions o = []

unfoldable pub KeepsAll : Cancellation → List (ℕ × ℕ) → Type 0
KeepsAll c [] = Unit {0}
KeepsAll c ((p, n) ∷ rs) = Keeps c p n × KeepsAll c rs

-- What the kernel may reach through the entry stays allocated until the cancellation is dropped.
unfoldable pub Owns : (O : Op) → O.Self → Type 0
unfolding regions KeepsAll
Owns O self = KeepsAll (O.cancel (O.entry self).1) (regions (O.entry self).0.opcode)
