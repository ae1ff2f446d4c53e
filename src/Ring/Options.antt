-- ===== src/Ring/Options.antt =====
-- `RingOptions` of crates/inel-reactor/src/ring/mod.rs: how a ring is built.
use inel.Base.{
  ℕ, ◌+◌, ◌<◌, ◌≡◌, ◌^◌, ◌%◌, refl, Bool, true, Bool-cases, inl, inr, ◌&&◌, some, [], ltb,
  replicate, if◌then◌else◌, Outcome, done, expect, failed_to_build, ◌>>=◌, arith,
}
use inel.RingResult.{Cqueue}
use inel.Slab
use inel.Slab.{Slab}
use inel.IoUring.{
  IoUring, Registration, buffers_sparse, files_sparse, file_alloc_range, files_update,
}
use inel.Register
use inel.Register.Lending.{new-Lent}
use inel.Completion
use inel.Completion.{Completion}
use inel.Completion.Refine.{with_capacity-Inv}
use inel.Completion.Weights.{in_flight}
use inel.Ring.{Ring, is_done}
use inel.Ring.Slots.{Lending, is_done_iff}

pub record RingOptions : Type 0 where
  pub submissions : ℕ
  pub fixed_buffers : ℕ
  pub buffer_groups : ℕ
  pub auto_direct_files : ℕ
  pub manual_direct_files : ℕ

abbrev pub default : RingOptions
default = record {
  submissions = 2048;
  fixed_buffers = 256;
  buffer_groups = 256;
  auto_direct_files = 256;
  manual_direct_files = 16;
}

abbrev pub files : RingOptions → ℕ
files o = (o.auto_direct_files + o.manual_direct_files) % 2 ^ 32

module _ (Q : Cqueue) (U : IoUring) (S : Slab Completion) where
  -- A registration that is made if `b`, and must not fail.
  register_if : Bool → Registration → U.Instance → Outcome U.Instance
  register_if b r u = if b then expect failed_to_build (U.register r u) else done u

  unfoldable pub build : RingOptions → Outcome (Ring Q U S)
  unfolding register_if
  build o = do
    ring ← expect failed_to_build (U.build o.submissions)
    buffers ← register_if (ltb 0 o.fixed_buffers) (buffers_sparse o.fixed_buffers) ring
    sparse ← register_if (ltb 0 (files o)) (files_sparse (files o)) buffers
    ranged ←
        register_if (ltb 0 o.auto_direct_files)
          (file_alloc_range o.manual_direct_files o.auto_direct_files) sparse
    reserved ←
        register_if (ltb 0 o.auto_direct_files && ltb 0 o.manual_direct_files)
          (files_update 0 (replicate o.manual_direct_files 0)) ranged
    done (record {
      ring = reserved;
      active = 0;
      detached = 0;
      canceled = 0;
      completions = Completion.with_capacity S o.submissions;
      direct_files = Register.new o.manual_direct_files;
      fixed_buffers = Register.new o.fixed_buffers;
      buffer_groups = Register.new o.buffer_groups;
    })

  -- The numbers are `u32`s.
  pub record Fits (o : RingOptions) : Type 0 where
    pub fixed_buffers : o.fixed_buffers < 2 ^ 32
    pub buffer_groups : o.buffer_groups < 2 ^ 32
    pub manual_direct_files : o.manual_direct_files < 2 ^ 32

  register_if-done :
      ((r : Registration) (u : U.Instance) → (w : U.Instance) × (U.register r u ≡ some w))
      → (b : Bool) (r : Registration) (u : U.Instance)
      → (w : U.Instance) × (register_if b r u ≡ done w)
  unfolding register_if
  register_if-done accepts b r u = elim (Bool-cases b) [
    | inl y ↦ let (w, e) = accepts r u in (w, rw (y, e) refl)
    | inr y ↦ (u, rw y refl)
  ]

  module _ (o : RingOptions) (fits : Fits o) (u : U.Instance) where
    new_ring : Ring Q U S
    new_ring = record {
      ring = u;
      active = 0;
      detached = 0;
      canceled = 0;
      completions = Completion.with_capacity S o.submissions;
      direct_files = Register.new o.manual_direct_files;
      fixed_buffers = Register.new o.fixed_buffers;
      buffer_groups = Register.new o.buffer_groups;
    }

    new_ring-Lending : Lending Q U S new_ring [] [] []
    unfolding new_ring Completion.with_capacity
    new_ring-Lending = record {
      counts = record {
        valid = (with_capacity-Inv S o.submissions).0;
        active = omega (arith, S.total-with_capacity in_flight o.submissions);
        canceled = omega arith;
        detached = omega arith;
        small = omega arith;
      };
      direct_files = new-Lent o.manual_direct_files fits.manual_direct_files;
      fixed_buffers = new-Lent o.fixed_buffers fits.fixed_buffers;
      buffer_groups = new-Lent o.buffer_groups fits.buffer_groups;
    }

    new_ring-done : is_done Q U S new_ring ≡ true
    unfolding new_ring Completion.with_capacity Slab.len
    new_ring-done =
        (is_done_iff Q U S new_ring-Lending).1
          (refl, refl, S.total-with_capacity (λ n. 1) o.submissions, refl, refl, refl)

  -- If the kernel accepts every registration, a ring is built whose counters are right, with no
  -- slot lent, and which is done.
  pub build-Lending :
      (o : RingOptions) {u : U.Instance}
      → Fits o
      → U.build o.submissions ≡ some u
      → ((r : Registration) (v : U.Instance) → (w : U.Instance) × (U.register r v ≡ some w))
      → (r : Ring Q U S) × (build o ≡ done r) × Lending Q U S r [] [] [] × (is_done Q U S r ≡ true)
  unfolding build new_ring
  build-Lending o {u} fits b accepts =
      let (u1, e1) =
        register_if-done accepts (ltb 0 o.fixed_buffers) (buffers_sparse o.fixed_buffers) u in
      let (u2, e2) = register_if-done accepts (ltb 0 (files o)) (files_sparse (files o)) u1 in
      let (u3, e3) =
        register_if-done accepts (ltb 0 o.auto_direct_files)
          (file_alloc_range o.manual_direct_files o.auto_direct_files) u2 in
      let (u4, e4) =
        register_if-done accepts (ltb 0 o.auto_direct_files && ltb 0 o.manual_direct_files)
          (files_update 0 (replicate o.manual_direct_files 0)) u3 in
      (
        new_ring o fits u4,
        rw (b, e1, e2, e3, e4) refl,
        new_ring-Lending o fits u4,
        new_ring-done o fits u4,
      )
