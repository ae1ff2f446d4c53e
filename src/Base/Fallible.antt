-- ===== src/Base/Fallible.antt =====
-- Code that may panic: the result, or the panic that ends the thread.
use mathlib.Core.Option.{Option, none, some}
use mathlib.Core.Path.{◌≡◌}

-- The source's `expect`, `unwrap`, `unreachable!`, `assert!` and indexing, by what they refuse;
-- `stack_overflow` is the end of a function that calls itself without end.
pub data Panic : Type 0 where
  unexpected_key already_cancelled already_finished : Panic
  index_out_of_bounds queue_full moved_out polled_after_completion : Panic
  assertion_failed unreachable_code failed_to_wait failed_to_build reactor_gone : Panic
  stack_overflow unwrap_failed deadlock reactor_running : Panic

pub data Outcome {ℓ} (A : Type ℓ) : Type ℓ where
  done : A → Outcome A
  panic : Panic → Outcome A

infixl 5 ◌>>=◌ ◌>>◌
abbrev pub ◌>>=◌ {ℓ κ} : {A : Type ℓ} {B : Type κ} → Outcome A → (A → Outcome B) → Outcome B
done a >>= f = f a
panic e >>= f = panic e

abbrev pub ◌>>◌ {ℓ} : {B : Type ℓ} → Outcome (Unit {0}) → Outcome B → Outcome B
m >> k = m >>= λ _. k

-- `o.expect(..)`.
abbrev pub expect {ℓ} : {A : Type ℓ} → Panic → Option A → Outcome A
expect e none = panic e
expect e (some a) = done a

pub done_eq {ℓ} : {A : Type ℓ} {a b : A} → done a ≡ done b → a ≡ b
done_eq e = cc
