-- ===== src/Base/Outcome.antt =====
-- Exceptions as values, and stateful code that may throw: what it did before it threw stays done.
use Prim.Native.Nat.{ℕ}
use Prim.Native.String.{String}
use mathlib.Core.Path.{◌≡◌, refl}
use mathlib.Core.Bool.{Bool, true, false}

-- `std::system_error` is a `std::runtime_error`, `std::invalid_argument` a `std::logic_error`.
pub data Error : Type 0 where
  system_error : ℕ → String → Error
  runtime_error : String → Error
  logic_error : String → Error
  invalid_argument : String → Error
  -- No exceptions of the code: an assertion failed; a loop of the model used up its fuel.
  assertion_failed : Error
  out_of_fuel : Error

-- What a handler `catch(std::runtime_error const &)` takes.
abbrev pub is_runtime_error : Error → Bool
is_runtime_error (system_error c m) = true
is_runtime_error (runtime_error m) = true
is_runtime_error (logic_error m) = false
is_runtime_error (invalid_argument m) = false
is_runtime_error assertion_failed = false
is_runtime_error out_of_fuel = false

pub data Result {ℓ} (A : Type ℓ) : Type ℓ where
  ok : A → Result A
  err : Error → Result A

abbrev pub Action : Type 0 → Type 0 → Type 0
Action S A = S → Result A × S

module _ {S A : Type 0} where
  abbrev pub pure : A → Action S A
  pure a s = (ok a, s)

  abbrev pub throw : Error → Action S A
  throw e s = (err e, s)

  abbrev pub try_catch : Result A × S → (Error → Action S A) → Result A × S
  try_catch (ok a, s) h = (ok a, s)
  try_catch (err e, s) h = h e s

module _ {S A B : Type 0} where
  abbrev pub and_then : Result A × S → (A → Action S B) → Result B × S
  and_then (ok a, s) f = f a s
  and_then (err e, s) f = (err e, s)

  infixl 5 ◌>>=◌ ◌>>◌
  abbrev pub ◌>>=◌ : Action S A → (A → Action S B) → Action S B
  ◌>>=◌ m f s = and_then (m s) f

  abbrev pub ◌>>◌ : Action S A → Action S B → Action S B
  ◌>>◌ m k s = and_then (m s) (λ _. k)

  -- Inversion of a chain that succeeds.
  pub and_then-eq-ok :
      (m : Result A × S) (f : A → Action S B) {b : B}
      → (and_then m f).0 ≡ ok b
      → (a : A) × (m.0 ≡ ok a) × ((f a m.1).0 ≡ ok b)
  and_then-eq-ok (ok a, s) f h = (a, refl, h)
  and_then-eq-ok (err e, s) f h = cc
