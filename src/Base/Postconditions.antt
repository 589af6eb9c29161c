-- ===== src/Base/Postconditions.antt =====
-- Postconditions of stateful code: what holds of a returned value, and what of a throw. Either way
-- the code has come to an end: running out of fuel satisfies neither.
use mathlib.Core.Logic.{◌≢◌}
use sockpuppet.Base.Outcome.{out_of_fuel, Result, ok, err, Action, and_then}

module _ {S A : Type 0} where
  abbrev pub Ensures : (A → S → Type 0) → (S → Type 0) → Result A × S → Type 0
  Ensures P Q (ok a, s) = P a s
  Ensures P Q (err e, s) = (e ≢ out_of_fuel) × Q s

  pub Ensures-mono :
      (P P' : A → S → Type 0) (Q Q' : S → Type 0) (m : Result A × S)
      → Ensures P Q m
      → ((a : A) (s : S) → P a s → P' a s)
      → ((s : S) → Q s → Q' s)
      → Ensures P' Q' m
  Ensures-mono P P' Q Q' (ok a, s) h p q = p a s h
  Ensures-mono P P' Q Q' (err e, s) h p q = (h.0, q s h.1)

module _ {S A B : Type 0} where
  pub Ensures-and_then :
      (P : A → S → Type 0) (Q : S → Type 0) (P' : B → S → Type 0) (Q' : S → Type 0)
      (m : Result A × S) (f : A → Action S B)
      → Ensures P Q m
      → ((a : A) (s : S) → P a s → Ensures P' Q' (f a s))
      → ((s : S) → Q s → Q' s)
      → Ensures P' Q' (and_then m f)
  Ensures-and_then P Q P' Q' (ok a, s) f h p q = p a s h
  Ensures-and_then P Q P' Q' (err e, s) f h p q = (h.0, q s h.1)
