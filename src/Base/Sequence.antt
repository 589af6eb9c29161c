-- ===== src/Base/Sequence.antt =====
-- What the code uses of `std::deque` and `std::vector`: `std::find_if`, `emplace` and `erase` at an
-- iterator, an element's reference. An iterator is an index, and `end()` is the length.
use Prim.Native.Nat.{ℕ, zero, suc, ◌+◌, ◌≤◌}
use mathlib.Core.Path.{◌≡◌, refl, ap}
use mathlib.Core.Bool.{Bool, true, false, ◌||◌, not}
use mathlib.Core.List.{List, [], ◌∷◌, ◌++◌}
use native.Mathlib.Omega.{arith}
use sockpuppet.Base.Lists.{length}
use sockpuppet.Base.Tests.{◌==◌, if◌then◌else◌}

module _ {ℓ} {A : Type ℓ} where
  unfoldable pub find_if : (A → Bool) → List A → ℕ
  find_if p [] = 0
  find_if p (x ∷ xs) = if p x then 0 else suc (find_if p xs)

  abbrev pub emplace : List A → ℕ → A → List A
  emplace xs zero a = a ∷ xs
  emplace [] (suc i) a = a ∷ []
  emplace (x ∷ xs) (suc i) a = x ∷ emplace xs i a

  abbrev pub erase : List A → ℕ → List A
  erase [] i = []
  erase (x ∷ xs) zero = xs
  erase (x ∷ xs) (suc i) = x ∷ erase xs i

  abbrev pub modify : List A → ℕ → (A → A) → List A
  modify [] i f = []
  modify (x ∷ xs) zero f = f x ∷ xs
  modify (x ∷ xs) (suc i) f = x ∷ modify xs i f

  pub length-modify : (xs : List A) (i : ℕ) (f : A → A) → length (modify xs i f) ≡ length xs
  length-modify [] i f = refl
  length-modify (x ∷ xs) zero f = refl
  length-modify (x ∷ xs) (suc i) f = ap suc (length-modify xs i f)

-- Identities (of shared objects, of file descriptors) in a list.
abbrev pub mem : ℕ → List ℕ → Bool
mem a [] = false
mem a (x ∷ xs) = (x == a) || mem a xs

abbrev pub IsNodup : List ℕ → Type 0
IsNodup [] = Unit {0}
IsNodup (x ∷ xs) = (mem x xs ≡ false) × IsNodup xs

-- How often an identity stands in a list.
abbrev pub count : ℕ → List ℕ → ℕ
count a [] = 0
count a (x ∷ xs) = (if x == a then 1 else 0) + count a xs

pub count-append :
    (i : ℕ) (front back : List ℕ) → count i (front ++ back) ≡ count i front + count i back
count-append i [] back = ground arith
count-append i (b ∷ front) back = ground (arith, count-append i front back)

module _ {ℓ} {A : Type ℓ} (p : A → Bool) where
  abbrev pub any : List A → Bool
  any [] = false
  any (x ∷ xs) = p x || any xs

  -- The list without the first element that passes the test.
  abbrev pub remove_first : List A → List A
  remove_first [] = []
  remove_first (x ∷ xs) = if p x then xs else x ∷ remove_first xs

  pub erase-find_if : (xs : List A) → erase xs (find_if p xs) ≡ remove_first xs
  unfolding find_if
  erase-find_if [] = refl
  erase-find_if (x ∷ xs) = ground (arith, erase-find_if xs)

  pub find_if-end : (xs : List A) → (find_if p xs == length xs) ≡ not (any xs)
  unfolding find_if
  find_if-end [] = refl
  find_if-end (x ∷ xs) = ground (arith, find_if-end xs)

  pub remove_first-absent : (xs : List A) → any xs ≡ false → remove_first xs ≡ xs
  remove_first-absent [] h = refl
  remove_first-absent (x ∷ xs) h = ground (arith, remove_first-absent xs)

  pub length-remove_first : (xs : List A) → any xs ≡ true → length (remove_first xs) + 1 ≡ length xs
  length-remove_first [] h = cc
  length-remove_first (x ∷ xs) h = ground (arith, length-remove_first xs)

pub any-mem : (a : ℕ) (xs : List ℕ) → any (λ x. x == a) xs ≡ mem a xs
any-mem a [] = refl
any-mem a (x ∷ xs) = ground (arith, any-mem a xs)

pub count-remove_first :
    (a b : ℕ) (xs : List ℕ)
    → mem b xs ≡ true
    → count a (remove_first (λ x. x == b) xs) + (if b == a then 1 else 0) ≡ count a xs
count-remove_first a b [] m = cc
count-remove_first a b (x ∷ xs) m = ground (arith, count-remove_first a b xs)

pub count-mem : (a : ℕ) (xs : List ℕ) → mem a xs ≡ true → 1 ≤ count a xs
count-mem a [] m = cc
count-mem a (x ∷ xs) m = ground (arith, count-mem a xs)

pub count-absent : (a : ℕ) (xs : List ℕ) → mem a xs ≡ false → count a xs ≡ 0
count-absent a [] m = refl
count-absent a (x ∷ xs) m = ground (arith, count-absent a xs)
