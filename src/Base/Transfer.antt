-- ===== src/Base/Transfer.antt =====
-- Bytes that move from the front of a buffer to the end of a stream.
use sockpuppet.Base.{
  ℕ, ◌-◌, ◌≤◌, ◌≡◌, refl, sym, ap, ◌∙◌, List, [], ◌++◌, append_assoc, append-nil, length,
  length-append, take, drop, take-append-drop, arith, zero, suc, ◌∷◌,
}

-- `a` has become `b` by a front of `left`, of which `rest` has not moved.
abbrev pub Moves : List ℕ → List ℕ → List ℕ → List ℕ → Type 0
Moves a left rest b = (front : List ℕ) × (left ≡ front ++ rest) × (b ≡ a ++ front)

abbrev pub MovesSome : List ℕ → List ℕ → List ℕ → Type 0
MovesSome a left b = (rest : List ℕ) × Moves a left rest b

pub Moves-none : {a b : List ℕ} (left : List ℕ) → b ≡ a → Moves a left left b
Moves-none {a} left e = ([], refl, e ∙ sym (append-nil a))

pub Moves-still : {a b : List ℕ} (left : List ℕ) → b ≡ a → MovesSome a left b
Moves-still left e = (left, Moves-none left e)

pub Moves-trans :
    (a b c left mid rest : List ℕ) → Moves a left mid b → Moves b mid rest c → Moves a left rest c
Moves-trans a b c left mid rest (f, e, g) (f', e', g') = (
  f ++ f',
  e ∙ (ap (λ l. f ++ l) e' ∙ sym (append_assoc f f' rest)),
  g' ∙ (ap (λ l. l ++ f') g ∙ append_assoc a f f'),
)

pub Moves-take :
    (a b : List ℕ) (n : ℕ) (left : List ℕ) → b ≡ a ++ take n left → Moves a left (drop n left) b
Moves-take a b n left e = (take n left, sym (take-append-drop n left), e)

take-length_front : (n : ℕ) (f r : List ℕ) → n ≡ length f → take n (f ++ r) ≡ f
take-length_front zero [] r e = refl
take-length_front (suc n) (x ∷ f) r e = ap (◌∷◌ x) (take-length_front n f r (omega (arith, e)))
take-length_front zero (x ∷ f) r e = absurd (omega (arith, e))
take-length_front (suc n) [] r e = absurd (omega (arith, e))

-- What has moved, by its number.
pub Moves-front :
    (a b left rest : List ℕ)
    → Moves a left rest b
    → let n = length left - length rest in (n ≤ length left) × (b ≡ a ++ take n left)
Moves-front a b left rest (f, e, g) =
    (omega arith, g ∙ ap (λ l. a ++ l) (sym (rw e (take-length_front _ f rest gone))))
  where
    gone : length (f ++ rest) - length rest ≡ length f
    gone = omega (arith, length-append f rest)
