-- ===== src/Todo/Sorted.antt =====
-- Queues of tasks of src/todo_impl.cpp in the order of their due times: what it is for a queue to be
-- sorted, to have a task inserted when it is due, and to be without a task.
use sockpuppet.Base.{ℕ, ◌≡◌, refl, false, ◌||◌, List, [], ◌∷◌, ◌==◌, if◌then◌else◌, arith}
use sockpuppet.Base.Int.{ℤ, ltb_ℤ, ◌≤ℤ◌, ◌<ℤ◌}
use sockpuppet.Base.Sequence.{mem, IsNodup}
use sockpuppet.Todo.{ToDos, assign}

-- Every task of the list is due at `t` or later; strictly later; at `t` or before.
abbrev pub AtLeast : (ℕ → ℤ) → ℤ → List ℕ → Type 0
AtLeast w t [] = Unit {0}
AtLeast w t (x ∷ xs) = (t ≤ℤ w x) × AtLeast w t xs

abbrev pub After : (ℕ → ℤ) → ℤ → List ℕ → Type 0
After w t [] = Unit {0}
After w t (x ∷ xs) = (t <ℤ w x) × After w t xs

abbrev pub AtMost : (ℕ → ℤ) → ℤ → List ℕ → Type 0
AtMost w t [] = Unit {0}
AtMost w t (x ∷ xs) = (w x ≤ℤ t) × AtMost w t xs

abbrev pub IsSorted : (ℕ → ℤ) → List ℕ → Type 0
IsSorted w [] = Unit {0}
IsSorted w (x ∷ xs) = AtLeast w (w x) xs × IsSorted w xs

pub record IsOrdered (s : ToDos) : Type 0 where
  pub sorted : IsSorted s.when s.queue
  pub distinct : IsNodup s.queue

-- The list without one task.
abbrev pub without : ℕ → List ℕ → List ℕ
without a [] = []
without a (x ∷ xs) = if x == a then without a xs else x ∷ without a xs

abbrev pub insert_at_due : (ℕ → ℤ) → ℕ → List ℕ → List ℕ
insert_at_due w x [] = x ∷ []
insert_at_due w x (y ∷ ys) = if ltb_ℤ (w x) (w y) then x ∷ y ∷ ys else y ∷ insert_at_due w x ys

pub AtLeast-trans : (w : ℕ → ℤ) (a b : ℤ) (q : List ℕ) → a ≤ℤ b → AtLeast w b q → AtLeast w a q
AtLeast-trans w a b [] h l = tt
AtLeast-trans w a b (x ∷ xs) h l = (omega arith, AtLeast-trans w a b xs h l.1)

pub AtLeast-insert :
    (w : ℕ → ℤ) (t : ℤ) (x : ℕ) (q : List ℕ)
    → t ≤ℤ w x
    → AtLeast w t q
    → AtLeast w t (insert_at_due w x q)
AtLeast-insert w t x [] h l = (h, tt)
AtLeast-insert w t x (y ∷ ys) h l = ground (arith, AtLeast-insert w t x ys h l.1)

pub insert_at_due-IsSorted :
    (w : ℕ → ℤ) (x : ℕ) (q : List ℕ) → IsSorted w q → IsSorted w (insert_at_due w x q)
insert_at_due-IsSorted w x [] s = (tt, tt)
insert_at_due-IsSorted w x (y ∷ ys) s = ground (
  arith,
  AtLeast-trans w (w x) (w y) ys,
  AtLeast-insert w (w y) x ys,
  insert_at_due-IsSorted w x ys s.1,
)

pub mem-insert_at_due :
    (w : ℕ → ℤ) (a x : ℕ) (q : List ℕ) → mem a (insert_at_due w x q) ≡ ((x == a) || mem a q)
mem-insert_at_due w a x [] = refl
mem-insert_at_due w a x (y ∷ ys) = ground (arith, mem-insert_at_due w a x ys)

pub insert_at_due-IsNodup :
    (w : ℕ → ℤ) (x : ℕ) (q : List ℕ) → mem x q ≡ false → IsNodup q → IsNodup (insert_at_due w x q)
insert_at_due-IsNodup w x [] m d = (refl, tt)
insert_at_due-IsNodup w x (y ∷ ys) m d =
    ground (arith, mem-insert_at_due w y x ys, insert_at_due-IsNodup w x ys)

pub without_absent : (a : ℕ) (q : List ℕ) → mem a q ≡ false → without a q ≡ q
without_absent a [] m = refl
without_absent a (x ∷ xs) m = ground (arith, without_absent a xs)

pub AtLeast-without :
    (w : ℕ → ℤ) (t : ℤ) (x : ℕ) (q : List ℕ) → AtLeast w t q → AtLeast w t (without x q)
AtLeast-without w t x [] l = tt
AtLeast-without w t x (y ∷ ys) l = ground (arith, AtLeast-without w t x ys l.1)

pub without-IsSorted : (w : ℕ → ℤ) (x : ℕ) (q : List ℕ) → IsSorted w q → IsSorted w (without x q)
without-IsSorted w x [] s = tt
without-IsSorted w x (y ∷ ys) s =
    ground (arith, AtLeast-without w (w y) x ys s.0, without-IsSorted w x ys s.1)

pub mem-without_ne : (a x : ℕ) (q : List ℕ) → mem a q ≡ false → mem a (without x q) ≡ false
mem-without_ne a x [] m = refl
mem-without_ne a x (y ∷ ys) m = ground (arith, mem-without_ne a x ys)

pub mem-without : (x : ℕ) (q : List ℕ) → mem x (without x q) ≡ false
mem-without x [] = refl
mem-without x (y ∷ ys) = ground (arith, mem-without x ys)

pub without-IsNodup : (x : ℕ) (q : List ℕ) → IsNodup q → IsNodup (without x q)
without-IsNodup x [] d = tt
without-IsNodup x (y ∷ ys) d = ground (arith, mem-without_ne y x ys d.0, without-IsNodup x ys d.1)

-- The times of absent tasks do not matter.
pub AtLeast-assign :
    (w : ℕ → ℤ) (x : ℕ) (t u : ℤ) (q : List ℕ)
    → mem x q ≡ false
    → AtLeast w u q
    → AtLeast (assign w x t) u q
AtLeast-assign w x t u [] m l = tt
AtLeast-assign w x t u (y ∷ ys) m l = ground (arith, AtLeast-assign w x t u ys)

pub IsSorted-assign :
    (w : ℕ → ℤ) (x : ℕ) (t : ℤ) (q : List ℕ)
    → mem x q ≡ false
    → IsSorted w q
    → IsSorted (assign w x t) q
IsSorted-assign w x t [] m s = tt
IsSorted-assign w x t (y ∷ ys) m s =
    ground (arith, AtLeast-assign w x t (w y) ys, IsSorted-assign w x t ys)

pub without-insert :
    (w : ℕ → ℤ) (x : ℕ) (q : List ℕ) → without x (insert_at_due w x q) ≡ without x q
without-insert w x [] = ground arith
without-insert w x (y ∷ ys) = ground (arith, without-insert w x ys)

pub without-without : (x : ℕ) (q : List ℕ) → without x (without x q) ≡ without x q
without-without x [] = refl
without-without x (y ∷ ys) = ground (arith, without-without x ys)
