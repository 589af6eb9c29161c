-- ===== src/Address/Text/Parts.antt =====
-- Parts of a text buffer at known places, for the printing in src/address_impl.cpp.
use sockpuppet.Base.{
  ℕ, zero, suc, ◌+◌, ◌≡◌, refl, ap, ◌∙◌, Bool, true, List, [], ◌∷◌, ◌++◌, append_assoc, append-nil,
  ◌≤◌, length, take, drop, replicate, some, ◌==◌, if◌then◌else◌, arith, Bool-cases, inl, inr,
}
use sockpuppet.Base.Sequence.{any}
use sockpuppet.Address.Text.{find_nul, set_at, overlay}

-- The text in a buffer: what stands before the first null character.
abbrev pub c_text : List ℕ → List ℕ
c_text [] = []
c_text (c ∷ cs) = if c == 0 then [] else c ∷ c_text cs

abbrev pub is_nul : ℕ → Bool
is_nul c = c == 0

-- What stands behind `xs` in a longer text, at an index that passes `xs`.
pub take_past : (xs ys : List ℕ) (k n : ℕ) → k ≡ length xs + n → take k (xs ++ ys) ≡ xs ++ take n ys
take_past [] ys k n e = let e' : k ≡ n = omega (arith, e) in ap (λ m. take m ys) e'
take_past (x ∷ xs) ys zero n e = absurd (omega (arith, e))
take_past (x ∷ xs) ys (suc k) n e = ap (◌∷◌ x) (take_past xs ys k n (omega (arith, e)))

pub drop_past : (xs ys : List ℕ) (k n : ℕ) → k ≡ length xs + n → drop k (xs ++ ys) ≡ drop n ys
drop_past [] ys k n e = let e' : k ≡ n = omega (arith, e) in ap (λ m. drop m ys) e'
drop_past (x ∷ xs) ys zero n e = absurd (omega (arith, e))
drop_past (x ∷ xs) ys (suc k) n e = drop_past xs ys k n (omega (arith, e))

pub set_at_past :
    (xs ys : List ℕ) (k x c : ℕ) → k ≡ length xs → set_at (xs ++ x ∷ ys) k c ≡ xs ++ c ∷ ys
set_at_past [] ys zero x c e = refl
set_at_past [] ys (suc k) x c e = absurd (omega (arith, e))
set_at_past (y ∷ xs) ys zero x c e = absurd (omega (arith, e))
set_at_past (y ∷ xs) ys (suc k) x c e = ap (◌∷◌ y) (set_at_past xs ys k x c (omega (arith, e)))

pub find_nul_past :
    (xs ys : List ℕ) (k i : ℕ)
    → k ≡ length xs
    → find_nul ys 0 ≡ some i
    → find_nul (xs ++ ys) k ≡ some (k + i)
unfolding find_nul
find_nul_past [] ys zero i e h = rw h (ap some (omega arith))
find_nul_past [] ys (suc k) i e h = absurd (omega (arith, e))
find_nul_past (x ∷ xs) ys zero i e h = absurd (omega (arith, e))
find_nul_past (x ∷ xs) ys (suc k) i e h =
    rw (find_nul_past xs ys k i (omega (arith, e)) h) (ap some (omega arith))

pub overlay_lem :
    (pre mid post bytes : List ℕ) (k : ℕ)
    → k ≡ length pre
    → length mid ≡ length bytes
    → overlay (pre ++ (mid ++ post)) k bytes ≡ pre ++ (bytes ++ post)
overlay_lem pre mid post bytes k e l =
    let front : take k (pre ++ (mid ++ post)) ≡ pre =
      take_past pre (mid ++ post) k 0 (omega (arith, e)) ∙ append-nil pre in
    let back : drop (k + length bytes) (pre ++ (mid ++ post)) ≡ post =
      drop_past pre (mid ++ post) (k + length bytes) (length mid) (omega (arith, e, l))
      ∙ drop_past mid post (length mid) 0 (omega arith) in
    rw (front, back) (append_assoc pre bytes post)

-- A null-terminated buffer is its text, a null character, and whatever follows.
pub c_text-split :
    (buf : List ℕ) → any is_nul buf ≡ true → (rest : List ℕ) × (buf ≡ c_text buf ++ 0 ∷ rest)
c_text-split [] h = cc
c_text-split (c ∷ cs) h = elim (Bool-cases (c == 0)) [
  | inl e ↦ (cs, rw e (ap (λ x. x ∷ cs) (ground (arith, e))))
  | inr e ↦ (let (rest, s) = c_text-split cs (ground (arith, e, h)) in (rest, rw e (ap (◌∷◌ c) s)))
]

pub find_nul-text :
    (buf rest : List ℕ)
    → any is_nul buf ≡ true
    → find_nul (buf ++ rest) 0 ≡ some (length (c_text buf))
unfolding find_nul
find_nul-text [] rest h = cc
find_nul-text (c ∷ cs) rest h = elim (Bool-cases (c == 0)) [
  | inl e ↦ rw e refl
  | inr e ↦ rw (e, find_nul-text cs rest (ground (arith, e, h))) refl
]

pub take-text : (buf rest : List ℕ) → take (length (c_text buf)) (buf ++ rest) ≡ c_text buf
take-text [] rest = refl
take-text (c ∷ cs) rest = elim (Bool-cases (c == 0)) [
  | inl e ↦ rw e refl
  | inr e ↦ rw e (ap (◌∷◌ c) (take-text cs rest))
]

pub c_text_le : (buf : List ℕ) → length (c_text buf) ≤ length buf
c_text_le [] = omega arith
c_text_le (c ∷ cs) = ground (arith, c_text_le cs)

pub zeros : (m n k : ℕ) → k ≡ m + n → replicate {A = ℕ} k 0 ≡ replicate m 0 ++ replicate n 0
zeros zero n k e = let e' : k ≡ n = omega (arith, e) in ap (λ j. replicate {A = ℕ} j 0) e'
zeros (suc m) n zero e = absurd (omega (arith, e))
zeros (suc m) n (suc k) e = ap (◌∷◌ 0) (zeros m n k (omega (arith, e)))
