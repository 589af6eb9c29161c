-- ===== src/Address/Order.antt =====
-- Addresses as keys: `<` and `==` of src/address_impl.cpp.
use sockpuppet.Base.{
  ℕ, zero, suc, ◌≡◌, refl, ap, ◌↔◌, ◌⊎◌, Bool, true, false, List, [], ◌∷◌, length, arith,
}
use sockpuppet.Address.{
  Sign, minus, same, plus, memcmp, lt_view, eq_view, Address, for_any, eq_address, lt_address,
  hash_address,
}

abbrev flip : Sign → Sign
flip minus = plus
flip same = same
flip plus = minus

memcmp-flip :
    (n : ℕ) (a b : List ℕ) → length a ≡ n → length b ≡ n → memcmp b a n ≡ flip (memcmp a b n)
unfolding memcmp
memcmp-flip zero a b p q = refl
memcmp-flip (suc n) [] b p q = absurd (omega arith)
memcmp-flip (suc n) (x ∷ a) [] p q = absurd (omega arith)
memcmp-flip (suc n) (x ∷ a) (y ∷ b) p q = ground (arith, memcmp-flip n a b)

memcmp-same : (n : ℕ) (a b : List ℕ) → length a ≡ n → length b ≡ n → memcmp a b n ≡ same → a ≡ b
unfolding memcmp
memcmp-same zero [] [] p q e = refl
memcmp-same zero (x ∷ a) b p q e = absurd (omega arith)
memcmp-same zero [] (y ∷ b) p q e = absurd (omega arith)
memcmp-same (suc n) [] b p q e = absurd (omega arith)
memcmp-same (suc n) (x ∷ a) [] p q e = absurd (omega arith)
memcmp-same (suc n) (x ∷ a) (y ∷ b) p q e = ground (arith, memcmp-same n a b)

memcmp_refl : (n : ℕ) (a : List ℕ) → memcmp a a n ≡ same
unfolding memcmp
memcmp_refl zero a = refl
memcmp_refl (suc n) [] = refl
memcmp_refl (suc n) (x ∷ a) = ground (arith, memcmp_refl n a)

memcmp_trans :
    (n : ℕ) (a b c : List ℕ)
    → length a ≡ n
    → length b ≡ n
    → length c ≡ n
    → memcmp a b n ≡ minus
    → memcmp b c n ≡ minus
    → memcmp a c n ≡ minus
unfolding memcmp
memcmp_trans zero a b c p q r e f = cc
memcmp_trans (suc n) [] b c p q r e f = absurd (omega arith)
memcmp_trans (suc n) (x ∷ a) [] c p q r e f = absurd (omega arith)
memcmp_trans (suc n) (x ∷ a) (y ∷ b) [] p q r e f = absurd (omega arith)
memcmp_trans (suc n) (x ∷ a) (y ∷ b) (z ∷ c) p q r e f = ground (arith, memcmp_trans n a b c)

eq_view_iff : (a b : List ℕ) → (eq_view a b ≡ true) ↔ (a ≡ b)
unfolding eq_view
eq_view_iff a b = (
  λ h. ground (arith, memcmp-same (length a) a b),
  λ e. rw e (ground (arith, memcmp_refl (length b) b)),
)

-- Exactly one of three tests succeeds.
abbrev pub OneOf : Bool → Bool → Bool → Type 0
OneOf p q r =
    ((p ≡ true) × (q ≡ false) × (r ≡ false))
    ⊎ ((p ≡ false) × (q ≡ true) × (r ≡ false))
    ⊎ ((p ≡ false) × (q ≡ false) × (r ≡ true))

lt_view_trichotomy : (a b : List ℕ) → OneOf (lt_view a b) (eq_view a b) (lt_view b a)
unfolding lt_view eq_view
lt_view_trichotomy a b = ground (arith, memcmp-flip (length a) a b)

lt_view_trans : (a b c : List ℕ) → lt_view a b ≡ true → lt_view b c ≡ true → lt_view a c ≡ true
unfolding lt_view
lt_view_trans a b c p q = ground (arith, memcmp_trans (length a) a b c)

-- Of any two addresses exactly one comes first, or they are equal by `==`.
pub address_trichotomy : (a b : Address) → OneOf (lt_address a b) (eq_address a b) (lt_address b a)
unfolding lt_address eq_address
address_trichotomy a b = lt_view_trichotomy (for_any a) (for_any b)

-- `<` on addresses is transitive.
pub address_trans :
    (a b c : Address) → lt_address a b ≡ true → lt_address b c ≡ true → lt_address a c ≡ true
unfolding lt_address
address_trans a b c p q = lt_view_trans (for_any a) (for_any b) (for_any c) p q

-- Addresses that are equal by `==` have the same bytes, so the same hash, whatever the hash of bytes.
pub hash_address_eq :
    (hash : List ℕ → ℕ) (a b : Address)
    → eq_address a b ≡ true
    → (for_any a ≡ for_any b) × (hash_address hash a ≡ hash_address hash b)
unfolding eq_address hash_address
hash_address_eq hash a b e =
    let same_bytes = (eq_view_iff (for_any a) (for_any b)).0 e in (same_bytes, ap hash same_bytes)
