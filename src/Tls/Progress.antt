-- ===== src/Tls/Progress.antt =====
-- How far `Write` of src/socket_tls_impl.cpp has come.
use sockpuppet.Base.{
  ℕ, zero, suc, ◌+◌, ◌≤◌, ◌≡◌, refl, sym, ap, ◌∙◌, ◌⊎◌, List, [], ◌∷◌, length, drop, length-drop,
  arith,
}
use sockpuppet.Base.Int.{ℤ}
use sockpuppet.Tls.{Tls}
use sockpuppet.Tls.Tunnel.{SameKind}

drop-nil : (n : ℕ) → drop {A = ℕ} n [] ≡ []
drop-nil zero = refl
drop-nil (suc n) = refl

drop-drop : (a b : ℕ) (xs : List ℕ) → drop b (drop a xs) ≡ drop (a + b) xs
drop-drop zero b xs = ap (λ n. drop n xs) (omega arith)
drop-drop (suc a) b [] = drop-nil b ∙ sym (drop-nil (suc a + b))
drop-drop (suc a) b (x ∷ xs) = drop-drop a b xs ∙ ap (λ n. drop n (x ∷ xs)) swap
  where
    swap : suc (a + b) ≡ suc a + b
    swap = omega arith

-- Nothing is kept of a failed send, or what is kept is exactly what is still to be sent.
abbrev pub Resumable : List ℕ → List ℕ → Type 0
Resumable left pending = (pending ≡ []) ⊎ (pending ≡ left)

-- Of `left`, of which `n` bytes at most `most` have gone, `rest` is left and can be taken up again.
pub record Progress {S W : Type 0} (t : ℤ) (most : ℕ) (left rest : List ℕ) (s : Tls S W)
    : Type 0 where
  pub gone : ℕ
  pub within : gone ≤ length left
  pub few : gone ≤ most
  pub rest_lem : rest ≡ drop gone left
  pub resumable : Resumable rest s.pending_send
  pub kind : SameKind t s.remaining_time

pub more-Progress :
    {S W : Type 0} (t : ℤ) (a b : ℕ) (left mid rest : List ℕ) (s1 s2 : Tls S W)
    → Progress t a left mid s1
    → Progress t b mid rest s2
    → Progress t (a + b) left rest s2
more-Progress t a b left mid rest s1 s2 u v = record {
  gone = u.gone + v.gone;
  within = omega (arith, u.within, v.within, ap length u.rest_lem, length-drop u.gone left);
  few = omega (arith, u.few, v.few);
  rest_lem = v.rest_lem ∙ (ap (drop v.gone) u.rest_lem ∙ drop-drop u.gone v.gone left);
  resumable = v.resumable;
  kind = v.kind;
}

pub unsent :
    {S W : Type 0} (t : ℤ) (n : ℕ) (left : List ℕ) (s : Tls S W)
    → Resumable left s.pending_send
    → SameKind t s.remaining_time
    → Progress t n left left s
unsent t n left s r k = record {
  gone = 0;
  within = omega arith;
  few = omega arith;
  rest_lem = refl;
  resumable = r;
  kind = k;
}
