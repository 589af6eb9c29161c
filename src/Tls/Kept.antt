-- ===== src/Tls/Kept.antt =====
-- What waiting and the handling of errors in src/socket_tls_impl.cpp leave alone: the session.
use sockpuppet.Base.{
  ℕ, zero, suc, ◌≡◌, refl, Bool, true, false, Result, ok, err, Action, and_then, Ensures, arith,
}
use sockpuppet.Base.Int.{ℤ, pos, negsuc}
use sockpuppet.Os.{Sys}
use sockpuppet.Wait.{limited_from_now, tick, wait_readable, wait_writable}
use sockpuppet.Tls.{
  SslError, no_error, want_read, want_write, ssl_failure, syscall, zero_return, other, Ssl, Tls,
  on_world, timed, handle_error, handle_last_error, handle_result, asserted,
}
use sockpuppet.Tls.Tunnel.{SameKind}

pub and_then-at :
    {S A B : Type 0} (P : S → Type 0) (m : Result A × S) (f : A → Action S B)
    → P m.1
    → ((a : A) (s : S) → P s → P (f a s).1)
    → P (and_then m f).1
and_then-at P (ok a, s) f p k = k a s p
and_then-at P (err e, s) f p k = p

pub Ensures-at :
    {S A : Type 0} (P : A → S → Type 0) (Q R : S → Type 0) (m : Result A × S)
    → Ensures P Q m
    → R m.1
    → Ensures (λ a s. P a s × R s) (λ s. Q s × R s) m
Ensures-at P Q R (ok a, s) e r = (e, r)
Ensures-at P Q R (err x, s) e r = (e.0, (e.1, r))

pub SameKind-refl : (t : ℤ) → SameKind t t
SameKind-refl (negsuc n) = refl
SameKind-refl (pos zero) = refl
SameKind-refl (pos (suc n)) = omega arith

module _ (sys : Sys) (ssl : Ssl) (debug : Bool) (fd : ℕ) where
  abbrev pub S : Type 0
  S = Tls ssl.Session sys.World

  abbrev pub At : ssl.Session → S → Type 0
  At x s = s.session ≡ x

  timed-At :
      {A : Type 0} (x : ssl.Session) (t : ℤ) (f : Action S A) (s : S)
      → ((s1 : S) → At x s1 → At x (f s1).1)
      → At x s
      → At x (timed sys ssl debug fd t f s).1
  timed-At x (negsuc n) f s k h = k s h
  timed-At x (pos zero) f s k h = k s h
  timed-At x (pos (suc n)) f s k h =
      and_then-at (At x) (on_world sys ssl debug fd (limited_from_now sys (pos (suc n))) s) _ h
        λ d s1 h1. and_then-at (At x) (f s1) _ (k s1 h1) λ res s2 h2.
          and_then-at (At x) (on_world sys ssl debug fd (tick sys d) s2) _ h2 (λ d2 s3 h3. h3)

  pub asserted-At : (x : ssl.Session) (d b : Bool) (s : S) → At x s → At x (asserted d b s).1
  asserted-At x true true s h = h
  asserted-At x true false s h = h
  asserted-At x false b s h = h

  handle_error-At :
      (x : ssl.Session) (e : SslError) (s : S) → At x s → At x (handle_error sys ssl debug fd e s).1
  unfolding handle_error
  handle_error-At x no_error s h = h
  handle_error-At x want_read s h =
      timed-At x s.remaining_time
        (λ s1. on_world sys ssl debug fd (wait_readable sys fd s1.remaining_time) s1) s
        (λ s1 h1. h1) h
  handle_error-At x want_write s h =
      timed-At x s.remaining_time
        (λ s1. on_world sys ssl debug fd (wait_writable sys fd s1.remaining_time) s1) s
        (λ s1 h1. h1) h
  handle_error-At x ssl_failure s h = h
  handle_error-At x syscall s h = h
  handle_error-At x zero_return s h = h
  handle_error-At x other s h =
      and_then-at (At x) (asserted debug false s) _ (asserted-At x debug false s h) (λ _ s1 h1. h1)

  pub handle_last_error-At :
      (x : ssl.Session) (s : S) → At x s → At x (handle_last_error sys ssl debug fd s).1
  unfolding handle_last_error
  handle_last_error-At x s h =
      and_then-at (At x) (handle_error sys ssl debug fd s.last_error s) _
        (handle_error-At x s.last_error s h) (elim [ true ↦ λ s1 h1. h1 | false ↦ λ s1 h1. h1 ])

  pub handle_result-At :
      (x : ssl.Session) (r : ℤ) (s : S) → At x s → At x (handle_result sys ssl debug fd r s).1
  unfolding handle_result
  handle_result-At x r s h =
      handle_last_error-At x (record s { last_error = ssl.get_error s.session r }) h
