-- ===== src/Tls/Steps.antt =====
-- One call on the session of src/socket_tls_impl.cpp, and the handling of the error that it leaves.
use sockpuppet.Base.{ℕ, Bool, true, false, List, ok, Ensures, Ensures-and_then}
use sockpuppet.Base.Int.{ℤ}
use sockpuppet.Os.{Sys, StreamLaws}
use sockpuppet.Wait.{wait_readable, wait_writable}
use sockpuppet.Tls.{
  SslError, no_error, want_read, want_write, ssl_failure, syscall, zero_return, other, Call, done,
  ask_read, ask_write, Ssl, Tls, run_call, handle_error, handle_last_error, handle_result, asserted,
}
use sockpuppet.Tls.Settled.{wait_readable-Ends, wait_writable-Ends}
use sockpuppet.Tls.Tunnel.{
  Held, Holds, Holds-and_then, if-Holds, under_deadline-Holds, bio_read-Holds, bio_write-Holds,
  abandon-Holds,
}

-- What a call returns, whatever its call backs return.
abbrev pub Returns : {Session R : Type 0} → (R → Type 0) → Call Session R → Type 0
Returns P (done r session) = P r
Returns P (ask_read abandoned size k) = (n : ℕ) (bytes : List ℕ) → Returns P (k n bytes)
Returns P (ask_write abandoned bytes k) = (n : ℕ) → Returns P (k n)

module _ (sys : Sys) (laws : StreamLaws sys) (ssl : Ssl) (debug : Bool) (fd : ℕ) (p : List ℕ)
    (t : ℤ) where
  abbrev S : Type 0
  S = Tls ssl.Session sys.World

  abbrev H : S → Type 0
  H = Held sys laws ssl debug fd p t

  pub run_call-Holds :
      {R : Type 0} (P : R → Type 0) (c : Call ssl.Session R) (s : S)
      → Returns P c
      → H s
      → Ensures (λ r s1. P r × H s1) H (run_call sys ssl debug fd c s)
  unfolding run_call
  run_call-Holds P (done r session) s q h = (q, h)
  run_call-Holds P (ask_read abandoned size k) s q h =
      Ensures-and_then (λ _ s1. H s1) H (λ r s1. P r × H s1) H _ _
        (abandon-Holds sys laws ssl debug fd p t abandoned _
          (bio_read-Holds sys laws ssl debug fd p t size s h))
        (λ r s1 h1. run_call-Holds P (k r.0 r.1) s1 (q r.0 r.1) h1) (λ s1 h1. h1)
  run_call-Holds P (ask_write abandoned bytes k) s q h =
      Ensures-and_then (λ _ s1. H s1) H (λ r s1. P r × H s1) H _ _
        (abandon-Holds sys laws ssl debug fd p t abandoned _
          (bio_write-Holds sys laws ssl debug fd p t bytes s h))
        (λ n s1 h1. run_call-Holds P (k n) s1 (q n) h1) (λ s1 h1. h1)

  pub asserted-Holds : (b : Bool) (s : S) → H s → Ensures (λ _ s1. H s1) H (asserted debug b s)
  asserted-Holds b s h = inner debug b
    where
      inner : (d c : Bool) → Ensures (λ _ s1. H s1) H (asserted d c s)
      inner true true = h
      inner false c = h
      inner true false = (λ e. cc, h)

  handle_error-Holds :
      (e : SslError) (s : S)
      → H s
      → Holds sys laws ssl debug fd p t (handle_error sys ssl debug fd e s)
  unfolding handle_error
  handle_error-Holds no_error s h = h
  handle_error-Holds want_read s h =
      under_deadline-Holds sys laws ssl debug fd p t (wait_readable sys fd) s
        (λ r w. wait_readable-Ends sys laws fd r w) h
  handle_error-Holds want_write s h =
      under_deadline-Holds sys laws ssl debug fd p t (wait_writable sys fd) s
        (λ r w. wait_writable-Ends sys laws fd r w) h
  handle_error-Holds ssl_failure s h = (λ e. cc, h)
  handle_error-Holds syscall s h = (λ e. cc, h)
  handle_error-Holds zero_return s h = (λ e. cc, h)
  handle_error-Holds other s h =
      Holds-and_then sys laws ssl debug fd p t (asserted debug false s) _ (asserted-Holds false s h)
        (λ _ s1 h1. h1)

  pub handle_last_error-Holds :
      (s : S) → H s → Holds sys laws ssl debug fd p t (handle_last_error sys ssl debug fd s)
  unfolding handle_last_error
  handle_last_error-Holds s h =
      Holds-and_then sys laws ssl debug fd p t (handle_error sys ssl debug fd s.last_error s) _
        (handle_error-Holds s.last_error s h)
        (λ handled s1 h1.
          if-Holds sys laws ssl debug fd p t handled (ok true, record s1 { last_error = no_error })
            (ok false, s1) h1 h1)

  pub handle_result-Holds :
      (res : ℤ) (s : S)
      → H s
      → Holds sys laws ssl debug fd p t (handle_result sys ssl debug fd res s)
  unfolding handle_result
  handle_result-Holds res s h =
      handle_last_error-Holds (record s { last_error = ssl.get_error s.session res }) h
