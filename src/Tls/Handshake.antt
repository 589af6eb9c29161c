-- ===== src/Tls/Handshake.antt =====
-- What the calls of src/socket_tls_impl.cpp that wait, read and write below a session leave alone, and
-- the driver's polling during the handshake.
use sockpuppet.Base.{ℕ, ◌≡◌, inl, inr, Bool, true, false, not, ◌&&◌, ◌||◌, arith, Bool-cases}
use sockpuppet.Os.{Sys, Events}
use sockpuppet.Tls.{SslError, want_read, want_write, Ssl, Tls}
use sockpuppet.Tls.Operations.{tls_query}

abbrev pub wants_write : SslError → Bool
wants_write want_write = true
wants_write _ = false

abbrev pub wants_read : SslError → Bool
wants_read want_read = true
wants_read _ = false

module _ (sys : Sys) (ssl : Ssl) (debug : Bool) (fd : ℕ) where
  -- `DriverQuery` never loses a request to poll for writing: afterwards it is polled for or kept in
  -- mind exactly if it was before or the handshake waits to write. It is only kept in mind while the
  -- handshake waits to read, and not after the handshake has finished; polling for reading stays.
  pub tls_query-kept :
      (e : Events) (s : Tls ssl.Session sys.World)
      → let finished = ssl.is_init_finished s.session in
        let r = tls_query sys ssl debug fd e s in
        ((r.0.pollout || r.1.driver_send_suppressed)
          ≡ ((e.pollout || s.driver_send_suppressed) || (not finished && wants_write s.last_error)))
        × (r.0.pollin ≡ e.pollin)
        × ((not finished && wants_read s.last_error && r.0.pollout) ≡ false)
        × ((finished && r.1.driver_send_suppressed) ≡ false)
  unfolding tls_query
  tls_query-kept e s = elim (Bool-cases (ssl.is_init_finished s.session)) [
    | inl i ↦ rw i (ground arith)
    | inr i ↦ rw i (ground arith)
  ]
