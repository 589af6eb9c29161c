-- ===== src/Tls/Operations.antt =====
-- What the other sockets and the driver call of a session of src/socket_tls_impl.cpp: to receive and to
-- send with a timeout or at once, to be polled, and to shut down.
use sockpuppet.Base.{
  ℕ, zero, suc, Bool, true, false, not, ◌&&◌, ◌||◌, List, Option, none, some, ◌==◌, if◌then◌else◌,
  Result, Action, pure, throw, and_then, logic_error,
}
use sockpuppet.Base.Int.{ℤ, pos, negsuc}
use sockpuppet.Os.{Sys, Events}
use sockpuppet.Socket.{zero_timeout}
use sockpuppet.Tls.{
  SslError, no_error, want_read, want_write, ssl_failure, syscall, Ssl, Tls, asserted, run_call,
  handle_result, read, write, handshake_steps_max,
}

module _ (sys : Sys) (ssl : Ssl) (debug : Bool) (fd : ℕ) where
  open sys use {World}

  abbrev St : Type 0
  St = Tls ssl.Session World

  -- `Receive` with a timeout.
  unfoldable pub tls_receive : ℕ → ℤ → Action St (Option (ℕ × List ℕ))
  unfolding read
  tls_receive size timeout s =
      and_then (read sys ssl debug fd size (record s { remaining_time = timeout })) λ r.
        if r.0 == 0
        then (λ s1. and_then (asserted debug (not (is_negative timeout)) s1) (λ _. pure none))
        else pure (some r)
    where
      is_negative : ℤ → Bool
      is_negative (negsuc n) = true
      is_negative (pos n) = false

  abbrev pub clear_want : SslError → SslError → SslError
  clear_want want_read want_read = no_error
  clear_want want_write want_write = no_error
  clear_want want e = e

  -- `Receive` on a readable socket.
  unfoldable pub tls_receive_now : ℕ → Action St (ℕ × List ℕ)
  unfolding read
  tls_receive_now size s =
      and_then
        (read sys ssl debug fd size (record s {
          remaining_time = zero_timeout;
          is_readable = true;
          last_error = clear_want want_read s.last_error;
        }))
        λ r s1.
          if (r.0 == 0) && ssl.is_init_finished s1.session
          then pure r (record s1 { last_error = no_error })
          else pure r s1

  unfoldable pub tls_send : List ℕ → ℤ → Action St ℕ
  unfolding write
  tls_send bytes timeout s = write sys ssl debug fd bytes (record s { remaining_time = timeout })

  abbrev pub deemed_writable : St → St
  deemed_writable s = record s {
    remaining_time = zero_timeout;
    is_writable = true;
    last_error = clear_want want_write s.last_error;
  }

  unfoldable pub tls_send_some : List ℕ → Action St ℕ
  unfolding write
  tls_send_some bytes s = write sys ssl debug fd bytes (deemed_writable s)

  abbrev pub query_unfinished : SslError → Events → St → Events × St
  query_unfinished want_write events s = (record events { pollout = true }, s)
  query_unfinished want_read events s = (
    record events { pollout = false },
    record s { driver_send_suppressed = s.driver_send_suppressed || events.pollout },
  )
  query_unfinished _ events s = (events, s)

  -- `DriverQuery`
  unfoldable pub tls_query : Events → St → Events × St
  tls_query events s =
      if not (ssl.is_init_finished s.session)
      then query_unfinished s.last_error events s
      else if s.driver_send_suppressed
      then (record events { pollout = true }, record s { driver_send_suppressed = false })
      else (events, s)

  -- `DriverPending`
  unfoldable pub tls_pending : Action St (Unit {0})
  unfolding read
  tls_pending s =
      if ssl.is_init_finished s.session
      then pure tt s
      else and_then (read sys ssl debug fd 64 (deemed_writable s))
          (λ r. if r.0 == 0 then pure tt else throw (logic_error "unexpected receive"))

  unfoldable pub shutdown_loop : ℕ → Action St (Unit {0})
  unfolding run_call handle_result
  shutdown_loop zero s = pure tt s
  shutdown_loop (suc steps) s =
      and_then (run_call sys ssl debug fd (ssl.read 1024 s.session) s) λ r s1. elim r.0 [
        | pos zero ↦ pure tt s1
        | pos (suc n) ↦ shutdown_loop steps s1
        | negsuc n ↦
            and_then (handle_result sys ssl debug fd (negsuc n) s1)
              λ handled s2. elim handled [ true ↦ shutdown_loop steps s2 | false ↦ pure tt s2 ]
      ]

  abbrev pub second_shutdown : ℤ → Action St (Unit {0})
  second_shutdown (pos (suc n)) s = pure tt s
  second_shutdown res s =
      and_then (shutdown_loop handshake_steps_max s)
        λ _ s1. and_then (run_call sys ssl debug fd (ssl.shutdown s1.session) s1) (λ _. pure tt)

  -- `Shutdown`, which has a second of time.
  unfoldable pub tls_shutdown : Action St (Unit {0})
  unfolding run_call shutdown_loop
  tls_shutdown s =
      and_then
        (run_call sys ssl debug fd (ssl.shutdown s.session)
          (record s { is_readable = false; is_writable = false; remaining_time = pos 1000 }))
        second_shutdown

  abbrev ignored : {A : Type 0} → Result A × St → St
  ignored r = r.1

  -- What the destructor does before it frees the session.
  unfoldable pub tls_destroy : SslError → St → St
  unfolding tls_shutdown
  tls_destroy syscall s = s
  tls_destroy ssl_failure s = s
  tls_destroy _ s = ignored (tls_shutdown s)
