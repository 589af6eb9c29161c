-- ===== src/Tls.antt =====
-- `SocketTlsImpl` of src/socket_tls_impl.{h,cpp}: a session of the TLS library, whose reading and
-- writing of records is tunnelled through the socket under the time that remains.
pub mod Operations
pub mod Settled
pub mod Tunnel
pub mod Handshake
pub mod Steps
pub mod Kept
pub mod Taken
pub mod Stream
pub mod Contract
pub mod Progress
pub mod Writing
pub mod Construct
pub mod Public
use sockpuppet.Base.{
  ℕ, zero, suc, ◌-◌, Bool, true, false, not, ◌&&◌, ◌||◌, List, [], ◌∷◌, length, drop, is_empty,
  Option, none, some, leb, ◌==◌, if◌then◌else◌, Result, ok, err, Action, pure, throw, and_then,
  ◌>>=◌, ◌>>◌, system_error, runtime_error, logic_error, assertion_failed,
}
use sockpuppet.Base.Int.{ℤ, pos, negsuc}
use sockpuppet.Os.{Sys, Events}
use sockpuppet.Wait.{Deadline, remaining, tick, wait_readable, wait_writable, limited_from_now}
use sockpuppet.Socket.{receive, receive_now, send_all, send_try, send_some, send_now, zero_timeout}

-- SSL_ERROR_*
pub data SslError : Type 0 where
  no_error want_read want_write ssl_failure syscall zero_return other : SslError

-- A call of the TLS library: it calls back for bytes to read and to write, and ends with a result and
-- the next session. `abandoned` is the session that an exception from a call back leaves behind.
pub data Call (Session R : Type 0) : Type 0 where
  done : R → Session → Call Session R
  ask_read : (abandoned : Session) → ℕ → (ℕ → List ℕ → Call Session R) → Call Session R
  ask_write : (abandoned : Session) → List ℕ → (ℕ → Call Session R) → Call Session R

-- The TLS library, a parameter: SSL_read, SSL_write_ex, SSL_shutdown and what the code asks of a session.
pub record Ssl : Type 1 where
  pub Session : Type 0
  pub read : ℕ → Session → Call Session (ℤ × List ℕ)
  pub write_ex : List ℕ → Session → Call Session (ℤ × ℕ)
  pub shutdown : Session → Call Session ℤ
  pub get_error : Session → ℤ → SslError
  pub is_init_finished : Session → Bool

pub record Tls (Session W : Type 0) : Type 0 where
  pub session : Session
  pub last_error : SslError
  -- A view of the buffer of a failed send; empty if there is none.
  pub pending_send : List ℕ
  pub remaining_time : ℤ
  pub is_readable : Bool
  pub is_writable : Bool
  pub driver_send_suppressed : Bool
  pub world : W

abbrev pub handshake_steps_max : ℕ
handshake_steps_max = 10

abbrev pub equal_bytes : List ℕ → List ℕ → Bool
equal_bytes [] [] = true
equal_bytes (x ∷ xs) (y ∷ ys) = (x == y) && equal_bytes xs ys
equal_bytes _ _ = false

-- Assertions are checked only in debug builds.
abbrev pub asserted : {S : Type 0} → Bool → Bool → Action S (Unit {0})
asserted true false = throw assertion_failed
asserted _ _ = pure tt

module _ (sys : Sys) (ssl : Ssl) (debug : Bool) (fd : ℕ) where
  open sys use {World, errno}

  abbrev pub St : Type 0
  St = Tls ssl.Session World

  abbrev pub on_world : {A : Type 0} → Action World A → Action St A
  on_world m s = let (r, w) = m s.world in (r, record s { world = w })

  abbrev pub end_deadline : {A : Type 0} → A → Deadline → Action St A
  end_deadline res deadline s = pure res (record s { remaining_time = remaining deadline })

  -- `UnderDeadline`, for the timeout that is left when it is called.
  abbrev pub timed : {A : Type 0} → ℤ → Action St A → Action St A
  timed (negsuc n) fn s = fn s
  timed (pos zero) fn s = fn s
  timed (pos (suc n)) fn s =
      and_then (on_world (limited_from_now sys (pos (suc n))) s) λ deadline s1.
        and_then (fn s1)
          λ res s2. and_then (on_world (tick sys deadline) s2) λ ticked. end_deadline res ticked

  abbrev pub under_deadline : {A : Type 0} → Action St A → Action St A
  under_deadline fn s = timed s.remaining_time fn s

  abbrev pub received_or_none : Option (ℕ × List ℕ) → ℕ × List ℕ
  received_or_none none = (0, [])
  received_or_none (some r) = r

  -- `BioRead`: the number of bytes received, and the bytes.
  unfoldable pub bio_read : ℕ → Action St (ℕ × List ℕ)
  bio_read size s =
      if s.is_readable
      then on_world (receive_now sys fd size) (record s { is_readable = false })
      else and_then (under_deadline (λ s1. on_world (receive sys fd size s1.remaining_time) s1) s)
          (λ received. pure (received_or_none received))

  abbrev pub send_timed : List ℕ → ℤ → Action St ℕ
  send_timed bytes (negsuc n) s = on_world (send_all sys fd bytes) s
  send_timed bytes (pos zero) s = on_world (send_try sys fd bytes) s
  send_timed bytes (pos (suc n)) s =
      and_then (on_world (limited_from_now sys (pos (suc n))) s) λ deadline s1.
        and_then (on_world (send_some sys fd bytes deadline) s1) λ r s2. pure r.0 (record s2 {
          remaining_time = if r.0 == length bytes then remaining r.1 else zero_timeout;
        })

  unfoldable pub bio_write : List ℕ → Action St ℕ
  bio_write bytes s =
      if s.is_writable
      then on_world (send_now sys fd bytes) (record s { is_writable = false })
      else send_timed bytes s.remaining_time s

  abbrev pub abandon : {A : Type 0} → ssl.Session → Result A × St → Result A × St
  abandon session (ok a, s) = (ok a, s)
  abandon session (err e, s) = (err e, record s { session = session })

  -- A call of the library with the call backs of this socket.
  unfoldable pub run_call : {R : Type 0} → Call ssl.Session R → Action St R
  unfolding bio_read bio_write
  run_call (done r session) s = pure r (record s { session = session })
  run_call (ask_read abandoned size k) s =
      and_then (abandon abandoned (bio_read size s)) (λ r. run_call (k r.0 r.1))
  run_call (ask_write abandoned bytes k) s =
      and_then (abandon abandoned (bio_write bytes s)) (λ n. run_call (k n))

  abbrev pub tls_message : sockpuppet.Base.String
  tls_message = "failed to TLS receive/send/handshake"

  unfoldable pub handle_error : SslError → Action St Bool
  unfolding wait_readable wait_writable
  handle_error no_error s = pure true s
  handle_error want_read s =
      under_deadline (λ s1. on_world (wait_readable sys fd s1.remaining_time) s1) s
  handle_error want_write s =
      under_deadline (λ s1. on_world (wait_writable sys fd s1.remaining_time) s1) s
  handle_error ssl_failure s = throw (system_error 1 tls_message) s
  handle_error syscall s = throw (system_error (errno s.world) tls_message) s
  handle_error zero_return s = throw (runtime_error tls_message) s
  handle_error other s = and_then (asserted debug false s) (λ _. pure true)

  unfoldable pub handle_last_error : Action St Bool
  unfolding handle_error
  handle_last_error s = and_then (handle_error s.last_error s) λ handled s1.
      if handled then pure true (record s1 { last_error = no_error }) else pure false s1

  unfoldable pub handle_result : ℤ → Action St Bool
  unfolding handle_last_error
  handle_result res s = handle_last_error (record s { last_error = ssl.get_error s.session res })

  -- The loops of `Read` and `Write` with the number of steps that are left.
  unfoldable pub read_loop : ℕ → ℕ → Action St (ℕ × List ℕ)
  unfolding run_call handle_result
  read_loop zero size s = pure (0, []) s
  read_loop (suc steps) size s = and_then (run_call (ssl.read size s.session) s) λ r s1. elim r.0 [
    | pos (suc n) ↦ pure (suc n, r.1) s1
    | _ ↦ and_then (handle_result r.0 s1) λ handled s2. elim handled [
      | true ↦ and_then (asserted debug (not (steps == 0)) s2) (λ _. read_loop steps size)
      | false ↦ pure (0, []) s2
    ]
  ]

  unfoldable pub read : ℕ → Action St (ℕ × List ℕ)
  unfolding handle_last_error read_loop
  read size s =
      and_then (handle_last_error s)
        λ handled. if handled then read_loop handshake_steps_max size else pure (0, [])

  -- What follows a failed and a successful SSL_write_ex: the rest to go on with, or the end.
  abbrev pub wrote : ℤ → ℕ → List ℕ → Action St (Bool × List ℕ)
  wrote (pos (suc n)) written left s =
      and_then (asserted debug (leb written (length left)) (record s { pending_send = [] }))
        λ _. pure (true, drop written left)
  wrote res written left s =
      and_then (handle_result res (record s { pending_send = left }))
        (λ handled. pure (handled, left))

  unfoldable pub write_step : List ℕ → Action St (Bool × List ℕ)
  unfolding run_call handle_result
  write_step left s =
      and_then (asserted debug (is_empty s.pending_send || equal_bytes s.pending_send left) s)
        λ _ s1. and_then (run_call (ssl.write_ex left s1.session) s1) (λ r. wrote r.0 r.1 left)

  -- It returns what is left to send.
  unfoldable pub write_loop : ℕ → List ℕ → Action St (List ℕ)
  unfolding write_step
  write_loop zero left s = pure left s
  write_loop (suc steps) left s = elim (is_empty left) [
    | true ↦ pure left s
    | false ↦ and_then (write_step left s) λ r s1. elim r.0 [
      | true ↦ and_then (asserted debug (not (steps == 0)) s1) (λ _. write_loop steps r.1)
      | false ↦ pure r.1 s1
    ]
  ]

  unfoldable pub write : List ℕ → Action St ℕ
  unfolding handle_last_error write_loop
  write bytes s = and_then (handle_last_error s) λ handled s1.
      and_then (if handled then write_loop handshake_steps_max bytes s1 else pure bytes s1)
        λ left. pure (length bytes - length left)
