-- ===== src/Socket.antt =====
-- src/socket_impl.cpp: sending and receiving on one socket, with the operating system as a parameter.
-- `data` and `size` of the source are one list of bytes here; the suffixes of error messages that
-- print an address are left out.
pub mod Sent
pub mod Stream
pub mod Narrowed
use sockpuppet.Base.{
  ℕ, zero, suc, ◌+◌, ◌-◌, Bool, true, false, not, ◌&&◌, List, [], ◌∷◌, Option, none, some, length,
  drop, ltb, is_empty, ◌==◌, if◌then◌else◌, Result, ok, err, Action, pure, throw, and_then, ◌>>=◌,
  ◌>>◌, system_error, runtime_error, logic_error, out_of_fuel, arith,
}
use sockpuppet.Base.Int.{ℤ, pos, negsuc, ltb_ℤ}
use sockpuppet.Os.{Sys}
use sockpuppet.Wait.{
  Deadline, time_left, remaining, tick, wait_readable, wait_writable, limited_from_now,
}

abbrev pub no_timeout : ℤ
no_timeout = negsuc 0

abbrev pub zero_timeout : ℤ
zero_timeout = pos 0

module _ (sys : Sys) where
  open sys use {World, errno}

  abbrev pub Io : Type 0 → Type 0
  Io A = Action World A

  -- The number of bytes received, and the bytes.
  abbrev pub recv_result : ℤ → List ℕ → Io (ℕ × List ℕ)
  recv_result (negsuc n) bytes w = throw (system_error (errno w) "failed to receive") w
  recv_result (pos zero) bytes w = throw (runtime_error "connection closed") w
  recv_result (pos (suc n)) bytes w = pure (suc n, bytes) w

  unfoldable pub receive_now : ℕ → ℕ → Io (ℕ × List ℕ)
  receive_now fd size w =
      let (received, bytes, w') = sys.recv fd size w in recv_result received bytes w'

  unfoldable pub receive : ℕ → ℕ → ℤ → Io (Option (ℕ × List ℕ))
  unfolding receive_now wait_readable
  receive fd size timeout = do
    readable ← wait_readable sys fd timeout
    if readable then (do r ← receive_now fd size; pure (some r)) else pure none

  abbrev recvfrom_result : ℤ → List ℕ → List ℕ → Io (ℕ × List ℕ × List ℕ)
  recvfrom_result (negsuc n) bytes addr w = throw (system_error (errno w) "failed to receive") w
  recvfrom_result (pos n) bytes addr w = pure (n, bytes, addr) w

  unfoldable pub receive_from_now : ℕ → ℕ → Io (ℕ × List ℕ × List ℕ)
  receive_from_now fd size w =
      let (received, bytes, addr, w') = sys.recvfrom fd size w in
      recvfrom_result received bytes addr w'

  unfoldable pub receive_from : ℕ → ℕ → ℤ → Io (Option (ℕ × List ℕ × List ℕ))
  unfolding receive_from_now wait_readable
  receive_from fd size timeout = do
    readable ← wait_readable sys fd timeout
    if readable then (do r ← receive_from_now fd size; pure (some r)) else pure none

  abbrev send_result : ℤ → ℕ → Io ℕ
  send_result (negsuc n) size w = throw (system_error (errno w) "failed to send") w
  send_result (pos sent) size w =
      if (sent == 0) && ltb 0 size
      then throw (logic_error "unexpected send result") w
      else pure sent w

  unfoldable pub send_now : ℕ → List ℕ → Io ℕ
  send_now fd bytes w = let (sent, w') = sys.send fd bytes w in send_result sent (length bytes) w'

  -- The `do … while` of `SendAll`: it returns what is left.
  unfoldable pub send_all_loop : ℕ → ℕ → List ℕ → Io (List ℕ)
  unfolding send_now wait_writable
  send_all_loop zero fd left = throw out_of_fuel
  send_all_loop (suc fuel) fd left = do
    wait_writable sys fd no_timeout
    sent ← send_now fd left
    let rest = drop sent left
    elim (is_empty rest) [ true ↦ pure rest | false ↦ send_all_loop fuel fd rest ]

  -- Each round but one for an empty buffer sends a byte or throws: one more round than bytes suffices.
  unfoldable pub send_all : ℕ → List ℕ → Io ℕ
  unfolding send_all_loop
  send_all fd bytes = do
    left ← send_all_loop (suc (length bytes)) fd bytes
    pure (length bytes - length left)

  unfoldable pub send_try : ℕ → List ℕ → Io ℕ
  unfolding send_now wait_writable
  send_try fd bytes = do
    writable ← wait_writable sys fd zero_timeout
    if writable then send_now fd bytes else pure 0

  -- The `do … while` of `SendSome`: it returns what is left and the deadline, which the caller sees.
  unfoldable pub send_some_loop : ℕ → ℕ → List ℕ → Deadline → Io (List ℕ × Deadline)
  unfolding send_now wait_writable tick time_left remaining
  send_some_loop zero fd left deadline = throw out_of_fuel
  send_some_loop (suc fuel) fd left deadline = do
    writable ← wait_writable sys fd (remaining deadline)
    elim writable [
      | false ↦ pure (left, deadline)
      | true ↦ do
        ticked ← tick sys deadline
        sent ← send_now fd left
        let rest = drop sent left
        elim (not (is_empty rest) && time_left ticked) [
          | true ↦ send_some_loop fuel fd rest ticked
          | false ↦ pure (rest, ticked)
        ]
    ]

  unfoldable pub send_some : ℕ → List ℕ → Deadline → Io (ℕ × Deadline)
  unfolding send_some_loop
  send_some fd bytes deadline = do
    (left, after) ← send_some_loop (suc (length bytes)) fd bytes deadline
    pure (length bytes - length left, after)

  -- `SocketImpl::Send`
  unfoldable pub send : ℕ → List ℕ → ℤ → Io ℕ
  unfolding send_all send_try send_some limited_from_now
  send fd bytes (negsuc n) = send_all fd bytes
  send fd bytes (pos zero) = send_try fd bytes
  send fd bytes (pos (suc n)) = do
    deadline ← limited_from_now sys (pos (suc n))
    r ← send_some fd bytes deadline
    pure r.0

  abbrev pub sendto_result : ℤ → ℕ → Io ℕ
  sendto_result (negsuc n) size w = throw (system_error (errno w) "failed to send to") w
  sendto_result (pos sent) size w =
      if sent == size then pure sent w else throw (logic_error "unexpected UDP send result") w

  unfoldable pub send_to_now : ℕ → List ℕ → List ℕ → Io ℕ
  send_to_now fd bytes addr w =
      let (sent, w') = sys.sendto fd bytes addr w in sendto_result sent (length bytes) w'

  unfoldable pub send_to : ℕ → List ℕ → List ℕ → ℤ → Io ℕ
  unfolding send_to_now wait_writable
  send_to fd bytes addr timeout = do
    writable ← wait_writable sys fd timeout
    if writable then send_to_now fd bytes addr else pure 0
