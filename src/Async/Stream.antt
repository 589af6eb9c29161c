-- ===== src/Async/Stream.antt =====
-- What the TCP send queue of src/socket_async_impl.cpp does when the driver finds its socket writable.
use sockpuppet.Base.{
  ℕ, zero, suc, ◌+◌, ◌≤◌, ◌<◌, ◌≡◌, refl, sym, subst, ap, ap₂, ◌∙◌, ◌==◌, Bool, true, false, List,
  [], ◌∷◌, ◌++◌, append_assoc, append-nil, length, take, drop, take_all, take-append-drop, is_empty,
  if◌then◌else◌, Result, ok, err, Error, is_runtime_error, Action, pure, throw, and_then, Ensures,
  arith, Bool-cases, inl, inr, out_of_fuel, ◌≢◌, Ensures-mono,
}
use sockpuppet.Base.Transfer.{MovesSome, Moves-still}
use sockpuppet.Os.{Sys, StreamLaws}
use sockpuppet.Socket.{send_now, send_to_now}
use sockpuppet.Socket.Sent.{send_now-SendsFront}
use sockpuppet.Pool.{assign}
use sockpuppet.Async.{
  Async, Sock, SendQElement, value, exception, send, sent_some, send_front, driver_send,
}

-- What the queue relies on: `SendSome` puts on the wire as many bytes from the front of its buffer as
-- it returns, and a front of it if it throws.
pub record SockLaws {W : Type 0} (sock : Sock W) : Type 0 where
  pub wire : W → List ℕ
  pub send_some_wire :
      (d : List ℕ) (w : W)
      → Ensures
          (λ n w'. (n ≤ length d) × (wire w' ≡ wire w ++ take n d))
          (λ w'. MovesSome (wire w) d (wire w'))
          (sock.send_some d w)
  pub pending_wire : (w : W) → wire (sock.driver_pending w).1 ≡ wire w

-- The socket without TLS.
abbrev pub plain_sock : (sys : Sys) → ℕ → Sock sys.World
plain_sock sys fd = record {
  send_some = send_now sys fd;
  send_to = send_to_now sys fd;
  driver_pending = throw sockpuppet.Base.assertion_failed;
}

pub plain_SockLaws : (sys : Sys) (laws : StreamLaws sys) (fd : ℕ) → SockLaws (plain_sock sys fd)
plain_SockLaws sys laws fd = record {
  wire = λ w. laws.wire w fd;
  send_some_wire = λ d w.
      Ensures-mono _ _ _ _ (send_now sys fd d w) (send_now-SendsFront sys laws fd d w)
        (λ n w' p. (p.0, p.1)) (λ w' q. Moves-still d q);
  pending_wire = λ w. refl;
}

module _ {W : Type 0} (sock : Sock W) (laws : SockLaws sock) where
  open laws use {wire}

  -- What one call of `DriverSend` on a queue with `front` before `rest` does: it sends a part of the
  -- front buffer, or the last of it and fulfils its promise; or the socket fails with a run-time
  -- error, a front of the buffer at most is sent and the promise is broken with it; or another
  -- exception passes through and the queue is as before. Only if the queue is empty afterwards it reports that.
  pub data Sending (front : SendQElement) (rest : List SendQElement) (s : Async SendQElement W)
      (r : Result Bool × Async SendQElement W) : Type 0 where
    partial :
        (n : ℕ)
        → (sock.send_some front.buffer s.world).0 ≡ ok n
        → n < length front.buffer
        → r.0 ≡ ok false
        → r.1.send_q ≡ record front { buffer = drop n front.buffer } ∷ rest
        → r.1.results ≡ s.results
        → wire r.1.world ≡ wire s.world ++ take n front.buffer
        → Sending front rest s r
    complete :
        (sock.send_some front.buffer s.world).0 ≡ ok (length front.buffer)
        → r.0 ≡ ok (is_empty rest)
        → r.1.send_q ≡ rest
        → r.1.results ≡ assign s.results front.promise value
        → wire r.1.world ≡ wire s.world ++ front.buffer
        → Sending front rest s r
    failed :
        (e : Error)
        → (sock.send_some front.buffer s.world).0 ≡ err e
        → is_runtime_error e ≡ true
        → r.0 ≡ ok (is_empty rest)
        → r.1.send_q ≡ rest
        → r.1.results ≡ assign s.results front.promise (exception e)
        → MovesSome (wire s.world) front.buffer (wire r.1.world)
        → Sending front rest s r
    thrown :
        (e : Error)
        → (sock.send_some front.buffer s.world).0 ≡ err e
        → is_runtime_error e ≡ false
        → r.0 ≡ err e
        → r.1.send_q ≡ s.send_q
        → r.1.results ≡ s.results
        → MovesSome (wire s.world) front.buffer (wire r.1.world)
        → Sending front rest s r

  length_one :
      (x : SendQElement) (rest : List SendQElement) → (length (x ∷ rest) == 1) ≡ is_empty rest
  length_one x [] = refl
  length_one x (y ∷ rest) = ground arith

  last :
      (front : SendQElement) (rest : List SendQElement) (s : Async SendQElement W)
      → s.send_q ≡ front ∷ rest
      → ok (length s.send_q == 1) ≡ ok (is_empty rest)
  last front rest s q =
      ap (λ (l : List SendQElement). ok (length l == 1)) q ∙ ap ok (length_one front rest)

  sent_some-Sending :
      (front : SendQElement) (rest : List SendQElement) (s : Async SendQElement W) (m : Result ℕ)
      (w : W)
      → s.send_q ≡ front ∷ rest
      → (sock.send_some front.buffer s.world).0 ≡ m
      → Ensures
          (λ n w'. (n ≤ length front.buffer) × (wire w' ≡ wire s.world ++ take n front.buffer))
          (λ w'. MovesSome (wire s.world) front.buffer (wire w'))
          (m, w)
      → Sending front rest s (sent_some sock front rest m (record s { world = w }))
  sent_some-Sending front rest s (ok n) w q c h = elim (Bool-cases (n == length front.buffer)) [
    | inl e ↦ rw e (
        complete (c ∙ ap ok (ground arith)) (last front rest s q) refl refl
          (h.1 ∙ ap (λ l. wire s.world ++ l) (take_all n front.buffer (ground arith))))
    | inr e ↦ rw e (partial n c (ground (arith, h.0)) refl refl refl h.1)
  ]
  sent_some-Sending front rest s (err x) w q c h = elim (Bool-cases (is_runtime_error x)) [
    | inl e ↦ rw e (failed x c e (last front rest s q) refl refl h.1)
    | inr e ↦ rw e (thrown x c e refl refl refl h.1)
  ]

  -- `DriverSend` on a queue that is not empty sends a part of the front buffer or the last of it, or
  -- meets an exception of the socket, and in each case leaves queue, promises and wire accordingly.
  pub driver_send-Sending :
      (front : SendQElement) (rest : List SendQElement) (s : Async SendQElement W)
      → s.send_q ≡ front ∷ rest
      → Sending front rest s (driver_send sock s)
  unfolding driver_send
  driver_send-Sending front rest s q =
      subst (λ l. Sending front rest s (send_front sock l s)) (sym q)
        (sent_some-Sending front rest s (sock.send_some front.buffer s.world).0
          (sock.send_some front.buffer s.world).1 q refl (laws.send_some_wire front.buffer s.world))

  pub driver_send-world :
      (front : SendQElement) (rest : List SendQElement) (s : Async SendQElement W)
      → s.send_q ≡ front ∷ rest
      → (driver_send sock s).1.world ≡ (sock.send_some front.buffer s.world).1
  unfolding driver_send
  driver_send-world front rest s q =
      subst (λ l. (send_front sock l s).1.world ≡ (sock.send_some front.buffer s.world).1) (sym q)
        (sent_some-world front rest (sock.send_some front.buffer s.world).0 _)
    where
      sent_some-world :
          (front : SendQElement) (rest : List SendQElement) (m : Result ℕ)
          (s : Async SendQElement W)
          → (sent_some sock front rest m s).1.world ≡ s.world
      sent_some-world front rest (ok n) s = ground arith
      sent_some-world front rest (err e) s = ground arith

-- What happens to one attached socket: a thread enqueues a buffer, or the driver finds it writable.
pub data Event : Type 0 where
  enqueue : List ℕ → Event
  writable : Event

module _ {W : Type 0} (sock : Sock W) where
  unfoldable pub run : List Event → Async SendQElement W → Async SendQElement W
  run [] s = s
  run (enqueue b ∷ es) s = run es (send b s).1
  run (writable ∷ es) s = run es (driver_send sock s).1
