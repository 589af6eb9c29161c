-- ===== src/Async/Datagrams.antt =====
-- The UDP send queue of src/socket_async_impl.cpp: datagrams are sent whole, in order and once, and
-- each promise tells what became of its datagram.
use sockpuppet.Base.{
  ℕ, ◌≡◌, refl, sym, subst, ap, ◌∙◌, ◌==◌, ==_refl, Bool, true, false, List, [], ◌∷◌, ◌++◌, length,
  is_empty, Result, ok, err, Error, is_runtime_error, Ensures, arith, Bool-cases, inl, inr,
}
use sockpuppet.Base.Int.{ℤ, pos, negsuc}
use sockpuppet.Os.{Sys, DatagramLaws}
use sockpuppet.Socket.{send_to_now}
use sockpuppet.Pool.{assign}
use sockpuppet.Async.{
  Async, Sock, SendToQElement, value, exception, sent_to, send_to_addr, send_to_front,
  driver_send_to,
}
use sockpuppet.Async.Stream.{plain_sock}

-- What the queue relies on: `SendTo` sends the whole buffer as one datagram, or throws and sends none.
pub record SendToLaws {W : Type 0} (sock : Sock W) : Type 0 where
  pub sent : W → List (List ℕ × List ℕ)
  pub send_to_sent :
      (d a : List ℕ) (w : W)
      → Ensures
          (λ n w'. (n ≡ length d) × (sent w' ≡ sent w ++ (a, d) ∷ []))
          (λ w'. sent w' ≡ sent w)
          (sock.send_to d a w)

pub plain_SendToLaws :
    (sys : Sys) (laws : DatagramLaws sys) (fd : ℕ) → SendToLaws (plain_sock sys fd)
unfolding send_to_now
plain_SendToLaws sys laws fd = record {
  sent = λ w. laws.sent w fd;
  send_to_sent = λ d a w. result d a w (sys.sendto fd d a w).0 refl;
}
  where
    result :
        (d a : List ℕ) (w : sys.World) (r : ℤ)
        → (sys.sendto fd d a w).0 ≡ r
        → Ensures
            (λ n w'. (n ≡ length d) × (laws.sent w' fd ≡ laws.sent w fd ++ (a, d) ∷ []))
            (λ w'. laws.sent w' fd ≡ laws.sent w fd)
            (sockpuppet.Socket.sendto_result sys r (length d) (sys.sendto fd d a w).1)
    result d a w (negsuc n) e = (λ x. cc, laws.sendto_failed fd d a w n e)
    result d a w (pos n) e =
        let (whole, sent) = laws.sendto_whole fd d a w n e in
        rw (whole, ==_refl (length d)) (refl, sent)

module _ {W : Type 0} (sock : Sock W) (laws : SendToLaws sock) where
  open laws use {sent}

  -- What one call of `DriverSendTo` on a queue with `front` before `rest` does: the datagram is sent and
  -- its promise fulfilled; or a run-time error, with which the promise is broken, and nothing is sent;
  -- or another exception, and all is as before.
  pub data SendingTo (front : SendToQElement) (rest : List SendToQElement)
      (s : Async SendToQElement W) (r : Result Bool × Async SendToQElement W) : Type 0 where
    delivered :
        (a : List ℕ)
        → front.addr ≡ ok a
        → r.0 ≡ ok (is_empty rest)
        → r.1.send_q ≡ rest
        → r.1.results ≡ assign s.results front.promise value
        → r.1.next_promise ≡ s.next_promise
        → sent r.1.world ≡ sent s.world ++ (a, front.buffer) ∷ []
        → SendingTo front rest s r
    failed :
        (e : Error)
        → is_runtime_error e ≡ true
        → r.0 ≡ ok (is_empty rest)
        → r.1.send_q ≡ rest
        → r.1.results ≡ assign s.results front.promise (exception e)
        → r.1.next_promise ≡ s.next_promise
        → sent r.1.world ≡ sent s.world
        → SendingTo front rest s r
    thrown :
        (e : Error)
        → is_runtime_error e ≡ false
        → r.0 ≡ err e
        → r.1.send_q ≡ s.send_q
        → r.1.results ≡ s.results
        → r.1.next_promise ≡ s.next_promise
        → sent r.1.world ≡ sent s.world
        → SendingTo front rest s r

  length_one :
      (x : SendToQElement) (rest : List SendToQElement) → (length (x ∷ rest) == 1) ≡ is_empty rest
  length_one x [] = refl
  length_one x (y ∷ rest) = ground arith

  last :
      (front : SendToQElement) (rest : List SendToQElement) (s : Async SendToQElement W)
      → s.send_q ≡ front ∷ rest
      → ok (length s.send_q == 1) ≡ ok (is_empty rest)
  last front rest s q =
      ap (λ (l : List SendToQElement). ok (length l == 1)) q ∙ ap ok (length_one front rest)

  failed-SendingTo :
      (front : SendToQElement) (rest : List SendToQElement) (s : Async SendToQElement W) (x : Error)
      (w : W)
      → s.send_q ≡ front ∷ rest
      → sent w ≡ sent s.world
      → SendingTo front rest s (sent_to sock front rest (err x) (record s { world = w }))
  failed-SendingTo front rest s x w q h = elim (Bool-cases (is_runtime_error x)) [
    | inl e ↦ rw e (failed x e (last front rest s q) refl refl refl h)
    | inr e ↦ rw e (thrown x e refl refl refl refl h)
  ]

  sent_to-SendingTo :
      (front : SendToQElement) (rest : List SendToQElement) (s : Async SendToQElement W)
      (a : List ℕ) (m : Result ℕ) (w : W)
      → s.send_q ≡ front ∷ rest
      → front.addr ≡ ok a
      → Ensures
          (λ n w'. (n ≡ length front.buffer) × (sent w' ≡ sent s.world ++ (a, front.buffer) ∷ []))
          (λ w'. sent w' ≡ sent s.world)
          (m, w)
      → SendingTo front rest s (sent_to sock front rest m (record s { world = w }))
  sent_to-SendingTo front rest s a (ok n) w q c h =
      rw (h.0, ==_refl (length front.buffer))
        (delivered a c (last front rest s q) refl refl refl h.1)
  sent_to-SendingTo front rest s a (err x) w q c h = failed-SendingTo front rest s x w q h.1

  -- `DriverSendTo` on a queue that is not empty sends the front datagram whole, or meets an exception, and
  -- leaves queue, promises and what has been sent accordingly.
  pub driver_send_to-SendingTo :
      (front : SendToQElement) (rest : List SendToQElement) (s : Async SendToQElement W)
      → s.send_q ≡ front ∷ rest
      → SendingTo front rest s (driver_send_to sock s)
  unfolding driver_send_to
  driver_send_to-SendingTo front rest s q =
      subst (λ l. SendingTo front rest s (send_to_front sock l s)) (sym q) (at front.addr refl)
    where
      at :
          (m : Result (List ℕ))
          → front.addr ≡ m
          → SendingTo front rest s (
              sent_to sock front rest
                (send_to_addr sock front.buffer m s.world).0
                (record s { world = (send_to_addr sock front.buffer m s.world).1 }))
      at (ok a) e =
          sent_to-SendingTo front rest s a (sock.send_to front.buffer a s.world).0
            (sock.send_to front.buffer a s.world).1 q e (laws.send_to_sent front.buffer a s.world)
      at (err x) e = failed-SendingTo front rest s x s.world q refl
