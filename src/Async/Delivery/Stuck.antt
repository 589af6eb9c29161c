-- ===== src/Async/Delivery/Stuck.antt =====
-- The UDP send queue of src/socket_async_impl.cpp when its front element has an address that is not
-- valid for UDP.
use sockpuppet.Base.{
  ℕ, suc, ◌≡◌, refl, sym, subst, ap, ◌∙◌, Bool, false, List, [], ◌∷◌, ◌++◌, append_assoc,
  append-nil, Result, err, Error, is_runtime_error,
}
use sockpuppet.Async.{Async, Sock, SendToQElement, send_to, driver_send_to, send_to_front}
use sockpuppet.Async.Datagrams.{SendToLaws}
use sockpuppet.Async.Delivery.{Event, enqueue, writable, run, made}

module _ {W : Type 0} (sock : Sock W) (laws : SendToLaws sock) where
  -- An address that is not valid for UDP throws before anything is sent, and its element stays.
  invalid-stays :
      (x : Error) (front : SendToQElement) (rest : List SendToQElement) (s : Async SendToQElement W)
      → is_runtime_error x ≡ false
      → front.addr ≡ err x
      → s.send_q ≡ front ∷ rest
      → driver_send_to sock s ≡ (err x, s)
  unfolding driver_send_to
  invalid-stays x front rest s l a e = ap (λ q. send_to_front sock q s) e ∙ (rw (a, l) refl)

  sent_to-front :
      (b : List ℕ) (c : Result (List ℕ)) (front : SendToQElement) (rest : List SendToQElement)
      (s : Async SendToQElement W)
      → s.send_q ≡ front ∷ rest
      → (send_to b c s).1.send_q
        ≡ front ∷ (rest ++ record { promise = s.next_promise; buffer = b; addr = c } ∷ [])
  unfolding send_to
  sent_to-front b c front rest s e = rw e refl

  enqueued_stuck :
      (b : List ℕ) (c : Result (List ℕ)) (es : List Event) (s : Async SendToQElement W)
      → (laws.sent (run sock es (send_to b c s).1).world ≡ laws.sent (send_to b c s).1.world)
        × ((run sock es (send_to b c s).1).send_q
            ≡ (send_to b c s).1.send_q ++ made es (send_to b c s).1.next_promise)
      → (laws.sent (run sock es (send_to b c s).1).world ≡ laws.sent s.world)
        × ((run sock es (send_to b c s).1).send_q
            ≡ s.send_q ++ made (enqueue b c ∷ es) s.next_promise)
  unfolding send_to
  enqueued_stuck b c es s h = (h.0, h.1 ∙ append_assoc s.send_q _ (made es (suc s.next_promise)))

  -- If the front element has an address for which `ForUdp` throws a logic error, no datagram is sent any
  -- more, whatever is enqueued and however often the driver finds the socket writable.
  pub run-stuck :
      (es : List Event) (x : Error) (front : SendToQElement) (rest : List SendToQElement)
      (s : Async SendToQElement W)
      → is_runtime_error x ≡ false
      → front.addr ≡ err x
      → s.send_q ≡ front ∷ rest
      → (laws.sent (run sock es s).world ≡ laws.sent s.world)
        × ((run sock es s).send_q ≡ s.send_q ++ made es s.next_promise)
  unfolding run
  run-stuck [] x front rest s l a e = (refl, sym (append-nil s.send_q))
  run-stuck (enqueue b c ∷ es) x front rest s l a e =
      enqueued_stuck b c es s
        (run-stuck es x front _ (send_to b c s).1 l a (sent_to-front b c front rest s e))
  run-stuck (writable ∷ es) x front rest s l a e =
      subst
        (λ (t : Async SendToQElement W).
          (laws.sent (run sock es t).world ≡ laws.sent s.world)
          × ((run sock es t).send_q ≡ s.send_q ++ made es s.next_promise))
        (sym (
          ap (λ (r : Result Bool × Async SendToQElement W). r.1)
            (invalid-stays x front rest s l a e)))
        (run-stuck es x front rest s l a e)
