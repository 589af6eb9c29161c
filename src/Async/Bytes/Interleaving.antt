-- ===== src/Async/Bytes/Interleaving.antt =====
-- The TCP send queue of src/socket_async_impl.cpp, one event after the other.
use sockpuppet.Base.{
  ℕ, suc, ◌+◌, ◌≤◌, ◌<◌, ◌≡◌, refl, sym, subst, ap, ◌∙◌, Bool, true, false, List, [], ◌∷◌, ◌++◌,
  append_assoc, append-nil, take, drop, length, length-append, Result, ok, err, Error, arith,
  is_runtime_error,
}
use sockpuppet.Pool.{assign}
use sockpuppet.Async.{
  Async, Sock, Promise, value, exception, SendQElement, send, driver_send, send_front,
}
use sockpuppet.Async.Stream.{
  SockLaws, Sending, partial, complete, failed, thrown, driver_send-Sending, driver_send-world,
  Event, enqueue, writable, run,
}
use sockpuppet.Async.Promises.{driver_send-next}
use sockpuppet.Async.Bytes.{
  made, Numbered, Sent, waiting, idle, cut, whole, broken, again, Streamed,
}

Numbered-snoc :
    (n : ℕ) (xs : List SendQElement) (x : SendQElement)
    → Numbered n xs
    → x.promise ≡ n + length xs
    → Numbered n (xs ++ x ∷ [])
Numbered-snoc n [] x v e = (omega (arith, e), tt)
Numbered-snoc n (y ∷ xs) x v e = (v.0, Numbered-snoc (suc n) xs x v.1 (omega (arith, e)))

module _ {W : Type 0} (sock : Sock W) (laws : SockLaws sock) where
  open laws use {wire}

  -- The rest of the run, from any state whose queue is numbered.
  abbrev Rest : List Event → Type 0
  Rest es =
      (n : ℕ) (s : Async SendQElement W)
      → Numbered n s.send_q
      → n + length s.send_q ≡ s.next_promise
      → Streamed sock laws n es s (run sock es s)

  enqueued :
      (n : ℕ) (b : List ℕ) (es : List Event) (s t : Async SendQElement W)
      → n ≤ s.next_promise
      → Streamed sock laws n es (send b s).1 t
      → Streamed sock laws n (enqueue b ∷ es) s t
  unfolding send
  enqueued n b es s t le d = record {
    bytes = d.bytes;
    on_wire = d.on_wire;
    sent =
        subst (λ l. Sent sock t.results l s.world t.send_q t.world d.bytes)
          (append_assoc s.send_q _ (made es (suc s.next_promise))) d.sent;
    older = λ i h. d.older i h ∙ ground arith;
  }

  -- The run goes on behind a call of the driver that has put `front` on the stream.
  behind :
      (n m : ℕ) (es : List Event) (s s1 t : Async SendQElement W) (front : List ℕ)
      → n ≤ m
      → wire s1.world ≡ wire s.world ++ front
      → ((i : ℕ) → i < n → s1.results i ≡ s.results i)
      → (d : Streamed sock laws m es s1 t)
      → Sent sock t.results
          (s.send_q ++ made es s.next_promise)
          s.world
          t.send_q
          t.world
          (front ++ d.bytes)
      → Streamed sock laws n (writable ∷ es) s t
  behind n m es s s1 t front le w r d k = record {
    bytes = front ++ d.bytes;
    on_wire = d.on_wire ∙ (ap (λ l. l ++ d.bytes) w ∙ append_assoc (wire s.world) front d.bytes);
    sent = k;
    older = λ i h. d.older i (omega (arith, h, le)) ∙ r i h;
  }

  module _ (n : ℕ) (es : List Event) (ih : Rest es) (s s1 : Async SendQElement W)
      (front : SendQElement) (rest : List SendQElement) (v : Numbered n (front ∷ rest))
      (len : n + length (front ∷ rest) ≡ s.next_promise) (q : s.send_q ≡ front ∷ rest)
      (np : s1.next_promise ≡ s.next_promise)
      (sw : s1.world ≡ (sock.send_some front.buffer s.world).1) where
    abbrev t : Async SendQElement W
    t = run sock es s1

    -- What the rest of the run sends, seen from the queue that `s1` has.
    seen :
        (l : List SendQElement) (bytes : List ℕ)
        → s1.send_q ≡ l
        → Sent sock t.results (s1.send_q ++ made es s1.next_promise) s1.world t.send_q t.world bytes
        → Sent sock t.results
            (l ++ made es s.next_promise)
            (sock.send_some front.buffer s.world).1
            t.send_q
            t.world
            bytes
    seen l bytes e p =
        subst (λ w. Sent sock t.results (l ++ made es s.next_promise) w t.send_q t.world bytes) sw
          (subst (λ k. Sent sock t.results (l ++ made es k) s1.world t.send_q t.world bytes) np
            (subst
              (λ k.
                Sent sock t.results (k ++ made es s1.next_promise) s1.world t.send_q t.world bytes)
              e p))

    from_s :
        (bytes : List ℕ)
        → Sent sock t.results
            (front ∷ (rest ++ made es s.next_promise))
            s.world
            t.send_q
            t.world
            bytes
        → Sent sock t.results (s.send_q ++ made es s.next_promise) s.world t.send_q t.world bytes
    from_s bytes p =
        subst
          (λ k. Sent sock t.results (k ++ made es s.next_promise) s.world t.send_q t.world bytes)
          (sym q) p

    -- The front element has left the queue.
    gone : s1.send_q ≡ rest → Streamed sock laws (suc n) es s1 t
    gone e =
        ih (suc n) s1 (subst (Numbered (suc n)) (sym e) v.1) (omega (arith, len, np, ap length e))

    kept :
        (x : SendQElement)
        → x.promise ≡ front.promise
        → s1.send_q ≡ x ∷ rest
        → Streamed sock laws n es s1 t
    kept x p e =
        ih n s1 (subst (Numbered n) (sym e) (p ∙ v.0, v.1)) (omega (arith, len, np, ap length e))

    settled :
        (p : Promise)
        → s1.results ≡ assign s.results front.promise p
        → (d : Streamed sock laws (suc n) es s1 t) → t.results front.promise ≡ p
    settled p e d =
        d.older front.promise (omega (arith, v.0)) ∙ (ap (λ f. f front.promise) e ∙ ground arith)

    others :
        (p : Promise)
        → s1.results ≡ assign s.results front.promise p
        → (i : ℕ) → i < n
        → s1.results i ≡ s.results i
    others p e i h = ap (λ f. f i) e ∙ ground (arith, v.0, h)

    sending :
        (r : Result Bool)
        → Sending sock laws front rest s (r, s1)
        → Streamed sock laws n (writable ∷ es) s t
    sending r (partial k c lt e f g w) =
        let d = kept (record front { buffer = drop k front.buffer }) refl f in
        behind n n es s s1 t (take k front.buffer) (omega arith) w (λ i h. ap (λ z. z i) g) d
          (from_s _ (cut front k c lt (seen _ d.bytes f d.sent)))
    sending r (complete c e f g w) =
        let d = gone f in
        behind n (suc n) es s s1 t front.buffer (omega arith) w (others value g) d
          (from_s _ (whole front c (settled value g d) (seen rest d.bytes f d.sent)))
    sending r (failed x c k e f g (lost, (some, p, w))) =
        let d = gone f in
        behind n (suc n) es s s1 t some (omega arith) w (others (exception x) g) d (
          from_s _ (
            broken front x some lost c k p (settled (exception x) g d)
              (seen rest d.bytes f d.sent)))
    sending r (thrown x c k e f g (left, (some, p, w))) =
        let d = kept front refl (f ∙ q) in
        behind n n es s s1 t some (omega arith) w (λ i h. ap (λ f. f i) g) d
          (from_s _ (again front x some left c k p (seen _ d.bytes (f ∙ q) d.sent)))

  state_after :
      {A : Type 0} (r : Result A) (s : Async SendQElement W)
      → (sockpuppet.Base.and_then (r, s) (λ _. sockpuppet.Base.pure true)).1 ≡ s
  state_after (ok a) s = refl
  state_after (err e) s = refl

  -- The driver finds the socket writable with nothing to send.
  idle-Streamed :
      (n : ℕ) (es : List Event) (s s1 t : Async SendQElement W)
      → s1 ≡ record s { world = (sock.driver_pending s.world).1 }
      → Streamed sock laws n es s1 t
      → Streamed sock laws n (writable ∷ es) s t
  idle-Streamed n es s s1 t e d = record {
    bytes = d.bytes;
    on_wire =
        d.on_wire
        ∙ ap (λ l. l ++ d.bytes)
            (ap (λ (x : Async SendQElement W). wire x.world) e ∙ laws.pending_wire s.world);
    sent = idle (
        subst
          (λ (x : Async SendQElement W).
            Sent sock t.results (x.send_q ++ made es x.next_promise) x.world t.send_q t.world
              d.bytes)
          e d.sent);
    older = λ i h. d.older i h ∙ ap (λ (x : Async SendQElement W). x.results i) e;
  }

  writable-Streamed :
      (es : List Event)
      → Rest es
      → (q : List SendQElement) (n : ℕ) (s : Async SendQElement W) → s.send_q ≡ q
      → Numbered n q
      → n + length q ≡ s.next_promise
      → Streamed sock laws n (writable ∷ es) s (run sock es (driver_send sock s).1)
  unfolding driver_send
  writable-Streamed es ih [] n s e v len =
      let after : (send_front sock s.send_q s).1
          ≡ record s { world = (sock.driver_pending s.world).1 } =
        ap (λ l. (send_front sock l s).1) e ∙ state_after (sock.driver_pending s.world).0 _ in
      idle-Streamed n es s (send_front sock s.send_q s).1 _ after (
        ih n (send_front sock s.send_q s).1
          (subst (λ (x : Async SendQElement W). Numbered n x.send_q) (sym after)
            (subst (Numbered n) (sym e) v))
          (subst (λ (x : Async SendQElement W). n + length x.send_q ≡ x.next_promise) (sym after)
            (ap (λ l. n + length l) e ∙ len)))
  writable-Streamed es ih (front ∷ rest) n s e v len =
      sending n es ih s (driver_send sock s).1 front rest v len e
        (driver_send-next sock laws front rest s e) (driver_send-world sock laws front rest s e)
        (driver_send sock s).0 (driver_send-Sending sock laws front rest s e)

  enqueue-Streamed :
      (es : List Event) (b : List ℕ) (n : ℕ) (s : Async SendQElement W)
      → Rest es
      → Numbered n s.send_q
      → n + length s.send_q ≡ s.next_promise
      → Streamed sock laws n (enqueue b ∷ es) s (run sock es (send b s).1)
  unfolding send
  enqueue-Streamed es b n s ih v len =
      enqueued n b es s (run sock es (send b s).1) (omega (arith, len)) (
        ih n (send b s).1 (Numbered-snoc n s.send_q _ v (sym len)) (
          omega (
            arith,
            len,
            length-append s.send_q (record { promise = s.next_promise; buffer = b } ∷ []),
          )))

  -- Over any interleaving of `Send` and the driver, from a queue whose promises are numbered in its order
  -- up to the next: the stream gets, in the order of enqueueing and nothing in between, all the bytes of
  -- each element whose promise is fulfilled; of one whose promise is broken, by the run-time error of the
  -- socket, a front of what was still to be sent; of the one that is then in front of the queue, what the
  -- queue does not hold any more. Only after an exception of another kind is a front sent again. No older
  -- promise changes.
  pub run-Streamed :
      (es : List Event) (n : ℕ) (s : Async SendQElement W)
      → Numbered n s.send_q
      → n + length s.send_q ≡ s.next_promise
      → Streamed sock laws n es s (run sock es s)
  unfolding run
  run-Streamed [] n s v len = record {
    bytes = [];
    on_wire = sym (append-nil (wire s.world));
    sent =
        subst (λ l. Sent sock s.results l s.world s.send_q s.world []) (sym (append-nil s.send_q))
          (waiting s.send_q s.world);
    older = λ i h. refl;
  }
  run-Streamed (enqueue b ∷ es) n s v len = enqueue-Streamed es b n s (run-Streamed es) v len
  run-Streamed (writable ∷ es) n s v len =
      writable-Streamed es (run-Streamed es) s.send_q n s refl v len
