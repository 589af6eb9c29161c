-- ===== src/Async/Delivery.antt =====
-- The UDP send queue of src/socket_async_impl.cpp over any interleaving of `SendTo` and the driver.
pub mod Stuck
use sockpuppet.Base.{
  ℕ, suc, ◌+◌, ◌≤◌, ◌<◌, ◌≡◌, refl, sym, subst, ap, ◌∙◌, Bool, false, List, [], ◌∷◌, ◌++◌,
  append_assoc, append-nil, length, length-append, Result, ok, err, Error, arith, is_runtime_error,
}
use sockpuppet.Pool.{assign}
use sockpuppet.Async.{
  Async, Sock, Promise, value, exception, SendToQElement, send_to, driver_send_to, send_to_front,
}
use sockpuppet.Async.Datagrams.{
  SendToLaws, SendingTo, delivered, failed, thrown, driver_send_to-SendingTo,
}

-- What happens to one attached UDP socket: a thread sends to an address, or the driver finds it writable.
pub data Event : Type 0 where
  enqueue : List ℕ → Result (List ℕ) → Event
  writable : Event

module _ {W : Type 0} (sock : Sock W) where
  unfoldable pub run : List Event → Async SendToQElement W → Async SendToQElement W
  run [] s = s
  run (enqueue b a ∷ es) s = run es (send_to b a s).1
  run (writable ∷ es) s = run es (driver_send_to sock s).1

-- The elements that the events enqueue, whose promises are numbered from `n` on.
abbrev pub made : List Event → ℕ → List SendToQElement
made [] n = []
made (enqueue b a ∷ es) n = record { promise = n; buffer = b; addr = a } ∷ made es (suc n)
made (writable ∷ es) n = made es n

-- What became of the elements that have left the queue, by their promises: those fulfilled are the
-- datagrams sent, in this order, and no others.
pub data Settled (results : ℕ → Promise)
    : List SendToQElement → List (List ℕ × List ℕ) → Type 0 where
  none_left : Settled results [] []
  sent :
      (x : SendToQElement) (a : List ℕ) {xs : List SendToQElement} {ds : List (List ℕ × List ℕ)}
      → x.addr ≡ ok a
      → results x.promise ≡ value
      → Settled results xs ds
      → Settled results (x ∷ xs) ((a, x.buffer) ∷ ds)
  broken :
      (x : SendToQElement) (e : Error) {xs : List SendToQElement} {ds : List (List ℕ × List ℕ)}
      → results x.promise ≡ exception e
      → Settled results xs ds
      → Settled results (x ∷ xs) ds

-- The promises of a queue are numbered in its order, from `n` on.
abbrev pub Numbered : ℕ → List SendToQElement → Type 0
Numbered n [] = Unit {0}
Numbered n (x ∷ xs) = (x.promise ≡ n) × Numbered (suc n) xs

Numbered-snoc :
    (n : ℕ) (xs : List SendToQElement) (x : SendToQElement)
    → Numbered n xs
    → x.promise ≡ n + length xs
    → Numbered n (xs ++ x ∷ [])
Numbered-snoc n [] x v e = (omega (arith, e), tt)
Numbered-snoc n (y ∷ xs) x v e = (v.0, Numbered-snoc (suc n) xs x v.1 (omega (arith, e)))

module _ {W : Type 0} (sock : Sock W) (laws : SendToLaws sock) where
  -- From a state whose oldest queued promise is `n`: what has left the queue, what has been sent, and
  -- that older promises stay as they are.
  pub record Delivered (n : ℕ) (es : List Event) (s t : Async SendToQElement W) : Type 0 where
    pub gone : List SendToQElement
    pub datagrams : List (List ℕ × List ℕ)
    pub in_order : gone ++ t.send_q ≡ s.send_q ++ made es s.next_promise
    pub on_wire : laws.sent t.world ≡ laws.sent s.world ++ datagrams
    pub settled : Settled t.results gone datagrams
    pub older : (i : ℕ) → i < n → t.results i ≡ s.results i

  -- An event that changes neither queue nor what has been sent.
  unmoved :
      (n : ℕ) (es : List Event) (s s1 t : Async SendToQElement W)
      → s1.send_q ≡ s.send_q
      → s1.results ≡ s.results
      → s1.next_promise ≡ s.next_promise
      → laws.sent s1.world ≡ laws.sent s.world
      → Delivered n es s1 t
      → Delivered n (writable ∷ es) s t
  unmoved n es s s1 t q r p w d = record {
    gone = d.gone;
    datagrams = d.datagrams;
    in_order =
        d.in_order ∙ (ap (λ l. l ++ made es s1.next_promise) q ∙ ap (λ k. s.send_q ++ made es k) p);
    on_wire = d.on_wire ∙ ap (λ l. l ++ d.datagrams) w;
    settled = d.settled;
    older = λ i h. d.older i h ∙ ap (λ f. f i) r;
  }

  enqueued :
      (n : ℕ) (b : List ℕ) (a : Result (List ℕ)) (es : List Event) (s t : Async SendToQElement W)
      → n ≤ s.next_promise
      → Delivered n es (send_to b a s).1 t
      → Delivered n (enqueue b a ∷ es) s t
  unfolding send_to
  enqueued n b a es s t le d = record {
    gone = d.gone;
    datagrams = d.datagrams;
    in_order = d.in_order ∙ append_assoc s.send_q _ (made es (suc s.next_promise));
    on_wire = d.on_wire;
    settled = d.settled;
    older = λ i h. d.older i h ∙ ground arith;
  }

  left :
      (n : ℕ) (es : List Event) (front : SendToQElement) (rest : List SendToQElement)
      (s s1 t : Async SendToQElement W) (p : Promise) (ds : List (List ℕ × List ℕ))
      → front.promise ≡ n
      → s.send_q ≡ front ∷ rest
      → s1.send_q ≡ rest
      → s1.results ≡ assign s.results front.promise p
      → s1.next_promise ≡ s.next_promise
      → laws.sent s1.world ≡ laws.sent s.world ++ ds
      → (d : Delivered (suc n) es s1 t)
      → (t.results front.promise ≡ p → Settled t.results (front ∷ d.gone) (ds ++ d.datagrams))
      → Delivered n (writable ∷ es) s t
  left n es front rest s s1 t p ds num q q1 r np w d k = record {
    gone = front ∷ d.gone;
    datagrams = ds ++ d.datagrams;
    in_order =
        ap (◌∷◌ front) (
          d.in_order ∙ (ap (λ l. l ++ made es s1.next_promise) q1 ∙ ap (λ k. rest ++ made es k) np))
        ∙ ap (λ l. l ++ made es s.next_promise) (sym q);
    on_wire =
        d.on_wire
        ∙ (ap (λ l. l ++ d.datagrams) w ∙ append_assoc (laws.sent s.world) ds d.datagrams);
    settled =
        k (
          d.older front.promise (omega (arith, num))
          ∙ (ap (λ f. f front.promise) r ∙ ground arith));
    older = λ i h. d.older i (omega (arith, h)) ∙ (ap (λ f. f i) r ∙ ground (arith, num, h));
  }

  sent_to-Numbered :
      (b : List ℕ) (a : Result (List ℕ)) (n : ℕ) (s : Async SendToQElement W)
      → Numbered n s.send_q
      → n + length s.send_q ≡ s.next_promise
      → Numbered n (send_to b a s).1.send_q
  unfolding send_to
  sent_to-Numbered b a n s v len = Numbered-snoc n s.send_q _ v (sym len)

  sent_to-length :
      (b : List ℕ) (a : Result (List ℕ)) (n : ℕ) (s : Async SendToQElement W)
      → n + length s.send_q ≡ s.next_promise
      → n + length (send_to b a s).1.send_q ≡ (send_to b a s).1.next_promise
  unfolding send_to
  sent_to-length b a n s len = omega (
    arith,
    len,
    length-append s.send_q (record { promise = s.next_promise; buffer = b; addr = a } ∷ []),
  )

  -- The rest of the run, from any state whose queue is numbered.
  abbrev Rest : List Event → Type 0
  Rest es =
      (n : ℕ) (s : Async SendToQElement W)
      → Numbered n s.send_q
      → n + length s.send_q ≡ s.next_promise
      → Delivered n es s (run sock es s)

  sending :
      (n : ℕ) (es : List Event) (s s1 : Async SendToQElement W) (front : SendToQElement)
      (rest : List SendToQElement) (r : Result Bool)
      → Rest es
      → Numbered n (front ∷ rest)
      → n + length (front ∷ rest) ≡ s.next_promise
      → s.send_q ≡ front ∷ rest
      → SendingTo sock laws front rest s (r, s1)
      → Delivered n (writable ∷ es) s (run sock es s1)
  sending n es s s1 front rest r ih v len q (delivered a c f q1 rs np w) =
      let d =
        ih (suc n) s1 (subst (Numbered (suc n)) (sym q1) v.1)
          (omega (arith, len, np, ap length q1)) in
      left n es front rest s s1 (run sock es s1) value ((a, front.buffer) ∷ []) v.0 q q1 rs np w d
        (λ h. sent front a c h d.settled)
  sending n es s s1 front rest r ih v len q (failed e x f q1 rs np w) =
      let d =
        ih (suc n) s1 (subst (Numbered (suc n)) (sym q1) v.1)
          (omega (arith, len, np, ap length q1)) in
      left n es front rest s s1 (run sock es s1) (exception e) [] v.0 q q1 rs np
        (w ∙ sym (append-nil (laws.sent s.world))) d (λ h. broken front e h d.settled)
  sending n es s s1 front rest r ih v len q (thrown e x f q1 rs np w) =
      unmoved n es s s1 (run sock es s1) q1 rs np w (
        ih n s1 (subst (Numbered n) (sym (q1 ∙ q)) v)
          (omega (arith, len, np, ap length q1, ap length q)))

  writable-Delivered :
      (es : List Event)
      → Rest es
      → (q : List SendToQElement) (n : ℕ) (s : Async SendToQElement W) → s.send_q ≡ q
      → Numbered n q
      → n + length q ≡ s.next_promise
      → Delivered n (writable ∷ es) s (run sock es (driver_send_to sock s).1)
  unfolding driver_send_to
  writable-Delivered es ih [] n s e v len =
      subst (λ l. Delivered n (writable ∷ es) s (run sock es (send_to_front sock l s).1)) (sym e)
        (unmoved n es s s (run sock es s) refl refl refl refl
          (ih n s (subst (Numbered n) (sym e) tt) (omega (arith, len, ap length e))))
  writable-Delivered es ih (front ∷ rest) n s e v len =
      sending n es s (driver_send_to sock s).1 front rest (driver_send_to sock s).0 ih v len e
        (driver_send_to-SendingTo sock laws front rest s e)

  -- Over any interleaving of `SendTo` and the driver, from a queue whose promises are numbered in its
  -- order up to the next: the elements leave the queue in the order of enqueueing; the datagrams sent are,
  -- whole, in order and once, just those of the elements that have left and whose promise is fulfilled; the
  -- promises of the others that have left are broken; and no older promise changes.
  pub run-Delivered :
      (es : List Event) (n : ℕ) (s : Async SendToQElement W)
      → Numbered n s.send_q
      → n + length s.send_q ≡ s.next_promise
      → Delivered n es s (run sock es s)
  unfolding run
  run-Delivered [] n s v len = record {
    gone = [];
    datagrams = [];
    in_order = sym (append-nil s.send_q);
    on_wire = sym (append-nil (laws.sent s.world));
    settled = none_left;
    older = λ i h. refl;
  }
  run-Delivered (enqueue b a ∷ es) n s v len =
      enqueued n b a es s (run sock es (send_to b a s).1) (omega (arith, len)) (
        run-Delivered es n (send_to b a s).1 (sent_to-Numbered b a n s v len)
          (sent_to-length b a n s len))
  run-Delivered (writable ∷ es) n s v len =
      writable-Delivered es (run-Delivered es) s.send_q n s refl v len
