-- ===== src/Async/Promises.antt =====
-- Each promise of the send queue in src/socket_async_impl.cpp is settled once, when its buffer leaves
-- the queue.
use sockpuppet.Base.{
  ℕ, ◌+◌, ◌≤◌, ◌<◌, ◌≡◌, refl, sym, ap, subst, ◌∙◌, ◌==◌, ltb, Bool, true, false, List, [], ◌∷◌,
  ◌++◌, map, length, if◌then◌else◌, Result, ok, err, is_runtime_error, arith, inl, inr, Bool-cases,
}
use sockpuppet.Base.Sequence.{count, count-append}
use sockpuppet.Pool.{assign}
use sockpuppet.Async.{
  Async, Sock, SendQElement, Promise, pending, value, exception, send, sent_some, send_front,
  driver_send,
}
use sockpuppet.Async.Stream.{SockLaws, partial, complete, failed, thrown, driver_send-Sending}

abbrev pub promises : List SendQElement → List ℕ
promises = map (λ (x : SendQElement). x.promise)

abbrev pub is_pending : Promise → Bool
is_pending pending = true
is_pending _ = false

-- No promise is queued twice, none that has not been made yet, and of those made exactly the queued
-- ones are pending.
pub record IsTracked {W : Type 0} (s : Async SendQElement W) : Type 0 where
  pub once : (i : ℕ) → count i (promises s.send_q) ≤ 1
  pub made : (i : ℕ) → s.next_promise ≤ i → count i (promises s.send_q) ≡ 0
  pub open_if_queued :
      (i : ℕ) → i < s.next_promise → is_pending (s.results i) ≡ ltb 0 (count i (promises s.send_q))

promises-append : (xs ys : List SendQElement) → promises (xs ++ ys) ≡ promises xs ++ promises ys
promises-append [] ys = refl
promises-append (x ∷ xs) ys = ap (◌∷◌ x.promise) (promises-append xs ys)

count-snoc :
    (i : ℕ) (xs : List SendQElement) (x : SendQElement)
    → count i (promises (xs ++ x ∷ [])) ≡ count i (promises xs) + (if x.promise == i then 1 else 0)
count-snoc i xs x =
    ap (count i) (promises-append xs (x ∷ []))
    ∙ omega (arith, count-append i (promises xs) (x.promise ∷ []))

module _ {W : Type 0} where
  -- Enqueueing a buffer keeps the promises in order: of those made exactly the queued are pending.
  pub send-IsTracked :
      (b : List ℕ) (s : Async SendQElement W) → IsTracked s → IsTracked (send b s).1
  unfolding send
  send-IsTracked b s v = record {
    once = λ i. ground (
      arith,
      v.once i,
      v.made s.next_promise,
      v.made i,
      count-snoc i s.send_q (record { promise = s.next_promise; buffer = b }),
    );
    made = λ i lt.
        ground (
          arith,
          v.made i,
          count-snoc i s.send_q (record { promise = s.next_promise; buffer = b }),
        );
    open_if_queued = λ i lt. ground (
      arith,
      v.open_if_queued i,
      v.made s.next_promise,
      count-snoc i s.send_q (record { promise = s.next_promise; buffer = b }),
    );
  }

  at_queue :
      (s : Async SendQElement W) {l : List SendQElement} (i : ℕ)
      → s.send_q ≡ l
      → count i (promises s.send_q) ≡ count i (promises l)
  at_queue s i e = ap (λ (l : List SendQElement). count i (promises l)) e

  IsTracked-same :
      (s t : Async SendQElement W)
      → promises t.send_q ≡ promises s.send_q
      → t.results ≡ s.results
      → t.next_promise ≡ s.next_promise
      → IsTracked s
      → IsTracked t
  IsTracked-same s t p r n v = record {
    once = λ i. rw p (v.once i);
    made = λ i lt. rw p (v.made i (omega arith));
    open_if_queued = λ i lt. rw (r, p) (v.open_if_queued i (omega arith));
  }

  IsTracked-settled :
      (front : SendQElement) (rest : List SendQElement) (s t : Async SendQElement W) (r : Promise)
      → s.send_q ≡ front ∷ rest
      → is_pending r ≡ false
      → t.send_q ≡ rest
      → t.results ≡ assign s.results front.promise r
      → t.next_promise ≡ s.next_promise
      → IsTracked s
      → IsTracked t
  IsTracked-settled front rest s t r q done e f n v = record {
    once = λ i. omega (arith, v.once i, at_queue s i q, at_queue t i e);
    made = λ i lt. ground (arith, v.made i, at_queue s i q, at_queue t i e);
    open_if_queued =
        λ i lt. rw f (ground (arith, v.open_if_queued i, v.once i, at_queue s i q, at_queue t i e));
  }

module _ {W : Type 0} (sock : Sock W) (laws : SockLaws sock) where
  sent_some-next :
      (front : SendQElement) (rest : List SendQElement) (m : Result ℕ) (s : Async SendQElement W)
      → (sent_some sock front rest m s).1.next_promise ≡ s.next_promise
  sent_some-next front rest (ok n) s = elim (Bool-cases (n == length front.buffer)) [
    | inl e ↦ rw e
    | inr e ↦ rw e
  ]
  sent_some-next front rest (err x) s = elim (Bool-cases (is_runtime_error x)) [
    | inl e ↦ rw e
    | inr e ↦ rw e
  ]

  pub driver_send-next :
      (front : SendQElement) (rest : List SendQElement) (s : Async SendQElement W)
      → s.send_q ≡ front ∷ rest
      → (driver_send sock s).1.next_promise ≡ s.next_promise
  unfolding driver_send
  driver_send-next front rest s q =
      subst (λ l. (send_front sock l s).1.next_promise ≡ s.next_promise) (sym q)
        (sent_some-next front rest (sock.send_some front.buffer s.world).0 _)

  -- The driver's call on a queue that is not empty keeps the promises in order, whether it sends a part
  -- or the last of the front buffer or meets an exception: a promise is settled when its buffer
  -- leaves the queue, and only then.
  pub driver_send-IsTracked :
      (front : SendQElement) (rest : List SendQElement) (s : Async SendQElement W)
      → s.send_q ≡ front ∷ rest
      → IsTracked s
      → IsTracked (driver_send sock s).1
  driver_send-IsTracked front rest s q v =
      let n = driver_send-next front rest s q in
      elim (driver_send-Sending sock laws front rest s q) [
        | partial k c lt r e f st ↦ IsTracked-same s _ (ap promises e ∙ sym (ap promises q)) f n v
        | complete c r e f st ↦ IsTracked-settled front rest s _ value q refl e f n v
        | failed x c k r e f w ↦ IsTracked-settled front rest s _ (exception x) q refl e f n v
        | thrown x c k r e f w ↦ IsTracked-same s _ (ap promises e) f n v
      ]
