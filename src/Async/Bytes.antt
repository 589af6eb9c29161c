-- ===== src/Async/Bytes.antt =====
-- The TCP send queue of src/socket_async_impl.cpp over any interleaving of `Send` and the driver, with the
-- errors of the socket: which bytes reach the stream, and what the promises say of them.
pub mod Interleaving
use sockpuppet.Base.{
  take, drop, ℕ, suc, ◌+◌, ◌≤◌, ◌<◌, ◌≡◌, refl, sym, subst, ap, ◌∙◌, Bool, true, false, List, [],
  ◌∷◌, ◌++◌, append_assoc, append-nil, length, length-append, Result, ok, err, Error, arith,
  is_runtime_error,
}
use sockpuppet.Pool.{assign}
use sockpuppet.Async.{
  Async, Sock, Promise, value, exception, SendQElement, send, driver_send, send_front,
}
use sockpuppet.Async.Stream.{
  SockLaws, Sending, partial, complete, failed, thrown, driver_send-Sending, Event, enqueue,
  writable, run,
}
use sockpuppet.Async.Promises.{driver_send-next}

-- The elements that the events enqueue, whose promises are numbered from `n` on.
abbrev pub made : List Event → ℕ → List SendQElement
made [] n = []
made (enqueue b ∷ es) n = record { promise = n; buffer = b } ∷ made es (suc n)
made (writable ∷ es) n = made es n

-- The promises of a queue are numbered in its order, from `n` on.
abbrev pub Numbered : ℕ → List SendQElement → Type 0
Numbered n [] = Unit {0}
Numbered n (x ∷ xs) = (x.promise ≡ n) × Numbered (suc n) xs

-- How a queue, with what is enqueued later behind it, becomes another while the world goes from one to
-- another, and the bytes that go on the stream meanwhile, in this order. With nothing to send the socket
-- is called for what is pending. Of the front element the socket takes a part; or all that is left of
-- it, and its promise is fulfilled; or it fails with a run-time error, after a front of it at most has
-- gone: the rest is dropped and the promise broken with that error; or it meets another exception,
-- after a front of it at most has gone: the element stays as it is, and is sent from its start again.
pub data Sent {W : Type 0} (sock : Sock W) (results : ℕ → Promise)
    : List SendQElement → W → List SendQElement → W → List ℕ → Type 0 where
  waiting : (xs : List SendQElement) (w : W) → Sent sock results xs w xs w []
  idle :
      {xs ys : List SendQElement} {w w' : W} {bytes : List ℕ}
      → Sent sock results xs (sock.driver_pending w).1 ys w' bytes
      → Sent sock results xs w ys w' bytes
  cut :
      (x : SendQElement) (n : ℕ) {xs ys : List SendQElement} {w w' : W} {bytes : List ℕ}
      → (sock.send_some x.buffer w).0 ≡ ok n
      → n < length x.buffer
      → Sent sock results
          (record x { buffer = drop n x.buffer } ∷ xs)
          (sock.send_some x.buffer w).1
          ys
          w'
          bytes
      → Sent sock results (x ∷ xs) w ys w' (take n x.buffer ++ bytes)
  whole :
      (x : SendQElement) {xs ys : List SendQElement} {w w' : W} {bytes : List ℕ}
      → (sock.send_some x.buffer w).0 ≡ ok (length x.buffer)
      → results x.promise ≡ value
      → Sent sock results xs (sock.send_some x.buffer w).1 ys w' bytes
      → Sent sock results (x ∷ xs) w ys w' (x.buffer ++ bytes)
  broken :
      (x : SendQElement) (e : Error) (front lost : List ℕ) {xs ys : List SendQElement} {w w' : W}
      {bytes : List ℕ}
      → (sock.send_some x.buffer w).0 ≡ err e
      → is_runtime_error e ≡ true
      → x.buffer ≡ front ++ lost
      → results x.promise ≡ exception e
      → Sent sock results xs (sock.send_some x.buffer w).1 ys w' bytes
      → Sent sock results (x ∷ xs) w ys w' (front ++ bytes)
  again :
      (x : SendQElement) (e : Error) (front rest : List ℕ) {xs ys : List SendQElement} {w w' : W}
      {bytes : List ℕ}
      → (sock.send_some x.buffer w).0 ≡ err e
      → is_runtime_error e ≡ false
      → x.buffer ≡ front ++ rest
      → Sent sock results (x ∷ xs) (sock.send_some x.buffer w).1 ys w' bytes
      → Sent sock results (x ∷ xs) w ys w' (front ++ bytes)

module _ {W : Type 0} (sock : Sock W) (laws : SockLaws sock) where
  open laws use {wire}

  -- From a state whose oldest queued promise is `n`: what has gone on the stream, and that older
  -- promises stay as they are.
  pub record Streamed (n : ℕ) (es : List Event) (s t : Async SendQElement W) : Type 0 where
    pub bytes : List ℕ
    pub on_wire : wire t.world ≡ wire s.world ++ bytes
    pub sent :
        Sent sock t.results (s.send_q ++ made es s.next_promise) s.world t.send_q t.world bytes
    pub older : (i : ℕ) → i < n → t.results i ≡ s.results i
