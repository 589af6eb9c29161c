-- ===== src/Async.antt =====
-- `SocketAsyncImpl` of src/socket_async_impl.{h,cpp}: the send queue and the handlers that the driver
-- calls. `sendQMtx` makes each operation on the queue one step.
pub mod Stream
pub mod Promises
pub mod Bytes
pub mod Datagrams
pub mod Delivery
pub mod Wakeup
pub mod Handlers
pub mod Attached
pub mod Typed
pub mod Reading
pub mod Enqueue
pub mod Plain
pub mod Api
use sockpuppet.Base.{
  ℕ, suc, ◌+◌, ◌==◌, Bool, true, false, List, [], ◌∷◌, ◌++◌, length, drop, is_empty, if◌then◌else◌,
  Result, ok, err, Error, is_runtime_error, Action, pure, throw, and_then, logic_error,
  assertion_failed, String,
}
use sockpuppet.Pool.{assign}

-- The shared state behind a `std::promise` and its `std::future`.
pub data Promise : Type 0 where
  pending : Promise
  value : Promise
  exception : Error → Promise

-- `SendQElement`; the buffer is the bytes that it still holds.
pub record SendQElement : Type 0 where
  pub promise : ℕ
  pub buffer : List ℕ

-- `SendToQElement`; `addr` is what the address's `ForUdp` gives, which may be an exception.
pub record SendToQElement : Type 0 where
  pub promise : ℕ
  pub buffer : List ℕ
  pub addr : Result (List ℕ)

pub record Async (Element W : Type 0) : Type 0 where
  pub send_q : List Element
  pub results : ℕ → Promise
  pub next_promise : ℕ
  pub world : W

-- The virtual functions of the socket that sending calls.
pub record Sock (W : Type 0) : Type 0 where
  pub send_some : List ℕ → Action W ℕ
  pub send_to : List ℕ → List ℕ → Action W ℕ
  pub driver_pending : Action W (Unit {0})

module _ {E W : Type 0} where
  -- A new promise; its future is known by the same number.
  unfoldable pub make_promise : Async E W → ℕ × Async E W
  make_promise s = (
    s.next_promise,
    record s {
      results = assign s.results s.next_promise pending;
      next_promise = suc s.next_promise;
    },
  )

  -- `DoSendEnqueue`: whether the queue was empty.
  unfoldable pub do_send_enqueue : E → Async E W → Bool × Async E W
  do_send_enqueue element s = (is_empty s.send_q, record s { send_q = s.send_q ++ element ∷ [] })

  -- The promise is fulfilled or broken, and the element leaves the queue.
  abbrev pub settle : ℕ → Promise → List E → Async E W → Async E W
  settle promise result rest s = record s {
    send_q = rest;
    results = assign s.results promise result;
  }

module _ {W : Type 0} where
  -- `Send` up to the call of the driver: the future, and whether the driver is to be asked to poll.
  unfoldable pub send : List ℕ → Async SendQElement W → (ℕ × Bool) × Async SendQElement W
  unfolding make_promise do_send_enqueue
  send buffer s =
      let (promise, s1) = make_promise s in
      let (was_empty, s2) = do_send_enqueue (record { promise = promise; buffer = buffer }) s1 in
      ((promise, was_empty), s2)

  unfoldable pub send_to :
      List ℕ → Result (List ℕ) → Async SendToQElement W → (ℕ × Bool) × Async SendToQElement W
  unfolding make_promise do_send_enqueue
  send_to buffer addr s =
      let (promise, s1) = make_promise s in
      let (was_empty, s2) =
        do_send_enqueue (record { promise = promise; buffer = buffer; addr = addr }) s1 in
      ((promise, was_empty), s2)

module _ {W : Type 0} (sock : Sock W) where
  abbrev pub sent_some :
      SendQElement → List SendQElement → Result ℕ → Action (Async SendQElement W) Bool
  sent_some front rest (ok sent) s =
      if sent == length front.buffer
      then pure (length s.send_q == 1) (settle front.promise value rest s)
      else pure false
          (record s { send_q = record front { buffer = drop sent front.buffer } ∷ rest })
  sent_some front rest (err e) s =
      if is_runtime_error e
      then pure (length s.send_q == 1) (settle front.promise (exception e) rest s)
      else throw e s

  unfoldable pub send_front : List SendQElement → Action (Async SendQElement W) Bool
  send_front [] s =
      let (r, w) = sock.driver_pending s.world in
      and_then (r, record s { world = w }) (λ _. pure true)
  send_front (front ∷ rest) s =
      let (r, w) = sock.send_some front.buffer s.world in
      sent_some front rest r (record s { world = w })

  -- `DriverSend`: whether there is no more data to send.
  unfoldable pub driver_send : Action (Async SendQElement W) Bool
  unfolding send_front
  driver_send s = send_front s.send_q s

  abbrev pub sent_to :
      SendToQElement → List SendToQElement → Result ℕ → Action (Async SendToQElement W) Bool
  sent_to front rest (ok sent) s =
      if sent == length front.buffer
      then pure (length s.send_q == 1) (settle front.promise value rest s)
      else throw assertion_failed s
  sent_to front rest (err e) s =
      if is_runtime_error e
      then pure (length s.send_q == 1) (settle front.promise (exception e) rest s)
      else throw e s

  abbrev pub send_to_addr : List ℕ → Result (List ℕ) → Action W ℕ
  send_to_addr bytes (ok addr) = sock.send_to bytes addr
  send_to_addr bytes (err e) = throw e

  unfoldable pub send_to_front : List SendToQElement → Action (Async SendToQElement W) Bool
  send_to_front [] s = throw (logic_error "uncalled sendto") s
  send_to_front (front ∷ rest) s =
      let (r, w) = send_to_addr front.buffer front.addr s.world in
      sent_to front rest r (record s { world = w })

  -- `DriverSendTo`
  unfoldable pub driver_send_to : Action (Async SendToQElement W) Bool
  unfolding send_to_front
  driver_send_to s = send_to_front s.send_q s
