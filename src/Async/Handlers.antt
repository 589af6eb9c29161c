-- ===== src/Async/Handlers.antt =====
-- What src/socket_async_impl.cpp does when the driver calls an attached socket, when it is constructed
-- and destroyed, and when the user sends: the callbacks that the driver's loop takes.
use sockpuppet.Base.{
  ℕ, Bool, List, [], is_empty, if◌then◌else◌, Result, ok, err, Error, is_runtime_error, Action,
  pure, throw, and_then, try_catch, assertion_failed, String,
}
use sockpuppet.Os.{Events}
use sockpuppet.Pool.{Pool, assign}
use sockpuppet.Buffered.{Buffered, Receiver, receive_now, receive_from_now, drop_buffer}
use sockpuppet.Driver.{State, Handlers, async_register, async_unregister, async_want_send}
use sockpuppet.Async.{
  Async, Sock, SendQElement, SendToQElement, Promise, send, send_to, driver_send, driver_send_to,
}

-- Which constructor made the socket; a TCP socket keeps the address of its peer.
pub data Kind : Type 0 where
  udp : Kind
  tcp : (peer : List ℕ) → Kind
  acceptor : Kind

-- `std::variant<SendQ, SendToQ>`
pub data Queue : Type 0 where
  send_q : List SendQElement → Queue
  send_to_q : List SendToQElement → Queue

pub record SocketAsync : Type 0 where
  pub kind : Kind
  pub rx_buf_size : ℕ
  pub pool : Pool
  pub queue : Queue

-- What there is beside the driver: the attached sockets, the promises, and the world of the system.
pub record Program (W : Type 0) : Type 0 where
  pub objects : ℕ → SocketAsync
  pub results : ℕ → Promise
  pub next_promise : ℕ
  pub base : W

-- The operations of a `SocketImpl`, with TLS or without, that an attached socket calls.
pub record Sockets (W : Type 0) : Type 0 where
  pub rx : Receiver W
  pub tx : ℕ → Sock W
  pub driver_query : ℕ → Events → Action W Events
  pub accept : ℕ → Action W (ℕ × List ℕ)
  pub listen : ℕ → Action W (Unit {0})
  pub close : ℕ → W → W
  pub peer_name : ℕ → Action W (List ℕ)

-- The handlers and tasks of the user.
pub record Users (W : Type 0) : Type 0 where
  pub on_receive_from : ℕ → ℕ × List ℕ → Action (State (Program W)) (Unit {0})
  pub on_receive : ℕ → ℕ → Action (State (Program W)) (Unit {0})
  pub on_disconnect : ℕ → List ℕ → String → Action (State (Program W)) (Unit {0})
  pub on_connect : ℕ → ℕ × List ℕ → Action (State (Program W)) (Unit {0})
  pub what : ℕ → Action (State (Program W)) (Unit {0})

abbrev pub St : Type 0 → Type 0
St W = State (Program W)

module _ {W : Type 0} where
  abbrev pub on_base : {A : Type 0} → Action W A → Action (St W) A
  on_base m s = let (r, w) = m s.world.base in (r, record s { world = record s.world { base = w } })

  abbrev pub set_buffered : ℕ → Buffered W → St W → St W
  set_buffered k b s = record s {
    world = record s.world {
      objects = assign s.world.objects k (record (s.world.objects k) { pool = b.pool });
      base = b.world;
    };
  }

  abbrev pub on_queue :
      {E A : Type 0} → ℕ → (List E → Queue) → List E → Action (Async E W) A → Action (St W) A
  on_queue k inject q m s =
      let (r, a) = m (record {
        send_q = q;
        results = s.world.results;
        next_promise = s.world.next_promise;
        world = s.world.base;
      }) in
      (
        r,
        record s {
          world = record {
            objects =
                assign s.world.objects k (record (s.world.objects k) { queue = inject a.send_q });
            results = a.results;
            next_promise = a.next_promise;
            base = a.world;
          };
        },
      )

module _ {W : Type 0} (fd_of : ℕ → ℕ) where
  -- `buff` of the object `k`
  abbrev pub buffered : ℕ → St W → Buffered W
  buffered k s = record {
    fd = fd_of k;
    rx_buf_size = (s.world.objects k).rx_buf_size;
    pool = (s.world.objects k).pool;
    world = s.world.base;
  }

  abbrev pub on_buff : {A : Type 0} → ℕ → Action (Buffered W) A → Action (St W) A
  on_buff k m s = let (r, b) = m (buffered k s) in (r, set_buffered k b s)

  unfoldable pub construct_udp : ℕ → ℕ → Pool → Action (St W) (Unit {0})
  unfolding async_register
  construct_udp k size pool s = async_register fd_of k (record s {
    world = record s.world {
      objects =
          assign s.world.objects k
            (record { kind = udp; rx_buf_size = size; pool = pool; queue = send_to_q [] });
    };
  })

  unfoldable pub destruct : ℕ → Action (St W) (Unit {0})
  unfolding async_unregister
  destruct k = async_unregister fd_of (fd_of k)

  -- `DoSend`: the future, after the driver has been asked to poll if the queue was empty.
  abbrev pub asked : ℕ → ℕ × Bool → Action (St W) ℕ
  asked k (promise, was_empty) s =
      if was_empty
      then and_then (async_want_send (fd_of k) s) (λ _. pure promise)
      else pure promise s

  unfoldable pub do_send : Queue → ℕ → List ℕ → Action (St W) ℕ
  unfolding send async_want_send
  do_send (send_q q) k buffer s =
      and_then (on_queue k send_q q (λ a. (ok (send buffer a).0, (send buffer a).1)) s) (asked k)
  do_send (send_to_q q) k buffer s = throw assertion_failed s

  unfoldable pub do_send_to : Queue → ℕ → List ℕ → Result (List ℕ) → Action (St W) ℕ
  unfolding send_to async_want_send
  do_send_to (send_q q) k buffer addr s = throw assertion_failed s
  do_send_to (send_to_q q) k buffer addr s =
      and_then
        (on_queue k send_to_q q (λ a. (ok (send_to buffer addr a).0, (send_to buffer addr a).1)) s)
        (asked k)

module _ {W : Type 0} (sockets : Sockets W) (fd_of : ℕ → ℕ) where
  -- A constructor that throws closes the socket that it has taken over.
  abbrev pub peer_or_close : ℕ → Action W (List ℕ)
  peer_or_close k w =
      try_catch (sockets.peer_name (fd_of k) w) (λ e w'. (err e, sockets.close (fd_of k) w'))

  -- A TCP socket asks for the address of its peer while it is connected.
  unfoldable pub construct_tcp : ℕ → ℕ → Pool → Action (St W) (Unit {0})
  unfolding async_register
  construct_tcp k size pool s = and_then (on_base (peer_or_close k) s) λ peer s1.
      async_register fd_of k (record s1 {
        world = record s1.world {
          objects =
              assign s1.world.objects k
                (record { kind = tcp peer; rx_buf_size = size; pool = pool; queue = send_q [] });
        };
      })

  -- The new socket is closed if listening on fails.
  abbrev pub listen_again : ℕ → ℕ × List ℕ → Action W (ℕ × List ℕ)
  listen_again k (client, address) w =
      try_catch (and_then (sockets.listen (fd_of k) w) (λ _. pure (client, address)))
        (λ e w'. (err e, sockets.close client w'))

module _ {W : Type 0} (sockets : Sockets W) (users : Users W) (fd_of : ℕ → ℕ)
    (message : Error → String) where
  unfoldable pub driver_disconnect : ℕ → List ℕ → String → Action (St W) (Unit {0})
  unfolding async_unregister
  driver_disconnect k peer reason s =
      and_then (async_unregister fd_of (fd_of k) s) (λ _. users.on_disconnect k peer reason)

  -- The member `onError`, which for UDP sockets and acceptors discards the error.
  unfoldable pub on_error : Kind → ℕ → String → Action (St W) (Unit {0})
  unfolding driver_disconnect
  on_error udp k reason = pure tt
  on_error (tcp peer) k reason = driver_disconnect k peer reason
  on_error acceptor k reason = pure tt

  -- `catch(std::runtime_error const &e) { onError(e.what()); }`
  abbrev pub or_error : Kind → ℕ → Result (Unit {0}) × St W → Result (Unit {0}) × St W
  or_error kind k m =
      try_catch m λ e. if is_runtime_error e then on_error kind k (message e) else throw e

  unfoldable pub driver_connect : ℕ → Action (St W) (Unit {0})
  unfolding on_error
  driver_connect k s = or_error acceptor k (
      and_then (on_base (sockets.accept (fd_of k)) s)
        λ peer s1. and_then (on_base (listen_again sockets fd_of k peer) s1) (users.on_connect k))

  -- An empty buffer, from data of a TLS handshake, goes back to the pool.
  abbrev pub received : ℕ → ℕ → Action (St W) (Unit {0})
  received k buf s =
      if is_empty ((s.world.objects k).pool.content buf)
      then on_buff fd_of k (drop_buffer buf (ok tt)) s
      else users.on_receive k buf s

  unfoldable pub driver_receive : List ℕ → ℕ → Action (St W) (Unit {0})
  unfolding on_error receive_now
  driver_receive peer k s =
      or_error (tcp peer) k (and_then (on_buff fd_of k (receive_now sockets.rx) s) (received k))

  unfoldable pub driver_receive_from : ℕ → Action (St W) (Unit {0})
  unfolding on_error receive_from_now
  driver_receive_from k s =
      or_error udp k
        (and_then (on_buff fd_of k (receive_from_now sockets.rx) s) (users.on_receive_from k))

  -- The member `onReadable`
  unfoldable pub on_readable : Kind → ℕ → Action (St W) (Unit {0})
  unfolding driver_connect driver_receive driver_receive_from
  on_readable udp k = driver_receive_from k
  on_readable (tcp peer) k = driver_receive peer k
  on_readable acceptor k = driver_connect k

  unfoldable pub on_writable : Queue → ℕ → Action (St W) Bool
  unfolding driver_send driver_send_to
  on_writable (send_q q) k = on_queue k send_q q (driver_send (sockets.tx k))
  on_writable (send_to_q q) k = on_queue k send_to_q q (driver_send_to (sockets.tx k))

  -- The callbacks of the driver's loop, with attached sockets behind them.
  unfoldable pub socket_handlers : Handlers (Program W)
  unfolding on_error on_readable on_writable
  socket_handlers = record {
    what = users.what;
    get_fd = fd_of;
    query = λ k events. on_base (sockets.driver_query k events);
    on_readable = λ k s. on_readable (s.world.objects k).kind k s;
    on_writable = λ k s. on_writable (s.world.objects k).queue k s;
    on_error = λ k reason s. on_error (s.world.objects k).kind k reason s;
  }
