-- ===== src/Async/Attached.antt =====
-- The driver of src/driver_impl.cpp with the sockets of src/socket_async_impl.cpp attached.
use sockpuppet.Base.{
  ℕ, ◌≡◌, refl, Bool, true, false, List, is_empty, Result, ok, err, Error, is_runtime_error, Action,
  try_catch, String, Bool-cases, inl, inr,
}
use sockpuppet.Buffered.{Buffered, receive_now, receive_from_now, drop_buffer}
use sockpuppet.Async.{Async, driver_send, driver_send_to}
use sockpuppet.Driver.{State, async_unregister}
use sockpuppet.Driver.Registry.{async_unregister-IsAligned}
use sockpuppet.Driver.Rounds.{IsSound, Keeps, KeepAll, and_then-Keeps}
use sockpuppet.Async.Handlers.{
  Kind, udp, tcp, acceptor, Queue, send_q, send_to_q, Program, Sockets, Users, on_base, on_buff,
  on_queue, driver_disconnect, on_error, or_error, listen_again, driver_connect, received,
  driver_receive, driver_receive_from, on_readable, on_writable, socket_handlers,
}

try_catch-Keeps :
    {S A : Type 0} (P : S → Type 0) (m : Result A × S) (h : Error → Action S A)
    → P m.1
    → ((e : Error) → Keeps P (h e))
    → P (try_catch m h).1
try_catch-Keeps P (ok a, s) h p k = p
try_catch-Keeps P (err e, s) h p k = k e s p

-- The user's handlers and tasks keep `P`.
pub record UsersKeepAll {W : Type 0} (P : State (Program W) → Type 0) (users : Users W)
    : Type 0 where
  pub on_receive_from : (k : ℕ) (r : ℕ × List ℕ) → Keeps P (users.on_receive_from k r)
  pub on_receive : (k b : ℕ) → Keeps P (users.on_receive k b)
  pub on_disconnect : (k : ℕ) (peer : List ℕ) (m : String) → Keeps P (users.on_disconnect k peer m)
  pub on_connect : (k : ℕ) (c : ℕ × List ℕ) → Keeps P (users.on_connect k c)
  pub what : (task : ℕ) → Keeps P (users.what task)

-- What is asked of the user's handlers and tasks: that they keep the invariant, as the methods of the
-- driver that they may call do.
abbrev pub UsersKeep : {W : Type 0} → Users W → (ℕ → ℕ) → Type 0
UsersKeep users fd_of = UsersKeepAll (IsSound fd_of) users

-- Whether a queue is one of datagrams.
abbrev pub is_send_to : Queue → Bool
is_send_to (send_q q) = false
is_send_to (send_to_q q) = true

abbrev pub IsSort : {E : Type 0} → (List E → Queue) → Type 0
IsSort {E} inject = (q r : List E) → is_send_to (inject q) ≡ is_send_to (inject r)

-- `P` is kept by what sockets do to the program: calls of the system, filling and returning buffers,
-- sending from the queue of an object, which stays of its sort, and detaching.
pub record Stable {W : Type 0} (fd_of : ℕ → ℕ) (P : State (Program W) → Type 0) : Type 1 where
  pub base : {A : Type 0} (m : Action W A) → Keeps P (on_base m)
  pub buff : {A : Type 0} (k : ℕ) (m : Action (Buffered W) A) → Keeps P (on_buff fd_of k m)
  pub queue :
      {E A : Type 0} (k : ℕ) (inject : List E → Queue) (q : List E) (m : Action (Async E W) A)
      (s : State (Program W))
      → IsSort inject
      → (s.world.objects k).queue ≡ inject q
      → P s
      → P (on_queue k inject q m s).1
  pub detached : (k : ℕ) (s : State (Program W)) → P s → P (async_unregister fd_of (fd_of k) s).1

module _ {W : Type 0} (sockets : Sockets W) (users : Users W) (fd_of : ℕ → ℕ)
    (message : Error → String) (Ok : State (Program W) → Type 0) (stable : Stable fd_of Ok)
    (keep : UsersKeepAll Ok users) where
  driver_disconnect-Keeps :
      (k : ℕ) (peer : List ℕ) (m : String)
      → Keeps Ok (driver_disconnect sockets users fd_of message k peer m)
  unfolding driver_disconnect async_unregister
  driver_disconnect-Keeps k peer m s v = keep.on_disconnect k peer m _ (stable.detached k s v)

  on_error-Keeps :
      (kind : Kind) (k : ℕ) (m : String) → Keeps Ok (on_error sockets users fd_of message kind k m)
  unfolding on_error
  on_error-Keeps udp k m s v = v
  on_error-Keeps (tcp peer) k m s v = driver_disconnect-Keeps k peer m s v
  on_error-Keeps acceptor k m s v = v

  or_error-Keeps :
      (kind : Kind) (k : ℕ) (m : Result (Unit {0}) × State (Program W))
      → Ok m.1
      → Ok (or_error sockets users fd_of message kind k m).1
  or_error-Keeps kind k m v = try_catch-Keeps Ok m _ v λ e s w.
      elim (Bool-cases (is_runtime_error e)) [
        | inl r ↦ rw r (on_error-Keeps kind k (message e) s w)
        | inr r ↦ rw r w
      ]

  received-Keeps : (k b : ℕ) → Keeps Ok (received sockets users fd_of message k b)
  received-Keeps k b s v = elim (Bool-cases (is_empty ((s.world.objects k).pool.content b))) [
    | inl e ↦ rw e (stable.buff k (drop_buffer b (ok tt)) s v)
    | inr e ↦ rw e (keep.on_receive k b s v)
  ]

  on_readable-Keeps :
      (kind : Kind) (k : ℕ) → Keeps Ok (on_readable sockets users fd_of message kind k)
  unfolding on_readable driver_connect driver_receive driver_receive_from
  on_readable-Keeps udp k s v = or_error-Keeps udp k _ (
      and_then-Keeps Ok (on_buff fd_of k (receive_from_now sockets.rx) s) _
        (stable.buff k (receive_from_now sockets.rx) s v) (keep.on_receive_from k))
  on_readable-Keeps (tcp peer) k s v = or_error-Keeps (tcp peer) k _ (
      and_then-Keeps Ok (on_buff fd_of k (receive_now sockets.rx) s) _
        (stable.buff k (receive_now sockets.rx) s v) (received-Keeps k))
  on_readable-Keeps acceptor k s v = or_error-Keeps acceptor k _ (
      and_then-Keeps Ok (on_base (sockets.accept (fd_of k)) s) _
        (stable.base (sockets.accept (fd_of k)) s v)
        λ peer s1 v1.
          and_then-Keeps Ok (on_base (listen_again sockets fd_of k peer) s1) _
            (stable.base (listen_again sockets fd_of k peer) s1 v1) (keep.on_connect k))

  on_writable-Keeps :
      (q : Queue) (k : ℕ) (s : State (Program W))
      → (s.world.objects k).queue ≡ q
      → Ok s
      → Ok (on_writable sockets users fd_of message q k s).1
  unfolding on_writable
  on_writable-Keeps (send_q q) k s e v =
      stable.queue k send_q q (driver_send (sockets.tx k)) s (λ a b. refl) e v
  on_writable-Keeps (send_to_q q) k s e v =
      stable.queue k send_to_q q (driver_send_to (sockets.tx k)) s (λ a b. refl) e v

  pub socket_handlers-KeepAll : KeepAll Ok (socket_handlers sockets users fd_of message)
  unfolding socket_handlers
  socket_handlers-KeepAll = record {
    what = keep.what;
    query = λ k e s v. stable.base (sockets.driver_query k e) s v;
    on_readable = λ k s v. on_readable-Keeps (s.world.objects k).kind k s v;
    on_writable = λ k s v. on_writable-Keeps (s.world.objects k).queue k s refl v;
    on_error = λ k m s v. on_error-Keeps (s.world.objects k).kind k m s v;
  }

module _ {W : Type 0} (fd_of : ℕ → ℕ) where
  -- Only the world changes.
  world-IsSound :
      (s : State (Program W)) (w : Program W)
      → IsSound fd_of s
      → IsSound fd_of (record s { world = w })
  world-IsSound s w k = record { ordered = k.ordered; aligned = k.aligned; apart = k.apart }

  pub IsSound-Stable : Stable fd_of (IsSound {W = Program W} fd_of)
  unfolding async_unregister
  IsSound-Stable = record {
    base = λ m s v. world-IsSound s _ v;
    buff = λ k m s v. world-IsSound s _ v;
    queue = λ k inject q m s i e v. world-IsSound s _ v;
    detached = λ k s v. record {
      ordered = v.ordered;
      aligned = async_unregister-IsAligned fd_of (fd_of k) s (v.apart k) v.aligned;
      apart = v.apart;
    };
  }
