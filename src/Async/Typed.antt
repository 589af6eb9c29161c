-- ===== src/Async/Typed.antt =====
-- The variant `sendQ` of src/socket_async_impl.cpp: which of its queues an attached socket has never
-- changes, so `std::get` finds the queue that it asks for.
use sockpuppet.Base.{
  ℕ, ◌≡◌, refl, sym, ap, ◌∙◌, ◌==◌, Bool, true, false, List, Result, ok, Error, String, Bool-cases,
  inl, inr, Action, pure, length,
}
use sockpuppet.Pool.{Pool, assign}
use sockpuppet.Driver.{State, async_unregister, async_want_send}
use sockpuppet.Driver.Rounds.{Keeps, KeepAll, and_then-Keeps}
use sockpuppet.Base.Sequence.{find_if}
use sockpuppet.Os.{Pollfd}
use sockpuppet.Async.{Async, SendQElement, SendToQElement, send, send_to}
use sockpuppet.Async.Handlers.{
  Kind, udp, tcp, acceptor, Queue, send_q, send_to_q, SocketAsync, Program, Sockets, Users, on_base,
  on_queue, asked, peer_or_close, construct_udp, construct_tcp, do_send, do_send_to,
  socket_handlers,
}
use sockpuppet.Async.Api.{construct_acceptor}
use sockpuppet.Async.Attached.{UsersKeepAll, Stable, is_send_to, IsSort, socket_handlers-KeepAll}

abbrev pub is_udp : Kind → Bool
is_udp udp = true
is_udp (tcp peer) = false
is_udp acceptor = false

-- A UDP socket has a queue of datagrams, the others have one of bytes.
abbrev pub Fits : SocketAsync → Type 0
Fits o = is_send_to o.queue ≡ is_udp o.kind

abbrev pub IsTyped : {W : Type 0} → State (Program W) → Type 0
IsTyped s = (k : ℕ) → Fits (s.world.objects k)

assign-Fits :
    (f : ℕ → SocketAsync) (k : ℕ) (o : SocketAsync)
    → ((j : ℕ) → Fits (f j))
    → Fits o
    → (j : ℕ) → Fits (assign f k o j)
assign-Fits f k o v h j = elim (Bool-cases (k == j)) [ inl e ↦ rw e h | inr e ↦ rw e (v j) ]

module _ {W : Type 0} (fd_of : ℕ → ℕ) where
  on_queue-IsTyped :
      {E A : Type 0} (k : ℕ) (inject : List E → Queue) (q : List E) (m : Action (Async E W) A)
      (s : State (Program W))
      → IsSort inject
      → (s.world.objects k).queue ≡ inject q
      → IsTyped s
      → IsTyped (on_queue k inject q m s).1
  on_queue-IsTyped k inject q m s i e v =
      assign-Fits s.world.objects k _ v (i _ q ∙ (ap is_send_to (sym e) ∙ v k))

  IsTyped-Stable : Stable fd_of (IsTyped {W = W})
  unfolding async_unregister
  IsTyped-Stable = record {
    base = λ m s v. v;
    buff = λ k m s v. assign-Fits s.world.objects k _ v (v k);
    queue = λ k inject q m s i e v. on_queue-IsTyped k inject q m s i e v;
    detached = λ k s v. v;
  }

  async_want_send-IsTyped : (fd : ℕ) → Keeps IsTyped (async_want_send {W = Program W} fd)
  unfolding async_want_send
  async_want_send-IsTyped fd s v =
      elim (Bool-cases (find_if (λ (p : Pollfd). p.fd == fd) s.pfds == length s.pfds)) [
        | inl e ↦ rw e v
        | inr e ↦ rw e v
      ]

  asked-IsTyped : (k : ℕ) (p : ℕ × Bool) → Keeps IsTyped (asked {W = W} fd_of k p)
  asked-IsTyped k (p, true) s v =
      and_then-Keeps IsTyped (async_want_send (fd_of k) s) (λ _. pure p)
        (async_want_send-IsTyped (fd_of k) s v) (λ _ s1 v1. v1)
  asked-IsTyped k (p, false) s v = v

  do_send-IsTyped :
      (q : Queue) (k : ℕ) (buffer : List ℕ) (s : State (Program W))
      → (s.world.objects k).queue ≡ q
      → IsTyped s
      → IsTyped (do_send fd_of q k buffer s).1
  unfolding do_send
  do_send-IsTyped (send_q q) k buffer s e v =
      and_then-Keeps IsTyped
        (on_queue k send_q q (λ a. (ok (send buffer a).0, (send buffer a).1)) s) (asked fd_of k)
        (on_queue-IsTyped k send_q q (λ a. (ok (send buffer a).0, (send buffer a).1)) s
          (λ a b. refl) e v)
        (asked-IsTyped k)
  do_send-IsTyped (send_to_q q) k buffer s e v = v

  do_send_to-IsTyped :
      (q : Queue) (k : ℕ) (buffer : List ℕ) (addr : Result (List ℕ)) (s : State (Program W))
      → (s.world.objects k).queue ≡ q
      → IsTyped s
      → IsTyped (do_send_to fd_of q k buffer addr s).1
  unfolding do_send_to
  do_send_to-IsTyped (send_q q) k buffer addr s e v = v
  do_send_to-IsTyped (send_to_q q) k buffer addr s e v =
      and_then-Keeps IsTyped
        (on_queue k send_to_q q (λ a. (ok (send_to buffer addr a).0, (send_to buffer addr a).1)) s)
        (asked fd_of k)
        (on_queue-IsTyped k send_to_q q
          (λ a. (ok (send_to buffer addr a).0, (send_to buffer addr a).1)) s (λ a b. refl) e v)
        (asked-IsTyped k)

-- The queue that `DoSend` asks for is there.
pub data HasQueue (o : SocketAsync) : Type 0 where
  datagrams : (q : List SendToQElement) → o.kind ≡ udp → o.queue ≡ send_to_q q → HasQueue o
  bytes : (q : List SendQElement) → is_udp o.kind ≡ false → o.queue ≡ send_q q → HasQueue o

Fits-HasQueue : (o : SocketAsync) → Fits o → HasQueue o
Fits-HasQueue o v = kinds o.kind o.queue refl refl
  where
    kinds : (k : Kind) (q : Queue) → o.kind ≡ k → o.queue ≡ q → HasQueue o
    kinds udp (send_to_q q) a b = datagrams q a b
    kinds udp (send_q q) a b = cc
    kinds (tcp peer) (send_q q) a b = bytes q (ap is_udp a) b
    kinds (tcp peer) (send_to_q q) a b = cc
    kinds acceptor (send_q q) a b = bytes q (ap is_udp a) b
    kinds acceptor (send_to_q q) a b = cc

-- What a program of attached sockets whose queues fit their kinds does not change, whatever the driver,
-- the user and the constructors do.
pub record StaysTyped {W : Type 0} (sockets : Sockets W) (users : Users W) (fd_of : ℕ → ℕ)
    (message : Error → String) : Type 0 where
  pub handlers : KeepAll IsTyped (socket_handlers sockets users fd_of message)
  pub sends :
      (k : ℕ) (buffer : List ℕ) (s : State (Program W))
      → IsTyped s
      → IsTyped (do_send fd_of (s.world.objects k).queue k buffer s).1
  pub sends_to :
      (k : ℕ) (buffer : List ℕ) (addr : Result (List ℕ)) (s : State (Program W))
      → IsTyped s
      → IsTyped (do_send_to fd_of (s.world.objects k).queue k buffer addr s).1
  pub udp_sockets :
      (k size : ℕ) (pool : Pool) → Keeps IsTyped (construct_udp {W = W} fd_of k size pool)
  pub tcp_sockets :
      (k size : ℕ) (pool : Pool) → Keeps IsTyped (construct_tcp sockets fd_of k size pool)
  pub acceptors : (k : ℕ) → Keeps IsTyped (construct_acceptor sockets fd_of k)
  pub has_queue : (k : ℕ) (s : State (Program W)) → IsTyped s → HasQueue (s.world.objects k)

module _ {W : Type 0} (sockets : Sockets W) (users : Users W) (fd_of : ℕ → ℕ)
    (message : Error → String) where
  construct_tcp-IsTyped :
      (k size : ℕ) (pool : Pool) → Keeps IsTyped (construct_tcp sockets fd_of k size pool)
  unfolding construct_tcp
  construct_tcp-IsTyped k size pool s v =
      and_then-Keeps IsTyped (on_base (peer_or_close sockets fd_of k) s) _ v
        (λ peer s1 v1. assign-Fits s1.world.objects k _ v1 refl)

  -- If the user's handlers keep it, every attached socket has a queue of datagrams if it is a UDP socket
  -- and one of bytes otherwise, whatever the driver calls, the user sends and constructors add; so the
  -- queue that a send asks for is the one that the socket has.
  pub attached-StaysTyped : UsersKeepAll IsTyped users → StaysTyped sockets users fd_of message
  unfolding construct_udp construct_acceptor
  attached-StaysTyped keep = record {
    handlers =
        socket_handlers-KeepAll sockets users fd_of message IsTyped (IsTyped-Stable fd_of) keep;
    sends = λ k buffer s v. do_send-IsTyped fd_of (s.world.objects k).queue k buffer s refl v;
    sends_to = λ k buffer addr s v.
        do_send_to-IsTyped fd_of (s.world.objects k).queue k buffer addr s refl v;
    udp_sockets = λ k size pool s v. assign-Fits s.world.objects k _ v refl;
    tcp_sockets = construct_tcp-IsTyped;
    acceptors = λ k s v. assign-Fits s.world.objects k _ v refl;
    has_queue = λ k s v. Fits-HasQueue (s.world.objects k) (v k);
  }
