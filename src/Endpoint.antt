-- ===== src/Endpoint.antt =====
-- The construction and the end of sockets: `SocketImpl` of src/socket_impl.cpp and the constructors of
-- src/socket.cpp, without TLS. The suffixes of error messages that print an address are left out.
pub mod Setup
pub mod Descriptors
pub mod Datagrams
use sockpuppet.Base.{
  ℕ, Bool, true, false, List, Option, none, some, if◌then◌else◌, Result, ok, err, Error, Action,
  pure, throw, and_then, ◌>>=◌, ◌>>◌, system_error, logic_error, String,
}
use sockpuppet.Base.Int.{ℤ, pos, negsuc}
use sockpuppet.Os.{Sys, SockOpt, reuse_addr, broadcast, no_sig_pipe}
use sockpuppet.Wait.{wait_readable}
use sockpuppet.Address.{Address, Platform, family_of, for_tcp, for_udp}

-- `with_nonblock` sets the bit O_NONBLOCK; `has_no_sig_pipe` says whether the system has SO_NOSIGPIPE.
module _ (sys : Sys) (platform : Platform) (with_nonblock : ℕ → ℕ) (has_no_sig_pipe : Bool) where
  open sys use {World, errno}

  abbrev pub checked : String → Bool × World → Result (Unit {0}) × World
  checked message (true, w) = pure tt w
  checked message (false, w) = throw (system_error (errno w) message) w

  abbrev pub found : {A : Type 0} → String → Option A × World → Result A × World
  found message (some a, w) = pure a w
  found message (none, w) = throw (system_error (errno w) message) w

  abbrev pub given : {A B : Type 0} → Result A → (A → Action World B) → Action World B
  given (ok a) f = f a
  given (err e) f = throw e

  abbrev pub create_socket : ℕ → ℕ → ℕ → Action World ℕ
  create_socket family type protocol w =
      found "failed to create socket" (sys.socket family type protocol w)

  abbrev pub connect_to : ℕ → List ℕ → Action World (Unit {0})
  connect_to fd addr w = checked "failed to connect" (sys.connect fd addr w)

  abbrev pub bind_to : ℕ → List ℕ → Action World (Unit {0})
  bind_to fd addr w = checked "failed to bind socket to address" (sys.bind fd addr w)

  abbrev pub listen_on : ℕ → Action World (Unit {0})
  listen_on fd w = checked "failed to listen" (sys.listen fd 128 w)

  abbrev pub set_option : ℕ → SockOpt → String → Action World (Unit {0})
  set_option fd option message w = checked message (sys.setsockopt fd option 1 w)

  abbrev pub set_no_sig_pipe : ℕ → Action World (Unit {0})
  set_no_sig_pipe fd w =
      if has_no_sig_pipe
      then set_option fd no_sig_pipe "failed to set socket option non-SIGPIPE" w
      else pure tt w

  abbrev pub nonblocking_message : String
  nonblocking_message = "failed to set socket option non-blocking"

  -- `SetBlocking(fd, false)`
  abbrev pub set_nonblocking : ℕ → Action World (Unit {0})
  set_nonblocking fd w =
      and_then (found nonblocking_message (sys.get_flags fd w))
        λ flags w1. checked nonblocking_message (sys.set_flags fd (with_nonblock flags) w1)

  abbrev pub rcvbuf_size : ℤ → Action World ℕ
  rcvbuf_size (negsuc n) = throw (logic_error "unexpected receive buffer size")
  rcvbuf_size (pos n) = pure n

  unfoldable pub get_rcvbuf : ℕ → Action World ℕ
  get_rcvbuf fd w =
      and_then (found "failed to get socket receive buffer size" (sys.get_rcvbuf fd w)) rcvbuf_size

  unfoldable pub sock_name : ℕ → Action World (List ℕ)
  sock_name fd w = found "failed to get socket address" (sys.getsockname fd w)

  unfoldable pub peer_name : ℕ → Action World (List ℕ)
  peer_name fd w = found "failed to get peer address" (sys.getpeername fd w)

  -- The rest of a constructor of an object that owns a descriptor: an exception destroys the object,
  -- which closes the descriptor.
  abbrev pub owned : ℕ → Result (Unit {0}) × World → Result ℕ × World
  owned fd (ok _, w) = (ok fd, w)
  owned fd (err e, w) = (err e, sys.close fd w)

  abbrev pub setup_udp : Address → ℕ → Action World (Unit {0})
  setup_udp address fd w = and_then (given (for_udp platform address) (bind_to fd) w) λ _ w1.
      and_then (set_option fd broadcast "failed to set socket option broadcast" w1)
        λ _. set_nonblocking fd

  unfoldable pub socket_udp : Address → Action World ℕ
  socket_udp address w =
      and_then (create_socket (family_of address) platform.sock_dgram platform.ipproto_udp w)
        λ fd w1. owned fd (setup_udp address fd w1)

  abbrev pub setup_tcp : Address → ℕ → Action World (Unit {0})
  setup_tcp address fd w =
      and_then (set_no_sig_pipe fd w) λ _ w1.
        and_then (given (for_tcp platform address) (connect_to fd) w1) λ _. set_nonblocking fd

  unfoldable pub socket_tcp : Address → Action World ℕ
  socket_tcp address w =
      and_then (create_socket (family_of address) platform.sock_stream platform.ipproto_tcp w)
        λ fd w1. owned fd (setup_tcp address fd w1)

  abbrev pub setup_acceptor : Address → ℕ → Action World (Unit {0})
  setup_acceptor address fd w =
      and_then (set_option fd reuse_addr "failed to set socket option address reuse" w)
        λ _ w1. and_then (given (for_tcp platform address) (bind_to fd) w1) λ _. set_nonblocking fd

  unfoldable pub acceptor : Address → Action World ℕ
  acceptor address w =
      and_then (create_socket (family_of address) platform.sock_stream platform.ipproto_tcp w)
        λ fd w1. owned fd (setup_acceptor address fd w1)

  abbrev pub setup_accepted : ℕ → Action World (Unit {0})
  setup_accepted fd w = and_then (set_no_sig_pipe fd w) (λ _. set_nonblocking fd)

  -- `SocketImpl::Accept()`: the descriptor of the new socket and the address of its peer.
  unfoldable pub accept_now : ℕ → Action World (ℕ × List ℕ)
  accept_now fd w =
      let (client, address, w1) = sys.accept fd w in
      and_then (found "failed to accept socket" (client, w1)) λ client_fd w2.
        and_then (owned client_fd (setup_accepted client_fd w2)) (λ f. pure (f, address))

  -- `Acceptor::Listen`
  unfoldable pub listen_accept : ℕ → ℤ → Action World (Option (ℕ × List ℕ))
  unfolding accept_now wait_readable
  listen_accept fd timeout w = and_then (listen_on fd w) λ _ w1.
      and_then (wait_readable sys fd timeout w1) λ readable w2. elim readable [
        | false ↦ pure none w2
        | true ↦ and_then (accept_now fd w2) (λ r. pure (some r))
      ]

  -- The move constructor and the destructor, of which a moved-from socket has no descriptor.
  abbrev pub moved : Option ℕ → Option ℕ × Option ℕ
  moved fd = (fd, none)

  unfoldable pub destroy : Option ℕ → World → World
  destroy none w = w
  destroy (some fd) w = sys.close fd w
