-- ===== src/Async/Plain.antt =====
-- Attached sockets without TLS under the driver's loop: src/socket_async_impl.cpp and
-- src/driver_impl.cpp over the operations of src/socket_impl.cpp.
use sockpuppet.Base.{ℕ, Bool, String, Error, pure}
use sockpuppet.Os.{Sys, PollLaws}
use sockpuppet.Socket.{receive, receive_now, receive_from_now}
use sockpuppet.Address.{Platform}
use sockpuppet.Endpoint.{accept_now, listen_on, peer_name}
use sockpuppet.Driver.{State}
use sockpuppet.Driver.Loop.{run}
use sockpuppet.Driver.Rounds.{IsSound}
use sockpuppet.Driver.Soundness.{run-IsSound}
use sockpuppet.Async.Stream.{plain_sock}
use sockpuppet.Async.Handlers.{Program, Sockets, Users, socket_handlers}
use sockpuppet.Async.Attached.{UsersKeep, IsSound-Stable, socket_handlers-KeepAll}

-- `SocketImpl`: its `DriverQuery` does nothing.
abbrev pub plain_sockets : (sys : Sys) → Platform → (ℕ → ℕ) → Bool → (ℕ → ℕ) → Sockets sys.World
plain_sockets sys platform with_nonblock has_no_sig_pipe fd_of = record {
  rx = record {
    receive = receive sys;
    receive_now = receive_now sys;
    receive_from_now = receive_from_now sys;
  };
  tx = λ k. plain_sock sys (fd_of k);
  driver_query = λ k events. pure events;
  accept = accept_now sys platform with_nonblock has_no_sig_pipe;
  listen = listen_on sys platform with_nonblock has_no_sig_pipe;
  close = sys.close;
  peer_name = peer_name sys platform with_nonblock has_no_sig_pipe;
}

module _ {W A : Type 0} where
  -- A call of the system leaves the rest of the program alone.
  abbrev on_system : (W → A × W) → Program W → A × Program W
  on_system call w = let (r, b) = call w.base in (r, record w { base = b })

module _ (sys : Sys) where
  -- The same system for code that works on the whole program.
  abbrev pub beneath : Sys
  beneath = record {
    World = Program sys.World;
    errno = λ w. sys.errno w.base;
    now = on_system sys.now;
    poll = λ p t w. let (r, q, b) = sys.poll p t w.base in (r, q, record w { base = b });
    send = λ fd d. on_system (sys.send fd d);
    recv = λ fd n w. let (r, d, b) = sys.recv fd n w.base in (r, d, record w { base = b });
    sendto = λ fd d a. on_system (sys.sendto fd d a);
    recvfrom =
        λ fd n w. let (r, d, a, b) = sys.recvfrom fd n w.base in (r, d, a, record w { base = b });
    socket = λ f t p. on_system (sys.socket f t p);
    close = λ fd w. record w { base = sys.close fd w.base };
    connect = λ fd a. on_system (sys.connect fd a);
    bind = λ fd a. on_system (sys.bind fd a);
    listen = λ fd n. on_system (sys.listen fd n);
    accept = λ fd w. let (r, a, b) = sys.accept fd w.base in (r, a, record w { base = b });
    get_flags = λ fd. on_system (sys.get_flags fd);
    set_flags = λ fd n. on_system (sys.set_flags fd n);
    setsockopt = λ fd o n. on_system (sys.setsockopt fd o n);
    get_rcvbuf = λ fd. on_system (sys.get_rcvbuf fd);
    getsockname = λ fd. on_system (sys.getsockname fd);
    getpeername = λ fd. on_system (sys.getpeername fd);
  }

  pub beneath-PollLaws : PollLaws sys → PollLaws beneath
  beneath-PollLaws laws = record { poll_fds = λ p t w. laws.poll_fds p t w.base }

  -- `Run` with the attached sockets behind it keeps the schedule in order and the sockets aligned with their
  -- poll entries, however many rounds it makes and whatever is received, sent, accepted or fails, if it
  -- started so, if the user's handlers and tasks keep these invariants and `poll` keeps the descriptors.
  pub run-socket_handlers-IsSound :
      (sockets : Sockets sys.World) (users : Users sys.World) (fd_of : ℕ → ℕ)
      (message : Error → String) (fuel rounds : ℕ) (s : State (Program sys.World))
      → PollLaws sys
      → UsersKeep users fd_of
      → IsSound fd_of s
      → IsSound fd_of (run beneath (socket_handlers sockets users fd_of message) fuel rounds s).1
  unfolding socket_handlers
  run-socket_handlers-IsSound sockets users fd_of message fuel rounds s laws keep v =
      run-IsSound beneath (beneath-PollLaws laws) (socket_handlers sockets users fd_of message)
        (socket_handlers-KeepAll sockets users fd_of message (IsSound fd_of) (IsSound-Stable fd_of)
          keep)
        fuel rounds s v
