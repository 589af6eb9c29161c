-- ===== src/Tls/Public.antt =====
-- The constructors with certificates of src/socket.cpp, and listening with TLS: a session or a context
-- on a descriptor, set up by the calls of src/socket_impl.cpp.
pub mod Undo
pub mod Balance
use sockpuppet.Base.{
  ℕ, Bool, true, false, List, Option, none, some, Result, ok, err, Action, pure, and_then,
}
use sockpuppet.Base.Int.{ℤ, pos, negsuc}
use sockpuppet.Os.{Sys}
use sockpuppet.Wait.{wait_readable}
use sockpuppet.Address.{Address, Platform, for_tcp}
use sockpuppet.Endpoint.{
  given, connect_to, listen_on, set_no_sig_pipe, set_nonblocking, setup_acceptor, setup_accepted,
}
use sockpuppet.Tls.Construct.{
  Crypto, Process, doing, or_undo, update_instance_count, socket_tls, acceptor_tls, tls_accept,
}

-- `on_sys` runs a call of the system in the world of the TLS library, and `shut_down` is what `Shutdown`
-- does there, which the destructor calls.
pub record Host (sys : Sys) (crypto : Crypto) : Type 1 where
  pub on_sys : {A : Type 0} → Action sys.World A → Action crypto.World A
  pub shut_down : ℕ → Action crypto.World (Unit {0})

module _ (sys : Sys) (platform : Platform) (with_nonblock : ℕ → ℕ) (has_no_sig_pipe : Bool)
    (crypto : Crypto) (host : Host sys crypto) where
  abbrev pub St : Type 0
  St = Process crypto.World

  abbrev pub system : {A : Type 0} → Action sys.World A → Action St A
  system m s = let (r, w) = host.on_sys m s.world in (r, record s { world = w })

  -- `~SocketTlsImpl()` of a socket without a fatal error, which ignores exceptions: the session, the
  -- guard and the descriptor go in this order.
  abbrev pub destroy_tls : ℕ × ℕ → St → St
  destroy_tls (fd, ssl) s =
      let s1 = record s { world = (host.shut_down ssl s.world).1 } in
      doing crypto (crypto.close fd)
        (update_instance_count crypto (negsuc 0) (doing crypto (crypto.ssl_free ssl) s1))

  -- `~AcceptorTlsImpl()`
  abbrev pub destroy_acceptor : ℕ × ℕ → St → St
  destroy_acceptor (fd, ctx) s =
      doing crypto (crypto.close fd)
        (update_instance_count crypto (negsuc 0) (doing crypto (crypto.ctx_free ctx) s))

  -- The rest of a constructor whose member is made: an exception destroys the member.
  abbrev pub set_up : (ℕ × ℕ → St → St) → (ℕ × ℕ → Action St (Unit {0})) → ℕ × ℕ → Action St (ℕ × ℕ)
  set_up undo setup h s = or_undo crypto (undo h) (and_then (setup h s) (λ _. pure h))

  -- `SocketTlsImpl::Connect`
  abbrev pub tls_connect : ℕ × ℕ → List ℕ → Action St (Unit {0})
  tls_connect (fd, ssl) addr s =
      and_then (system (connect_to sys platform with_nonblock has_no_sig_pipe fd addr) s)
        (λ _ s1. pure tt (doing crypto (crypto.set_connect_state ssl) s1))

  abbrev pub tls_connect_given : ℕ × ℕ → Result (List ℕ) → Action St (Unit {0})
  tls_connect_given h (ok addr) s = tls_connect h addr s
  tls_connect_given h (err e) s = (err e, s)

  abbrev pub setup_tls_tcp : Address → ℕ × ℕ → Action St (Unit {0})
  setup_tls_tcp address h s =
      and_then (system (set_no_sig_pipe sys platform with_nonblock has_no_sig_pipe h.0) s) λ _ s1.
        and_then (tls_connect_given h (for_tcp platform address) s1)
          λ _. system (set_nonblocking sys platform with_nonblock has_no_sig_pipe h.0)

  -- `SocketTcp(connectAddress, certFilePath, keyFilePath)`
  unfoldable pub tls_socket_tcp : Address → Action St (ℕ × ℕ)
  unfolding update_instance_count
  tls_socket_tcp address s =
      and_then (socket_tls crypto s) (set_up destroy_tls (setup_tls_tcp address))

  -- `Acceptor(bindAddress, certFilePath, keyFilePath)`
  unfoldable pub tls_acceptor : Address → Action St (ℕ × ℕ)
  unfolding update_instance_count
  tls_acceptor address s = and_then (acceptor_tls crypto s) (
      set_up destroy_acceptor
        (λ h. system (setup_acceptor sys platform with_nonblock has_no_sig_pipe address h.0)))

  -- The constructor `SocketTcp(std::unique_ptr<SocketImpl> &&)` of an accepted socket, beside the address.
  abbrev pub accepted_tcp : (ℕ × ℕ) × List ℕ → Action St ((ℕ × ℕ) × List ℕ)
  accepted_tcp c s =
      and_then
        (set_up destroy_tls
          (λ h. system (setup_accepted sys platform with_nonblock has_no_sig_pipe h.0)) c.0 s)
        (λ h. pure (h, c.1))

  -- `AcceptorTlsImpl::Accept` with that constructor.
  unfoldable pub tls_accept_tcp : ℕ → ℕ → Action St ((ℕ × ℕ) × List ℕ)
  unfolding update_instance_count
  tls_accept_tcp fd ctx s = and_then (tls_accept crypto fd ctx s) accepted_tcp

  -- `Acceptor::Listen` of an acceptor with TLS.
  unfoldable pub tls_listen : ℕ → ℕ → ℤ → Action St (Option ((ℕ × ℕ) × List ℕ))
  unfolding tls_accept_tcp
  tls_listen fd ctx timeout s =
      and_then (system (listen_on sys platform with_nonblock has_no_sig_pipe fd) s) λ _ s1.
        and_then (system (wait_readable sys fd timeout) s1) λ readable s2. elim readable [
          | false ↦ pure none s2
          | true ↦ and_then (tls_accept_tcp fd ctx s2) (λ r. pure (some r))
        ]
