-- ===== src/Tls/Construct.antt =====
-- The construction of TLS sockets in src/socket_tls_impl.cpp and the count of their instances in
-- src/ssl_guard.cpp. Each member that has been made is destroyed again when a later one throws.
pub mod Guard
pub mod Ledger
pub mod Handles
pub mod Balance
use sockpuppet.Base.{
  ℕ, Bool, true, false, ◌&&◌, not, Option, none, some, if◌then◌else◌, Result, ok, err, Error,
  Action, pure, throw, and_then, try_catch, logic_error, runtime_error, String, ◌==◌, List,
}
use sockpuppet.Base.Int.{ℤ, pos, negsuc, ◌+ℤ◌}

-- TLS_client_method() and TLS_server_method()
pub data Method : Type 0 where
  client server : Method

-- The calls of the TLS library, a parameter: those that make a handle return none instead of a null
-- pointer, those that set something return whether they did.
pub record Crypto : Type 1 where
  pub World : Type 0
  pub init : World → World
  pub cleanup : World → World
  pub ctx_new : Method → World → Option ℕ × World
  pub ctx_free : ℕ → World → World
  pub set_mode : ℕ → World → Bool × World
  pub set_ecdh_auto : ℕ → World → Bool × World
  pub use_certificate_file : ℕ → World → Bool × World
  pub use_private_key_file : ℕ → World → Bool × World
  pub bio_new : World → Option ℕ × World
  pub bio_free : ℕ → World → World
  pub ssl_new : ℕ → World → Option ℕ × World
  pub ssl_free : ℕ → World → World
  -- The session takes over the two BIOs.
  pub set_bio : ℕ → ℕ → ℕ → World → World
  -- `SocketImpl(family, type, protocol)` and its destructor.
  pub create_socket : Action World ℕ
  pub close : ℕ → World → World
  -- `Accept` of src/socket_impl.cpp and `SocketImpl(fd)`: the descriptor and the address of the peer.
  pub accept_socket : ℕ → Action World (ℕ × List ℕ)
  pub set_accept_state : ℕ → World → World
  pub set_connect_state : ℕ → World → World

-- The static count of `UpdateInstanceCount`, and the world.
pub record Process (W : Type 0) : Type 0 where
  pub curr : ℤ
  pub world : W

abbrev is_at : ℕ → ℤ → Bool
is_at n (pos m) = n == m
is_at n (negsuc m) = false

module _ (crypto : Crypto) where
  open crypto use {World}

  abbrev pub St : Type 0
  St = Process World

  -- A step that cannot throw.
  abbrev pub doing : (World → World) → St → St
  doing f s = record s { world = f s.world }

  unfoldable pub update_instance_count : ℤ → St → St
  update_instance_count modifier s =
      let prev = s.curr in
      let curr = prev +ℤ modifier in
      let world =
        if is_at 0 prev && is_at 1 curr
        then crypto.init s.world
        else (if is_at 1 prev && is_at 0 curr then crypto.cleanup s.world else s.world) in
      record { curr = curr; world = world }

  -- An exception destroys what the code in front of it has made.
  abbrev pub or_undo : {A : Type 0} → (St → St) → Result A × St → Result A × St
  or_undo undo m = try_catch m (λ e s. (err e, undo s))

  -- The destructor of a temporary, whether or not an exception is on its way.
  abbrev pub finally : {A : Type 0} → (St → St) → Result A × St → Result A × St
  finally undo (r, s) = (r, undo s)

  abbrev pub done_or_throw : Error → Bool × World → Action St (Unit {0})
  done_or_throw e (true, w) s = pure tt (record s { world = w })
  done_or_throw e (false, w) s = throw e (record s { world = w })

  abbrev pub set_or_throw : (World → Bool × World) → Error → Action St (Unit {0})
  set_or_throw f e s = done_or_throw e (f s.world) s

  abbrev pub handle_or_throw : Error → Option ℕ × World → Action St ℕ
  handle_or_throw e (some h, w) s = pure h (record s { world = w })
  handle_or_throw e (none, w) s = throw e (record s { world = w })

  abbrev pub made_or_throw : (World → Option ℕ × World) → Error → Action St ℕ
  made_or_throw f e s = handle_or_throw e (f s.world) s

  abbrev pub configure_ctx : ℕ → Action St (Unit {0})
  configure_ctx ctx s =
      and_then (set_or_throw (crypto.set_mode ctx) (logic_error "failed to set TLS mode") s) λ _ s1.
        and_then (set_or_throw (crypto.set_ecdh_auto ctx) (logic_error "failed to set TLS ECDH") s1)
          λ _ s2.
            and_then
              (set_or_throw (crypto.use_certificate_file ctx)
                (runtime_error "failed to set certificate") s2)
              λ _.
                set_or_throw (crypto.use_private_key_file ctx)
                  (runtime_error "failed to set private key")

  abbrev pub create_ctx : Method → Action St ℕ
  create_ctx method s =
      and_then
        (made_or_throw (crypto.ctx_new method) (logic_error "failed to create SSL context") s)
        λ ctx s1.
          or_undo (doing (crypto.ctx_free ctx)) (and_then (configure_ctx ctx s1) (λ _. pure ctx))

  -- The BIOs that were made are freed if one of them was not.
  abbrev pub set_bios : ℕ → Option ℕ → Option ℕ → Action St (Unit {0})
  set_bios ssl (some rbio) (some wbio) s = pure tt (doing (crypto.set_bio ssl rbio wbio) s)
  set_bios ssl (some rbio) none s =
      throw (logic_error "failed to create read/write BIO") (doing (crypto.bio_free rbio) s)
  set_bios ssl none (some wbio) s =
      throw (logic_error "failed to create read/write BIO") (doing (crypto.bio_free wbio) s)
  set_bios ssl none none s = throw (logic_error "failed to create read/write BIO") s

  abbrev pub configure_ssl : ℕ → Action St (Unit {0})
  configure_ssl ssl s =
      let (rbio, w1) = crypto.bio_new s.world in
      let (wbio, w2) = crypto.bio_new w1 in set_bios ssl rbio wbio (record s { world = w2 })

  abbrev pub create_ssl : ℕ → Action St ℕ
  create_ssl ctx s =
      and_then (made_or_throw (crypto.ssl_new ctx) (logic_error "failed to create SSL structure") s)
        λ ssl s1.
          or_undo (doing (crypto.ssl_free ssl)) (and_then (configure_ssl ssl s1) (λ _. pure ssl))

  -- The members behind the socket: the guard, and what `make` makes.
  abbrev pub guarded : ℕ → Action St ℕ → Action St (ℕ × ℕ)
  guarded fd make s = or_undo (doing (crypto.close fd)) (
      or_undo (update_instance_count (negsuc 0))
        (and_then (make (update_instance_count (pos 1) s)) (λ h. pure (fd, h))))

  abbrev pub created : Action St ℕ
  created s = let (r, w) = crypto.create_socket s.world in (r, record s { world = w })

  -- `SocketTlsImpl(family, type, protocol, …)`: the context is a temporary.
  unfoldable pub socket_tls : Action St (ℕ × ℕ)
  unfolding update_instance_count
  socket_tls s = and_then (created s) λ fd. guarded fd (λ s1.
      and_then (create_ctx client s1)
        (λ ctx s2. finally (doing (crypto.ctx_free ctx)) (create_ssl ctx s2)))

  -- `SocketTlsImpl(fd, ctx)`
  unfoldable pub socket_tls_accepted : ℕ → ℕ → Action St (ℕ × ℕ)
  unfolding update_instance_count
  socket_tls_accepted fd ctx = guarded fd (create_ssl ctx)

  abbrev pub accepted : ℕ → Action St (ℕ × List ℕ)
  accepted fd s = let (r, w) = crypto.accept_socket fd s.world in (r, record s { world = w })

  -- `AcceptorTlsImpl::Accept`
  unfoldable pub tls_accept : ℕ → ℕ → Action St ((ℕ × ℕ) × List ℕ)
  unfolding socket_tls_accepted
  tls_accept fd ctx s = and_then (accepted fd s) λ c s1.
      and_then (socket_tls_accepted c.0 ctx s1)
        λ socket s2. pure (socket, c.1) (doing (crypto.set_accept_state socket.1) s2)

  -- `AcceptorTlsImpl`
  unfoldable pub acceptor_tls : Action St (ℕ × ℕ)
  unfolding update_instance_count
  acceptor_tls s = and_then (created s) (λ fd. guarded fd (create_ctx server))
