-- ===== src/Async/Api.antt =====
-- The constructors of the asynchronous sockets in src/socket_async.cpp, and of the buffered ones below
-- them in src/socket_buffered_impl.cpp.
use sockpuppet.Base.{
  ℕ, ◌≡◌, refl, sym, ◌∙◌, Bool, true, false, List, [], ◌∷◌, ◌++◌, ◌==◌, ==_refl, if◌then◌else◌,
  Result, ok, err, Error, Action, pure, throw, and_then, try_catch, logic_error, arith,
}
use sockpuppet.Base.Sequence.{any, remove_first}
use sockpuppet.Pool.{Pool, create, assign}
use sockpuppet.Driver.{State, async_register, async_unregister}
use sockpuppet.Driver.Registry.{erase_found_lem}
use sockpuppet.Driver.Dispatch.{has_fd}
use sockpuppet.Async.Handlers.{
  Program, Sockets, St, acceptor, send_q, on_base, construct_tcp, construct_udp, destruct,
}

-- `SocketBufferedImpl`: the size of the buffers is the receive buffer size of the socket, unless one is given. If that
-- query throws the socket is closed.
unfoldable pub construct_buffered :
    {W : Type 0} → (ℕ → Action W ℕ) → (ℕ → W → W) → ℕ → ℕ → ℕ → Action W (ℕ × Pool)
unfolding create
construct_buffered get_rcvbuf close fd count size w =
    and_then
      (try_catch (if size == 0 then get_rcvbuf fd w else pure size w)
        (λ e w'. (err e, close fd w')))
      (λ n. pure (n, create count n))

module _ {W : Type 0} (sockets : Sockets W) (fd_of : ℕ → ℕ) where
  -- `checked(handler)`: whether a handler is given.
  unfoldable pub checked : Bool → Action (St W) (Unit {0})
  checked true = pure tt
  checked false = throw (logic_error "invalid handler")

  unfoldable pub socket_udp_async : Bool → ℕ → ℕ → Pool → Action (St W) (Unit {0})
  unfolding checked construct_udp
  socket_udp_async handler k size pool s =
      and_then (checked handler s) (λ _. construct_udp fd_of k size pool)

  unfoldable pub socket_tcp_async : Bool → Bool → ℕ → ℕ → Pool → Action (St W) (Unit {0})
  unfolding checked construct_tcp
  socket_tcp_async on_receive on_disconnect k size pool s =
      and_then (checked on_receive s)
        λ _ s1. and_then (checked on_disconnect s1) (λ _. construct_tcp sockets fd_of k size pool)

  -- The acceptor has no receive buffers: their number is 0 and their size 1.
  unfoldable pub construct_acceptor : ℕ → Action (St W) (Unit {0})
  unfolding async_register create
  construct_acceptor k s = async_register fd_of k (record s {
    world = record s.world {
      objects =
          assign s.world.objects k
            (record { kind = acceptor; rx_buf_size = 1; pool = create 0 1; queue = send_q [] });
    };
  })

  -- A constructor that throws destroys the members that it has made: the socket is detached and closed.
  abbrev pub undo_attached : ℕ → Error → Action (St W) (Unit {0})
  undo_attached k e s = and_then (destruct fd_of k s) λ _ s1. (
    err e,
    record s1 { world = record s1.world { base = sockets.close (fd_of k) s1.world.base } },
  )

  unfoldable pub acceptor_async : Bool → ℕ → Action (St W) (Unit {0})
  unfolding checked construct_acceptor destruct
  acceptor_async handler k s = and_then (checked handler s) λ _ s1.
      and_then (construct_acceptor k s1)
        λ _ s2. try_catch (on_base (sockets.listen (fd_of k)) s2) (undo_attached k)

remove_first-last :
    {A : Type 0} (p : A → Bool) (xs : List A) (x : A)
    → any p xs ≡ false
    → p x ≡ true
    → remove_first p (xs ++ x ∷ []) ≡ xs
remove_first-last p [] x a h = rw h refl
remove_first-last p (y ∷ xs) x a h = ground (arith, a, remove_first-last p xs x)

module _ {W : Type 0} (sockets : Sockets W) (fd_of : ℕ → ℕ) (k : ℕ) (s : State (Program W)) where
  -- What the constructor of an acceptor came to: without a handler it has done nothing; it listens and is
  -- attached last; or listening failed, nothing is attached that was not and its socket is closed.
  pub data Opened (handler : Bool) (r : Result (Unit {0}) × State (Program W)) : Type 0 where
    no_handler : handler ≡ false → r ≡ (err (logic_error "invalid handler"), s) → Opened handler r
    listening :
        handler ≡ true
        → r.0 ≡ ok tt
        → r.1.sockets ≡ s.sockets ++ k ∷ []
        → r.1.world.base ≡ (sockets.listen (fd_of k) s.world.base).1
        → Opened handler r
    refused :
        (e : Error)
        → (sockets.listen (fd_of k) s.world.base).0 ≡ err e
        → r.0 ≡ err e
        → r.1.sockets ≡ s.sockets
        → r.1.pfds ≡ s.pfds
        → r.1.world.base ≡ sockets.close (fd_of k) (sockets.listen (fd_of k) s.world.base).1
        → Opened handler r

  listened-Opened :
      (m : Result (Unit {0}) × W)
      → m ≡ sockets.listen (fd_of k) s.world.base
      → any (λ j. fd_of j == fd_of k) s.sockets ≡ false
      → any (has_fd (fd_of k)) s.pfds ≡ false
      → Opened true (acceptor_async sockets fd_of true k s)
  unfolding acceptor_async checked construct_acceptor destruct async_register async_unregister
  listened-Opened (ok a, w) e f g = rw (sym e) (listening refl refl refl (rw (sym e) refl))
  listened-Opened (err x, w) e f g = rw (sym e) (
      refused x (rw (sym e) refl) refl
        (erase_found_lem (λ j. fd_of j == fd_of k) (s.sockets ++ k ∷ [])
          ∙ remove_first-last _ s.sockets k f (==_refl (fd_of k)))
        (erase_found_lem (has_fd (fd_of k)) _
          ∙ remove_first-last (has_fd (fd_of k)) s.pfds _ g (==_refl (fd_of k)))
        (rw (sym e) refl))

  -- The constructor of an acceptor whose descriptor is not attached yet: without a handler it throws and does
  -- nothing; otherwise it listens and is attached, or throws what listening threw, with the lists of the driver as
  -- they were and its socket closed.
  pub acceptor_async-Opened :
      (handler : Bool)
      → any (λ j. fd_of j == fd_of k) s.sockets ≡ false
      → any (has_fd (fd_of k)) s.pfds ≡ false
      → Opened handler (acceptor_async sockets fd_of handler k s)
  unfolding acceptor_async
  acceptor_async-Opened true f g = listened-Opened (sockets.listen (fd_of k) s.world.base) refl f g
  acceptor_async-Opened false f g = no_handler refl refl
