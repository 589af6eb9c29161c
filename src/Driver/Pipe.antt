-- ===== src/Driver/Pipe.antt =====
-- The constructor and the destructor of `Driver::DriverImpl` in src/driver_impl.cpp: two UDP sockets on
-- the local host are its signalling pipe.
use sockpuppet.Base.{
  ℕ, ◌≡◌, refl, ap, subst, ◌∙◌, Option, none, some, Bool, false, List, [], ◌∷◌, ◌==◌, ==_refl,
  Result, ok, err, Action, pure, and_then, try_catch, Ensures, Ensures-and_then,
}
use sockpuppet.Base.Int.{pos}
use sockpuppet.Base.Sequence.{remove_first}
use sockpuppet.Os.{Sys}
use sockpuppet.Wait.{wants_in, no_revents}
use sockpuppet.Address.{Address, Platform, family_of, for_udp}
use sockpuppet.Endpoint.{create_socket, given, bind_to, sock_name, found}
use sockpuppet.Endpoint.Setup.{
  DescriptorLaws, opened_with, Same, Same-and_then, for_udp-Same, bind-Same, found-Same,
}
use sockpuppet.Driver.{State}
use sockpuppet.Driver.Registry.{IsAligned}

module _ (sys : Sys) where
  open sys use {World}

  -- An exception closes the socket that has been made.
  abbrev pub or_close : {A : Type 0} → ℕ → Result A × World → Result A × World
  or_close fd m = try_catch m (λ e w. (err e, sys.close fd w))

  abbrev pub initial : ℕ → ℕ → List ℕ → World → State World
  initial pipe_from pipe_to name w = record {
    todos = record { when = λ _. pos 0; queue = [] };
    sockets = [];
    pfds = record { fd = pipe_to; events = wants_in; revents = no_revents } ∷ [];
    should_stop = false;
    pipe_from = pipe_from;
    pipe_to = pipe_to;
    pipe_to_addr = name;
    world = w;
  }

  -- The destructor, once no step runs: the members are destroyed last to first.
  unfoldable pub destroy_driver : State World → World
  destroy_driver s = sys.close s.pipe_from (sys.close s.pipe_to s.world)

-- `lookup` is the constructor `SockAddrInfo(0U)`, which asks `getaddrinfo`.
module _ (sys : Sys) (platform : Platform) (with_nonblock : ℕ → ℕ) (has_no_sig_pipe : Bool)
    (lookup : Action sys.World Address) where
  open sys use {World}

  abbrev pub bind_udp : ℕ → Address → Action World (Unit {0})
  bind_udp fd address =
      given sys platform with_nonblock has_no_sig_pipe (for_udp platform address)
        (bind_to sys platform with_nonblock has_no_sig_pipe fd)

  -- The body of the constructor: the address that `pipe_to` is bound to.
  abbrev pub bind_pipe : ℕ → ℕ → Address → Action World (List ℕ)
  bind_pipe pipe_from pipe_to address w = and_then (bind_udp pipe_to address w) λ _ w1.
      and_then (sock_name sys platform with_nonblock has_no_sig_pipe pipe_to w1) λ name w2.
        and_then (lookup w2)
          λ from_address w3. and_then (bind_udp pipe_from from_address w3) (λ _. pure name)

  abbrev pub udp_socket : Address → Action World ℕ
  udp_socket address =
      create_socket sys platform with_nonblock has_no_sig_pipe (family_of address)
        platform.sock_dgram platform.ipproto_udp

  unfoldable pub construct_driver : Action World (State World)
  unfolding for_udp sock_name
  construct_driver w = and_then (lookup w) λ address w1.
      and_then (udp_socket address w1) λ pipe_from w2. or_close sys pipe_from (
        and_then (udp_socket address w2) λ pipe_to w3. or_close sys pipe_to (
          and_then (bind_pipe pipe_from pipe_to address w3)
            (λ name w4. pure (initial sys pipe_from pipe_to name w4) w4)))

remove_head : (a : ℕ) (l : List ℕ) → remove_first (λ x. x == a) (a ∷ l) ≡ l
remove_head a l = rw (==_refl a) refl

module _ (sys : Sys) (laws : DescriptorLaws sys) (platform : Platform) (with_nonblock : ℕ → ℕ)
    (has_no_sig_pipe : Bool) (lookup : Action sys.World Address)
    (lookup_opened : (w : sys.World) → Same sys laws (laws.opened w) (lookup w))
    (get_fd : ℕ → ℕ) where
  open sys use {World}
  open laws use {opened}

  or_close-opened :
      {A : Type 0} (P : A → World → Type 0) (l : List ℕ) (fd : ℕ) (m : Result A × World)
      → Ensures P (λ w. opened w ≡ fd ∷ l) m
      → Ensures P (λ w. opened w ≡ l) (or_close sys fd m)
  or_close-opened P l fd (ok a, w) h = h
  or_close-opened P l fd (err e, w) h =
      (h.0, laws.close_opened fd w ∙ (ap (remove_first (λ x. x == fd)) h.1 ∙ rw (==_refl fd)))

  udp_socket-opened :
      (l : List ℕ) (address : Address) (w : World)
      → opened w ≡ l
      → Ensures
          (λ fd w1. opened w1 ≡ fd ∷ l)
          (λ w1. opened w1 ≡ l)
          (udp_socket sys platform with_nonblock has_no_sig_pipe lookup address w)
  udp_socket-opened l address w e =
      go (sys.socket _ _ _ w)
        (laws.socket_opened _ _ _ w ∙ ap (opened_with (sys.socket _ _ _ w).0) e)
    where
      go :
          (m : Option ℕ × World)
          → opened m.1 ≡ opened_with m.0 l
          → Ensures
              (λ fd w1. opened w1 ≡ fd ∷ l)
              (λ w1. opened w1 ≡ l)
              (found sys platform with_nonblock has_no_sig_pipe "failed to create socket" m)
      go (none, w1) h = (λ x. cc, h)
      go (some fd, w1) h = h

  bind_udp-Same :
      (l : List ℕ) (fd : ℕ) (address : Address) (w : World)
      → opened w ≡ l
      → Same sys laws l (bind_udp sys platform with_nonblock has_no_sig_pipe lookup fd address w)
  bind_udp-Same l fd address w e =
      for_udp-Same sys laws platform with_nonblock has_no_sig_pipe l address _ w
        (λ b. bind-Same sys laws platform with_nonblock has_no_sig_pipe l fd b w e) e

  lookup-Same : (l : List ℕ) (w : World) → opened w ≡ l → Same sys laws l (lookup w)
  lookup-Same l w e = subst (λ k. Same sys laws k (lookup w)) e (lookup_opened w)

  bind_pipe-Same :
      (l : List ℕ) (pipe_from pipe_to : ℕ) (address : Address) (w : World)
      → opened w ≡ l
      → Same sys laws l
          (bind_pipe sys platform with_nonblock has_no_sig_pipe lookup pipe_from pipe_to address w)
  unfolding sock_name
  bind_pipe-Same l pipe_from pipe_to address w e =
      Same-and_then sys laws platform with_nonblock has_no_sig_pipe l _ _
        (bind_udp-Same l pipe_to address w e)
        λ _ w1 e1.
          Same-and_then sys laws platform with_nonblock has_no_sig_pipe l _ _
            (found-Same sys laws platform with_nonblock has_no_sig_pipe l _
              (sys.getsockname pipe_to w1) (laws.getsockname_opened pipe_to w1 ∙ e1))
            λ name w2 e2.
              Same-and_then sys laws platform with_nonblock has_no_sig_pipe l _ _
                (lookup-Same l w2 e2)
                λ from_address w3 e3.
                  Same-and_then sys laws platform with_nonblock has_no_sig_pipe l _ _
                    (bind_udp-Same l pipe_from from_address w3 e3) (λ _ w4 e4. e4)

  -- A driver with the two descriptors of its pipe open, its lists aligned; its destructor closes just these two.
  pub record Constructed (w : World) (d : State World) (w1 : World) : Type 0 where
    pub pipe : opened w1 ≡ d.pipe_to ∷ d.pipe_from ∷ opened w
    pub own_world : d.world ≡ w1
    pub aligned : IsAligned get_fd d
    pub closed : opened (destroy_driver sys d) ≡ opened w

  initial-Constructed :
      (w : World) (pipe_from pipe_to : ℕ) (name : List ℕ) (w1 : World)
      → opened w1 ≡ pipe_to ∷ pipe_from ∷ opened w
      → Constructed w (initial sys pipe_from pipe_to name w1) w1
  unfolding destroy_driver
  initial-Constructed w pipe_from pipe_to name w1 e = record {
    pipe = e;
    own_world = refl;
    aligned = refl;
    closed =
        laws.close_opened pipe_from (sys.close pipe_to w1)
        ∙ (ap (remove_first (λ x. x == pipe_from)) (
              laws.close_opened pipe_to w1
              ∙ (ap (remove_first (λ x. x == pipe_to)) e
                  ∙ remove_head pipe_to (pipe_from ∷ opened w)))
            ∙ remove_head pipe_from (opened w));
  }

  -- The constructor of a driver comes to an end, with a driver whose pipe is two more open descriptors, whose lists
  -- are aligned and whose destructor closes just these two; or it throws, with just those open that were. The look-up of
  -- its addresses is taken to come to an end and to leave the descriptors alone.
  pub construct_driver-Constructed :
      (w : World)
      → Ensures
          (Constructed w)
          (λ w1. opened w1 ≡ opened w)
          (construct_driver sys platform with_nonblock has_no_sig_pipe lookup w)
  unfolding construct_driver
  construct_driver-Constructed w =
      Ensures-and_then (λ _ w1. opened w1 ≡ opened w) (λ w1. opened w1 ≡ opened w) (Constructed w)
        (λ w1. opened w1 ≡ opened w) (lookup w) _ (lookup_opened w)
        (λ address w1 e1.
          Ensures-and_then (λ fd w2. opened w2 ≡ fd ∷ opened w) (λ w2. opened w2 ≡ opened w)
            (Constructed w) (λ w2. opened w2 ≡ opened w) _ _
            (udp_socket-opened (opened w) address w1 e1)
            (λ pipe_from w2 e2. or_close-opened (Constructed w) (opened w) pipe_from _ (
              Ensures-and_then (λ fd w3. opened w3 ≡ fd ∷ pipe_from ∷ opened w)
                (λ w3. opened w3 ≡ pipe_from ∷ opened w) (Constructed w)
                (λ w3. opened w3 ≡ pipe_from ∷ opened w) _ _
                (udp_socket-opened (pipe_from ∷ opened w) address w2 e2)
                (λ pipe_to w3 e3. or_close-opened (Constructed w) (pipe_from ∷ opened w) pipe_to _ (
                  Ensures-and_then (λ _ w4. opened w4 ≡ pipe_to ∷ pipe_from ∷ opened w)
                    (λ w4. opened w4 ≡ pipe_to ∷ pipe_from ∷ opened w) (Constructed w)
                    (λ w4. opened w4 ≡ pipe_to ∷ pipe_from ∷ opened w) _ _
                    (bind_pipe-Same (pipe_to ∷ pipe_from ∷ opened w) pipe_from pipe_to address w3
                      e3)
                    (λ name w4 e4. initial-Constructed w pipe_from pipe_to name w4 e4) (λ w4 q. q)))
                (λ w3 q. q)))
            (λ w2 q. q))
        (λ w1 q. q)
