-- ===== src/Endpoint/Descriptors.antt =====
-- No descriptor is lost by the constructors of src/socket.cpp and by accepting: it is owned by the new
-- socket, or it is closed again.
use sockpuppet.Base.{
  ℕ, ◌≡◌, ap, ◌∙◌, Bool, true, false, List, ◌∷◌, Option, none, some, Result, ok, err, Action, pure,
  and_then, Ensures, Ensures-and_then, String,
}
use sockpuppet.Base.Int.{ℤ, pos, negsuc}
use sockpuppet.Os.{Sys}
use sockpuppet.Wait.{wait_readable, poll_result}
use sockpuppet.Address.{Address, Platform}
use sockpuppet.Endpoint.{
  found, create_socket, listen_on, set_no_sig_pipe, owned, socket_udp, socket_tcp, acceptor,
  setup_accepted, accept_now, listen_accept,
}
use sockpuppet.Endpoint.Setup.{
  opened_with, DescriptorLaws, Same, Owns, OwnsPeer, Same-and_then, checked-Same,
  set_nonblocking-Same, set_no_sig_pipe-Same, setup_udp-Same, setup_tcp-Same, setup_acceptor-Same,
  owned-Owns,
}

module _ (sys : Sys) (laws : DescriptorLaws sys) (platform : Platform) (with_nonblock : ℕ → ℕ)
    (has_no_sig_pipe : Bool) where
  open sys use {World}
  open laws use {opened}

  create-Owns :
      (f k p : ℕ) (setup : ℕ → Action World (Unit {0})) (w : World)
      → ((fd : ℕ) (w1 : World)
          → opened w1 ≡ fd ∷ opened w
          → Same sys laws (fd ∷ opened w) (setup fd w1))
      → Owns sys laws w (
          and_then
            (create_socket sys platform with_nonblock has_no_sig_pipe f k p w)
            (λ fd w1. owned sys platform with_nonblock has_no_sig_pipe fd (setup fd w1)))
  create-Owns f k p setup w h = after (sys.socket f k p w) (laws.socket_opened f k p w)
    where
      after :
          (m : Option ℕ × World)
          → opened m.1 ≡ opened_with m.0 (opened w)
          → Owns sys laws w (
              and_then
                (found sys platform with_nonblock has_no_sig_pipe "failed to create socket" m)
                (λ fd w1. owned sys platform with_nonblock has_no_sig_pipe fd (setup fd w1)))
      after (none, w1) e = (λ x. cc, e)
      after (some fd, w1) e =
          owned-Owns sys laws platform with_nonblock has_no_sig_pipe w fd (setup fd w1) (h fd w1 e)

  -- The constructors of a UDP socket, a TCP socket and an acceptor come to an end, each with one more
  -- descriptor open, which the new object owns; or with just those open that were, if it throws.
  pub constructors-Owns :
      (a : Address) (w : World)
      → Owns sys laws w (socket_udp sys platform with_nonblock has_no_sig_pipe a w)
        × Owns sys laws w (socket_tcp sys platform with_nonblock has_no_sig_pipe a w)
        × Owns sys laws w (acceptor sys platform with_nonblock has_no_sig_pipe a w)
  unfolding socket_udp socket_tcp acceptor
  constructors-Owns a w = (
    create-Owns _ _ _ _ w (λ fd w1 e.
        setup_udp-Same sys laws platform with_nonblock has_no_sig_pipe (fd ∷ opened w) a fd w1 e),
    create-Owns _ _ _ _ w (λ fd w1 e.
        setup_tcp-Same sys laws platform with_nonblock has_no_sig_pipe (fd ∷ opened w) a fd w1 e),
    create-Owns _ _ _ _ w (λ fd w1 e.
        setup_acceptor-Same sys laws platform with_nonblock has_no_sig_pipe (fd ∷ opened w) a fd w1
          e),
  )

  accepted-Owns :
      (w : World) (client : Option ℕ) (w1 : World) (address : List ℕ)
      → opened w1 ≡ opened_with client (opened w)
      → Ensures
          (λ (r : ℕ × List ℕ) w2. opened w2 ≡ r.0 ∷ opened w)
          (λ w2. opened w2 ≡ opened w)
          (and_then
            (found sys platform with_nonblock has_no_sig_pipe "failed to accept socket"
              (client, w1))
            (λ fd w2.
              and_then
                (owned sys platform with_nonblock has_no_sig_pipe fd
                  (setup_accepted sys platform with_nonblock has_no_sig_pipe fd w2))
                (λ f. pure (f, address))))
  accepted-Owns w none w1 address e = (λ x. cc, e)
  accepted-Owns w (some fd) w1 address e =
      Ensures-and_then (λ f w2. opened w2 ≡ f ∷ opened w) (λ w2. opened w2 ≡ opened w) _
        (λ w2. opened w2 ≡ opened w) _ _
        (owned-Owns sys laws platform with_nonblock has_no_sig_pipe w fd
          (setup_accepted sys platform with_nonblock has_no_sig_pipe fd w1)
          (Same-and_then sys laws platform with_nonblock has_no_sig_pipe (fd ∷ opened w)
            (set_no_sig_pipe sys platform with_nonblock has_no_sig_pipe fd w1) _
            (set_no_sig_pipe-Same sys laws platform with_nonblock has_no_sig_pipe (fd ∷ opened w) fd
              w1 e)
            (λ _ w2 e2.
              set_nonblocking-Same sys laws platform with_nonblock has_no_sig_pipe (fd ∷ opened w)
                fd w2 e2)))
        (λ f w2 q. q) (λ w2 q. q)

  accept-OwnsPeer :
      (fd : ℕ) (w w2 : World)
      → opened w2 ≡ opened w
      → OwnsPeer sys laws w (
          and_then
            (accept_now sys platform with_nonblock has_no_sig_pipe fd w2)
            (λ r. pure (some r)))
  unfolding accept_now
  accept-OwnsPeer fd w w2 e2 = some_peer _ (
      accepted-Owns w (sys.accept fd w2).0 (sys.accept fd w2).2 (sys.accept fd w2).1
        (laws.accept_opened fd w2 ∙ ap (opened_with (sys.accept fd w2).0) e2))
    where
      some_peer :
          (m : Result (ℕ × List ℕ) × World)
          → Ensures
              (λ (r : ℕ × List ℕ) w3. opened w3 ≡ r.0 ∷ opened w)
              (λ w3. opened w3 ≡ opened w)
              m
          → OwnsPeer sys laws w (and_then m (λ r. pure (some r)))
      some_peer (ok r, w3) h = h
      some_peer (err x, w3) h = h

  pub wait_readable-Same :
      (l : List ℕ) (fd : ℕ) (t : ℤ) (w : World)
      → opened w ≡ l
      → Same sys laws l (wait_readable sys fd t w)
  unfolding wait_readable
  wait_readable-Same l fd t w e = polled _ _ _ (laws.poll_opened _ _ w ∙ e)
    where
      polled :
          (message : String) (r : ℤ) (w1 : World)
          → opened w1 ≡ l
          → Same sys laws l (poll_result sys message r w1)
      polled message (pos n) w1 e1 = e1
      polled message (negsuc n) w1 e1 = (λ x. cc, e1)

  -- Listening and accepting with any timeout comes to an end with one more descriptor open, that of
  -- the accepted socket; or with just those open that were, if the time is up or it throws.
  pub listen_accept-OwnsPeer :
      (fd : ℕ) (t : ℤ) (w : World)
      → OwnsPeer sys laws w (listen_accept sys platform with_nonblock has_no_sig_pipe fd t w)
  unfolding listen_accept accept_now
  listen_accept-OwnsPeer fd t w =
      Ensures-and_then (λ _ w1. opened w1 ≡ opened w) (λ w1. opened w1 ≡ opened w) _
        (λ w1. opened w1 ≡ opened w) (listen_on sys platform with_nonblock has_no_sig_pipe fd w) _
        (checked-Same sys laws platform with_nonblock has_no_sig_pipe (opened w) _
          (sys.listen fd 128 w) (laws.listen_opened fd 128 w))
        (λ _ w1 e1.
          Ensures-and_then (λ _ w2. opened w2 ≡ opened w) (λ w2. opened w2 ≡ opened w) _
            (λ w2. opened w2 ≡ opened w) (wait_readable sys fd t w1) _
            (wait_readable-Same (opened w) fd t w1 e1)
            (elim [ false ↦ λ w2 e2. e2 | true ↦ λ w2 e2. accept-OwnsPeer fd w w2 e2 ]) (λ w2 q. q))
        (λ w1 q. q)
