-- ===== src/Endpoint/Setup.antt =====
-- The steps by which src/socket_impl.cpp sets up a socket open and close no descriptor, and an object
-- that owns a descriptor closes it if the rest of its constructor throws.
use sockpuppet.Base.{
  ℕ, ◌≡◌, ap, ◌∙◌, Bool, true, false, List, ◌∷◌, Option, none, some, ◌==◌, ==_refl, if◌then◌else◌,
  Result, ok, err, Action, pure, and_then, Ensures, Ensures-and_then, String,
}
use sockpuppet.Base.Int.{ℤ}
use sockpuppet.Base.Sequence.{remove_first}
use sockpuppet.Os.{Sys, SockOpt, reuse_addr, broadcast, no_sig_pipe, Pollfd}
use sockpuppet.Address.{
  Address, Platform, for_tcp, for_udp, info, storage, find, AddrInfo, or_invalid,
}
use sockpuppet.Endpoint.{
  checked, found, given, connect_to, bind_to, set_option, set_no_sig_pipe, set_nonblocking, owned,
  setup_udp, setup_tcp, setup_acceptor,
}

abbrev pub opened_with : Option ℕ → List ℕ → List ℕ
opened_with none fds = fds
opened_with (some fd) fds = fd ∷ fds

-- The open descriptors: `socket` and `accept` open the one that they return, `close` closes its own.
pub record DescriptorLaws (sys : Sys) : Type 0 where
  pub opened : sys.World → List ℕ
  pub socket_opened :
      (f t p : ℕ) (w : sys.World)
      → opened (sys.socket f t p w).1 ≡ opened_with (sys.socket f t p w).0 (opened w)
  pub accept_opened :
      (fd : ℕ) (w : sys.World)
      → opened (sys.accept fd w).2 ≡ opened_with (sys.accept fd w).0 (opened w)
  pub close_opened :
      (fd : ℕ) (w : sys.World) → opened (sys.close fd w) ≡ remove_first (λ x. x == fd) (opened w)
  pub connect_opened :
      (fd : ℕ) (a : List ℕ) (w : sys.World) → opened (sys.connect fd a w).1 ≡ opened w
  pub bind_opened : (fd : ℕ) (a : List ℕ) (w : sys.World) → opened (sys.bind fd a w).1 ≡ opened w
  pub listen_opened : (fd n : ℕ) (w : sys.World) → opened (sys.listen fd n w).1 ≡ opened w
  pub get_flags_opened : (fd : ℕ) (w : sys.World) → opened (sys.get_flags fd w).1 ≡ opened w
  pub set_flags_opened : (fd n : ℕ) (w : sys.World) → opened (sys.set_flags fd n w).1 ≡ opened w
  pub setsockopt_opened :
      (fd : ℕ) (o : SockOpt) (n : ℕ) (w : sys.World) → opened (sys.setsockopt fd o n w).1 ≡ opened w
  pub getsockname_opened : (fd : ℕ) (w : sys.World) → opened (sys.getsockname fd w).1 ≡ opened w
  pub poll_opened : (p : List Pollfd) (t : ℤ) (w : sys.World) → opened (sys.poll p t w).2 ≡ opened w

module _ (sys : Sys) (laws : DescriptorLaws sys) where
  open sys use {World}
  open laws use {opened}

  -- The code ends with the same descriptors open, also if it throws.
  abbrev pub Same : {A : Type 0} → List ℕ → Result A × World → Type 0
  Same l m = Ensures (λ _ w. opened w ≡ l) (λ w. opened w ≡ l) m

  -- The code ends, with one more descriptor open, which it returns; or with the same, if it throws.
  abbrev pub Owns : World → Result ℕ × World → Type 0
  Owns w m = Ensures (λ fd w1. opened w1 ≡ fd ∷ opened w) (λ w1. opened w1 ≡ opened w) m

  abbrev pub OwnsPeer : World → Result (Option (ℕ × List ℕ)) × World → Type 0
  OwnsPeer w m =
      Ensures (λ r w1. opened w1 ≡ elim r [ none ↦ opened w | some p ↦ p.0 ∷ opened w ])
        (λ w1. opened w1 ≡ opened w) m

module _ (sys : Sys) (laws : DescriptorLaws sys) (platform : Platform) (with_nonblock : ℕ → ℕ)
    (has_no_sig_pipe : Bool) where
  open sys use {World}
  open laws use {opened}

  pub Same-and_then :
      {A B : Type 0} (l : List ℕ) (m : Result A × World) (f : A → Action World B)
      → Same sys laws l m
      → ((a : A) (w : World) → opened w ≡ l → Same sys laws l (f a w))
      → Same sys laws l (and_then m f)
  Same-and_then l m f h k =
      Ensures-and_then (λ _ w. opened w ≡ l) (λ w. opened w ≡ l) (λ _ w. opened w ≡ l)
        (λ w. opened w ≡ l) m f h k (λ w q. q)

  pub checked-Same :
      (l : List ℕ) (message : String) (m : Bool × World)
      → opened m.1 ≡ l
      → Same sys laws l (checked sys platform with_nonblock has_no_sig_pipe message m)
  checked-Same l message (true, w) e = e
  checked-Same l message (false, w) e = (λ x. cc, e)

  pub found-Same :
      {A : Type 0} (l : List ℕ) (message : String) (m : Option A × World)
      → opened m.1 ≡ l
      → Same sys laws l (found sys platform with_nonblock has_no_sig_pipe message m)
  found-Same l message (some a, w) e = e
  found-Same l message (none, w) e = (λ x. cc, e)

  pub set_nonblocking-Same :
      (l : List ℕ) (fd : ℕ) (w : World)
      → opened w ≡ l
      → Same sys laws l (set_nonblocking sys platform with_nonblock has_no_sig_pipe fd w)
  set_nonblocking-Same l fd w e =
      Same-and_then l (found sys platform with_nonblock has_no_sig_pipe _ (sys.get_flags fd w)) _
        (found-Same l _ (sys.get_flags fd w) (laws.get_flags_opened fd w ∙ e))
        λ flags w1 e1.
          checked-Same l _ (sys.set_flags fd (with_nonblock flags) w1)
            (laws.set_flags_opened fd _ w1 ∙ e1)

  pub set_option-Same :
      (l : List ℕ) (fd : ℕ) (o : SockOpt) (message : String) (w : World)
      → opened w ≡ l
      → Same sys laws l (set_option sys platform with_nonblock has_no_sig_pipe fd o message w)
  set_option-Same l fd o message w e =
      checked-Same l message (sys.setsockopt fd o 1 w) (laws.setsockopt_opened fd o 1 w ∙ e)

  pub set_no_sig_pipe-Same :
      (l : List ℕ) (fd : ℕ) (w : World)
      → opened w ≡ l
      → Same sys laws l (set_no_sig_pipe sys platform with_nonblock has_no_sig_pipe fd w)
  set_no_sig_pipe-Same l fd w e = inner has_no_sig_pipe
    where
      inner :
          (b : Bool)
          → Same sys laws l (
              if b
              then set_option sys platform with_nonblock has_no_sig_pipe fd no_sig_pipe
                  "failed to set socket option non-SIGPIPE" w
              else pure tt w)
      inner true = set_option-Same l fd no_sig_pipe _ w e
      inner false = e

  -- An address may be invalid for the kind of socket, which throws a logic error.
  pub or_invalid-Same :
      (l : List ℕ) (message : String) (o : Option AddrInfo) (f : List ℕ → Action World (Unit {0}))
      (w : World)
      → ((b : List ℕ) → Same sys laws l (f b w))
      → opened w ≡ l
      → Same sys laws l
          (given sys platform with_nonblock has_no_sig_pipe (or_invalid message o) f w)
  or_invalid-Same l message (some it) f w k e = k it.addr
  or_invalid-Same l message none f w k e = (λ x. cc, e)

  pub for_udp-Same :
      (l : List ℕ) (a : Address) (f : List ℕ → Action World (Unit {0})) (w : World)
      → ((b : List ℕ) → Same sys laws l (f b w))
      → opened w ≡ l
      → Same sys laws l (given sys platform with_nonblock has_no_sig_pipe (for_udp platform a) f w)
  unfolding for_udp
  for_udp-Same l (storage family bytes) f w k e = k bytes
  for_udp-Same l (info it next) f w k e = or_invalid-Same l _ (find _ _ (it ∷ next)) f w k e

  pub for_tcp-Same :
      (l : List ℕ) (a : Address) (f : List ℕ → Action World (Unit {0})) (w : World)
      → ((b : List ℕ) → Same sys laws l (f b w))
      → opened w ≡ l
      → Same sys laws l (given sys platform with_nonblock has_no_sig_pipe (for_tcp platform a) f w)
  unfolding for_tcp
  for_tcp-Same l (storage family bytes) f w k e = k bytes
  for_tcp-Same l (info it next) f w k e = or_invalid-Same l _ (find _ _ (it ∷ next)) f w k e

  pub bind-Same :
      (l : List ℕ) (fd : ℕ) (a : List ℕ) (w : World)
      → opened w ≡ l
      → Same sys laws l (bind_to sys platform with_nonblock has_no_sig_pipe fd a w)
  bind-Same l fd a w e = checked-Same l _ (sys.bind fd a w) (laws.bind_opened fd a w ∙ e)

  pub setup_udp-Same :
      (l : List ℕ) (a : Address) (fd : ℕ) (w : World)
      → opened w ≡ l
      → Same sys laws l (setup_udp sys platform with_nonblock has_no_sig_pipe a fd w)
  setup_udp-Same l a fd w e =
      Same-and_then l
        (given sys platform with_nonblock has_no_sig_pipe (for_udp platform a)
          (bind_to sys platform with_nonblock has_no_sig_pipe fd) w)
        _ (for_udp-Same l a _ w (λ b. bind-Same l fd b w e) e)
        λ _ w1 e1.
          Same-and_then l (set_option sys platform with_nonblock has_no_sig_pipe fd broadcast _ w1)
            _ (set_option-Same l fd broadcast _ w1 e1) (λ _ w2 e2. set_nonblocking-Same l fd w2 e2)

  pub setup_tcp-Same :
      (l : List ℕ) (a : Address) (fd : ℕ) (w : World)
      → opened w ≡ l
      → Same sys laws l (setup_tcp sys platform with_nonblock has_no_sig_pipe a fd w)
  setup_tcp-Same l a fd w e =
      Same-and_then l (set_no_sig_pipe sys platform with_nonblock has_no_sig_pipe fd w) _
        (set_no_sig_pipe-Same l fd w e)
        λ _ w1 e1.
          Same-and_then l
            (given sys platform with_nonblock has_no_sig_pipe (for_tcp platform a)
              (connect_to sys platform with_nonblock has_no_sig_pipe fd) w1)
            _
            (for_tcp-Same l a _ w1
              (λ b. checked-Same l _ (sys.connect fd b w1) (laws.connect_opened fd b w1 ∙ e1)) e1)
            (λ _ w2 e2. set_nonblocking-Same l fd w2 e2)

  pub setup_acceptor-Same :
      (l : List ℕ) (a : Address) (fd : ℕ) (w : World)
      → opened w ≡ l
      → Same sys laws l (setup_acceptor sys platform with_nonblock has_no_sig_pipe a fd w)
  setup_acceptor-Same l a fd w e =
      Same-and_then l (set_option sys platform with_nonblock has_no_sig_pipe fd reuse_addr _ w) _
        (set_option-Same l fd reuse_addr _ w e)
        λ _ w1 e1.
          Same-and_then l
            (given sys platform with_nonblock has_no_sig_pipe (for_tcp platform a)
              (bind_to sys platform with_nonblock has_no_sig_pipe fd) w1)
            _ (for_tcp-Same l a _ w1 (λ b. bind-Same l fd b w1 e1) e1)
            (λ _ w2 e2. set_nonblocking-Same l fd w2 e2)

  pub owned-Owns :
      (w : World) (fd : ℕ) (m : Result (Unit {0}) × World)
      → Same sys laws (fd ∷ opened w) m
      → Owns sys laws w (owned sys platform with_nonblock has_no_sig_pipe fd m)
  owned-Owns w fd (ok u, w1) h = h
  owned-Owns w fd (err x, w1) h =
      (h.0, laws.close_opened fd w1 ∙ (ap (remove_first (λ y. y == fd)) h.1 ∙ rw (==_refl fd)))
