-- ===== src/Tls/Public/Balance.antt =====
-- The constructors with certificates of src/socket.cpp leak nothing, whichever call fails.
use sockpuppet.Base.{
  ℕ, ◌≡◌, refl, subst, ap, ◌∙◌, Bool, true, false, Option, none, some, Result, ok, err, List,
  Action, and_then, pure,
}
use sockpuppet.Base.Int.{ℤ}
use sockpuppet.Os.{Sys}
use sockpuppet.Wait.{wait_readable}
use sockpuppet.Address.{Address, Platform, for_tcp}
use sockpuppet.Endpoint.{
  connect_to, listen_on, set_no_sig_pipe, set_nonblocking, setup_acceptor, setup_accepted,
}
use sockpuppet.Endpoint.Setup.{
  DescriptorLaws, Same, Same-and_then, checked-Same, set_nonblocking-Same, set_no_sig_pipe-Same,
  setup_acceptor-Same,
}
use sockpuppet.Endpoint.Descriptors.{wait_readable-Same}
use sockpuppet.Tls.Construct.{Crypto, Process, socket_tls, acceptor_tls, tls_accept}
use sockpuppet.Tls.Construct.Ledger.{
  CryptoLaws, Level, with_context, with_descriptor, with_instance, level, Ends, Ends-and_then,
  at_world,
}
use sockpuppet.Tls.Construct.Balance.{tls_constructors-Ends}
use sockpuppet.Tls.Public.{
  Host, system, destroy_tls, destroy_acceptor, set_up, tls_connect_given, setup_tls_tcp,
  tls_socket_tcp, tls_acceptor, accepted_tcp, tls_accept_tcp, tls_listen,
}
use sockpuppet.Tls.Public.Undo.{
  HostLaws, EndsSome, with_socket, system-Ends, set_up-Ends, set_up_socket-Ends,
  destroy_acceptor-level, Ends-EndsSome, and_then-EndsSome,
}

module _ (sys : Sys) (platform : Platform) (with_nonblock : ℕ → ℕ) (has_no_sig_pipe : Bool)
    (crypto : Crypto) (host : Host sys crypto) (opened : DescriptorLaws sys)
    (laws : CryptoLaws crypto) (kept : HostLaws opened laws host) where
  abbrev St : Type 0
  St = Process crypto.World

  connect-Ends :
      (l : Level) (h : ℕ × ℕ) (a : Result (List ℕ)) (s : St)
      → level crypto laws s ≡ l
      → Ends crypto laws l l
          (tls_connect_given sys platform with_nonblock has_no_sig_pipe crypto host h a s)
  connect-Ends l h (err e) s q = q
  connect-Ends l h (ok a) s q =
      Ends-and_then crypto laws l l l _ _
        (system-Ends sys platform with_nonblock has_no_sig_pipe crypto host opened laws kept l
          (connect_to sys platform with_nonblock has_no_sig_pipe h.0 a) s
          (λ v.
            checked-Same sys opened platform with_nonblock has_no_sig_pipe _ _ (sys.connect h.0 a v)
              (opened.connect_opened h.0 a v))
          q)
        (λ _ t e.
          at_world crypto laws t l _ l.1 e
            (laws.set_connect_state_held h.1 t.world ∙ ap (λ (p : Level). p.1) e))

  setup_tls_tcp-Ends :
      (l : Level) (a : Address) (h : ℕ × ℕ) (s : St)
      → level crypto laws s ≡ l
      → Ends crypto laws l l
          (setup_tls_tcp sys platform with_nonblock has_no_sig_pipe crypto host a h s)
  setup_tls_tcp-Ends l a h s q =
      Ends-and_then crypto laws l l l _ _
        (system-Ends sys platform with_nonblock has_no_sig_pipe crypto host opened laws kept l
          (set_no_sig_pipe sys platform with_nonblock has_no_sig_pipe h.0) s
          (λ v. set_no_sig_pipe-Same sys opened platform with_nonblock has_no_sig_pipe _ h.0 v refl)
          q)
        λ _ s1 q1.
          Ends-and_then crypto laws l l l _ _ (connect-Ends l h (for_tcp platform a) s1 q1)
            λ _ s2 q2.
              system-Ends sys platform with_nonblock has_no_sig_pipe crypto host opened laws kept l
                (set_nonblocking sys platform with_nonblock has_no_sig_pipe h.0) s2
                (λ v.
                  set_nonblocking-Same sys opened platform with_nonblock has_no_sig_pipe _ h.0 v
                    refl)
                q2

  setup_accepted-Same :
      (fd : ℕ) (v : sys.World)
      → Same sys opened
          (opened.opened v)
          (setup_accepted sys platform with_nonblock has_no_sig_pipe fd v)
  setup_accepted-Same fd v =
      Same-and_then sys opened platform with_nonblock has_no_sig_pipe (opened.opened v)
        (set_no_sig_pipe sys platform with_nonblock has_no_sig_pipe fd v) _
        (set_no_sig_pipe-Same sys opened platform with_nonblock has_no_sig_pipe _ fd v refl)
        (λ _ w e. set_nonblocking-Same sys opened platform with_nonblock has_no_sig_pipe _ fd w e)

  abbrev setup_peer : ℕ × ℕ → Action St (Unit {0})
  setup_peer h =
      system sys platform with_nonblock has_no_sig_pipe crypto host
        (setup_accepted sys platform with_nonblock has_no_sig_pipe h.0)

  peer-Ends :
      (l : Level) (c : (ℕ × ℕ) × List ℕ) (s : St)
      → level crypto laws s ≡ with_socket l
      → Ends crypto laws
          (with_socket l)
          l
          (accepted_tcp sys platform with_nonblock has_no_sig_pipe crypto host c s)
  peer-Ends l c s q =
      Ends-and_then crypto laws (with_socket l) (with_socket l) l
        (set_up sys platform with_nonblock has_no_sig_pipe crypto host
          (destroy_tls sys platform with_nonblock has_no_sig_pipe crypto host) setup_peer c.0 s)
        _
        (set_up_socket-Ends sys platform with_nonblock has_no_sig_pipe crypto host opened laws kept
          l setup_peer c.0 s
          (system-Ends sys platform with_nonblock has_no_sig_pipe crypto host opened laws kept
            (with_socket l) (setup_accepted sys platform with_nonblock has_no_sig_pipe c.0.0) s
            (setup_accepted-Same c.0.0) q))
        (λ _ t e. e)

  accept_tcp-Ends :
      (l : Level) (fd ctx : ℕ) (s : St)
      → level crypto laws s ≡ l
      → Ends crypto laws
          (with_socket l)
          l
          (tls_accept_tcp sys platform with_nonblock has_no_sig_pipe crypto host fd ctx s)
  unfolding tls_accept_tcp
  accept_tcp-Ends l fd ctx s q =
      subst
        (λ (k : Level).
          Ends crypto laws (with_socket k) k
            (tls_accept_tcp sys platform with_nonblock has_no_sig_pipe crypto host fd ctx s))
        q
        (Ends-and_then crypto laws _ _ _ (tls_accept crypto fd ctx s) _
          (tls_constructors-Ends crypto laws fd ctx s).2 (peer-Ends (level crypto laws s)))

  accepting-Ends :
      (l : Level) (fd ctx : ℕ) (readable : Bool) (s : St)
      → level crypto laws s ≡ l
      → EndsSome crypto laws
          (with_socket l)
          l
          (elim readable as (λ _. Result (Option ((ℕ × ℕ) × List ℕ)) × St) [
            | false ↦ pure none s
            | true ↦
                and_then
                  (tls_accept_tcp sys platform with_nonblock has_no_sig_pipe crypto host fd ctx s)
                  (λ r. pure (some r))
          ])
  accepting-Ends l fd ctx false s q = q
  accepting-Ends l fd ctx true s q =
      Ends-EndsSome crypto laws (with_socket l) l
        (tls_accept_tcp sys platform with_nonblock has_no_sig_pipe crypto host fd ctx s)
        (accept_tcp-Ends l fd ctx s q)

  listen-Ends :
      (l : Level) (fd ctx : ℕ) (t : ℤ) (s : St)
      → level crypto laws s ≡ l
      → EndsSome crypto laws
          (with_socket l)
          l
          (tls_listen sys platform with_nonblock has_no_sig_pipe crypto host fd ctx t s)
  unfolding tls_listen
  listen-Ends l fd ctx t s q =
      and_then-EndsSome crypto laws _ l
        (system sys platform with_nonblock has_no_sig_pipe crypto host
          (listen_on sys platform with_nonblock has_no_sig_pipe fd) s)
        _
        (system-Ends sys platform with_nonblock has_no_sig_pipe crypto host opened laws kept l
          (listen_on sys platform with_nonblock has_no_sig_pipe fd) s
          (λ v.
            checked-Same sys opened platform with_nonblock has_no_sig_pipe _ _ (sys.listen fd 128 v)
              (opened.listen_opened fd 128 v))
          q)
        λ _ s1 q1.
          and_then-EndsSome crypto laws _ l
            (system sys platform with_nonblock has_no_sig_pipe crypto host (wait_readable sys fd t)
              s1)
            _
            (system-Ends sys platform with_nonblock has_no_sig_pipe crypto host opened laws kept l
              (wait_readable sys fd t) s1
              (λ v.
                wait_readable-Same sys opened platform with_nonblock has_no_sig_pipe _ fd t v refl)
              q1)
            (accepting-Ends l fd ctx)

  -- With certificates, the constructors of a TCP socket and of an acceptor end with one instance and one
  -- descriptor more than before, and with just one more session, or context for the acceptor; or they
  -- throw, and all that they made is gone. Listening with any timeout ends with one more instance,
  -- descriptor and session, those of the accepted socket; or with none, if the time is up or it throws.
  pub tls_api-Ends :
      (a : Address) (fd ctx : ℕ) (t : ℤ) (s : St)
      → let l = level crypto laws s in
        Ends crypto laws
          (with_socket l)
          l
          (tls_socket_tcp sys platform with_nonblock has_no_sig_pipe crypto host a s)
        × Ends crypto laws
            (with_context (with_instance (with_descriptor l)))
            l
            (tls_acceptor sys platform with_nonblock has_no_sig_pipe crypto host a s)
        × EndsSome crypto laws
            (with_socket l)
            l
            (tls_listen sys platform with_nonblock has_no_sig_pipe crypto host fd ctx t s)
  unfolding tls_socket_tcp tls_acceptor
  tls_api-Ends a fd ctx t s = (
    Ends-and_then crypto laws _ _ _ (socket_tls crypto s) _
        (tls_constructors-Ends crypto laws fd ctx s).0
        λ h s1 q.
          set_up_socket-Ends sys platform with_nonblock has_no_sig_pipe crypto host opened laws kept
            (level crypto laws s)
            (setup_tls_tcp sys platform with_nonblock has_no_sig_pipe crypto host a) h s1
            (setup_tls_tcp-Ends _ a h s1 q),
    Ends-and_then crypto laws _ _ _ (acceptor_tls crypto s) _
        (tls_constructors-Ends crypto laws fd ctx s).1
        λ h s1 q.
          set_up-Ends sys platform with_nonblock has_no_sig_pipe crypto host opened laws kept
            (with_context (with_instance (with_descriptor (level crypto laws s))))
            (level crypto laws s)
            (destroy_acceptor sys platform with_nonblock has_no_sig_pipe crypto host)
            (λ k.
              system sys platform with_nonblock has_no_sig_pipe crypto host
                (setup_acceptor sys platform with_nonblock has_no_sig_pipe a k.0))
            h s1
            (system-Ends sys platform with_nonblock has_no_sig_pipe crypto host opened laws kept _
              (setup_acceptor sys platform with_nonblock has_no_sig_pipe a h.0) s1
              (λ v.
                setup_acceptor-Same sys opened platform with_nonblock has_no_sig_pipe _ a h.0 v
                  refl)
              q)
            (destroy_acceptor-level sys platform with_nonblock has_no_sig_pipe crypto host opened
              laws kept (level crypto laws s) h),
    listen-Ends (level crypto laws s) fd ctx t s refl,
  )
