-- ===== src/Tls/Public/Undo.antt =====
-- What the destructors of src/socket_tls_impl.cpp give back when a constructor of src/socket.cpp throws.
use sockpuppet.Base.{
  ℕ, ◌≡◌, ap, ◌∙◌, Bool, Option, none, some, Result, ok, err, List, Action, and_then, pure,
}
use sockpuppet.Os.{Sys}
use sockpuppet.Address.{Platform}
use sockpuppet.Endpoint.Setup.{DescriptorLaws, Same}
use sockpuppet.Tls.Construct.{Crypto, Process}
use sockpuppet.Tls.Construct.Ledger.{
  CryptoLaws, Level, with_context, with_session, with_descriptor, with_instance, level, Ends,
  Ends-and_then, Ends-or_undo, at_world,
}
use sockpuppet.Tls.Construct.Handles.{free_context, free_session, close_descriptor}
use sockpuppet.Tls.Construct.Balance.{uncounted}
use sockpuppet.Tls.Public.{Host, system, destroy_tls, destroy_acceptor, set_up}

-- A call of the system that opens and closes no descriptor leaves the handles as they are, and so does
-- the shutdown of a session.
pub record HostLaws {sys : Sys} {crypto : Crypto} (opened : DescriptorLaws sys)
    (laws : CryptoLaws crypto) (host : Host sys crypto) : Type 1 where
  pub on_sys_held :
      {A : Type 0} (m : Action sys.World A) (w : crypto.World)
      → ((v : sys.World) → opened.opened (m v).1 ≡ opened.opened v)
      → laws.held (host.on_sys m w).1 ≡ laws.held w
  pub shut_down_held : (h : ℕ) (w : crypto.World) → laws.held (host.shut_down h w).1 ≡ laws.held w

-- The level with one TLS socket more.
abbrev pub with_socket : Level → Level
with_socket l = with_session (with_instance (with_descriptor l))

module _ (crypto : Crypto) (laws : CryptoLaws crypto) where
  -- The code succeeds with something at one level of instances and handles, or ends at another.
  abbrev pub EndsSome :
      {A : Type 0} → Level → Level → Result (Option A) × Process crypto.World → Type 0
  EndsSome l k (ok (some a), s) = level crypto laws s ≡ l
  EndsSome l k (ok none, s) = level crypto laws s ≡ k
  EndsSome l k (err e, s) = level crypto laws s ≡ k

  pub Ends-EndsSome :
      {A : Type 0} (l k : Level) (r : Result A × Process crypto.World)
      → Ends crypto laws l k r
      → EndsSome l k (and_then r (λ a. pure (some a)))
  Ends-EndsSome l k (ok a, s) h = h
  Ends-EndsSome l k (err e, s) h = h

  pub and_then-EndsSome :
      {A B : Type 0} (l k : Level) (r : Result A × Process crypto.World)
      (f : A → Action (Process crypto.World) (Option B))
      → Ends crypto laws k k r
      → ((a : A) (s : Process crypto.World) → level crypto laws s ≡ k → EndsSome l k (f a s))
      → EndsSome l k (and_then r f)
  and_then-EndsSome l k (ok a, s) f h g = g a s h
  and_then-EndsSome l k (err e, s) f h g = h

Same-opened :
    {A : Type 0} (sys : Sys) (laws : DescriptorLaws sys) (l : List ℕ) (m : Result A × sys.World)
    → Same sys laws l m
    → laws.opened m.1 ≡ l
Same-opened sys laws l (ok a, w) h = h
Same-opened sys laws l (err e, w) h = h.1

module _ (sys : Sys) (platform : Platform) (with_nonblock : ℕ → ℕ) (has_no_sig_pipe : Bool)
    (crypto : Crypto) (host : Host sys crypto) (opened : DescriptorLaws sys)
    (laws : CryptoLaws crypto) (kept : HostLaws opened laws host) where
  open laws use {held}

  abbrev St : Type 0
  St = Process crypto.World

  pub system-Ends :
      {A : Type 0} (l : Level) (m : Action sys.World A) (s : St)
      → ((v : sys.World) → Same sys opened (opened.opened v) (m v))
      → level crypto laws s ≡ l
      → Ends crypto laws l l (system sys platform with_nonblock has_no_sig_pipe crypto host m s)
  system-Ends l m s same q =
      go (host.on_sys m s.world)
        (kept.on_sys_held m s.world (λ v. Same-opened sys opened _ (m v) (same v)))
    where
      go :
          {A : Type 0} (r : Result A × crypto.World)
          → held r.1 ≡ held s.world
          → Ends crypto laws l l (r.0, record s { world = r.1 })
      go (ok a, w) e = at_world crypto laws s l w l.1 q (e ∙ ap (λ (p : Level). p.1) q)
      go (err x, w) e = at_world crypto laws s l w l.1 q (e ∙ ap (λ (p : Level). p.1) q)

  -- The destructor of a TLS socket gives back its session, its instance and its descriptor.
  pub destroy_tls-level :
      (l : Level) (h : ℕ × ℕ) (s : St)
      → level crypto laws s ≡ with_session (with_instance (with_descriptor l))
      → level crypto laws (destroy_tls sys platform with_nonblock has_no_sig_pipe crypto host h s)
        ≡ l
  destroy_tls-level l h s q = close_descriptor crypto laws l h.0 _ (
      uncounted crypto laws (with_descriptor l) _ (
        free_session crypto laws (with_instance (with_descriptor l)) h.1 _ (
          at_world crypto laws s (with_session (with_instance (with_descriptor l))) _ _ q
            (kept.shut_down_held h.1 s.world ∙ ap (λ (p : Level). p.1) q))))

  pub destroy_acceptor-level :
      (l : Level) (h : ℕ × ℕ) (s : St)
      → level crypto laws s ≡ with_context (with_instance (with_descriptor l))
      → level crypto laws
          (destroy_acceptor sys platform with_nonblock has_no_sig_pipe crypto host h s)
        ≡ l
  destroy_acceptor-level l h s q = close_descriptor crypto laws l h.0 _ (
      uncounted crypto laws (with_descriptor l) _
        (free_context crypto laws (with_instance (with_descriptor l)) h.1 s q))

  pub set_up-Ends :
      (l k : Level) (undo : ℕ × ℕ → St → St) (setup : ℕ × ℕ → Action St (Unit {0})) (h : ℕ × ℕ)
      (s : St)
      → Ends crypto laws l l (setup h s)
      → ((t : St) → level crypto laws t ≡ l → level crypto laws (undo h t) ≡ k)
      → Ends crypto laws l k
          (set_up sys platform with_nonblock has_no_sig_pipe crypto host undo setup h s)
  set_up-Ends l k undo setup h s e f =
      Ends-or_undo crypto laws l l k (undo h) _
        (Ends-and_then crypto laws l l l (setup h s) _ e (λ _ t q. q)) f

  pub set_up_socket-Ends :
      (l : Level) (setup : ℕ × ℕ → Action St (Unit {0})) (h : ℕ × ℕ) (s : St)
      → Ends crypto laws (with_socket l) (with_socket l) (setup h s)
      → Ends crypto laws (with_socket l) l (
          set_up sys platform with_nonblock has_no_sig_pipe crypto host
            (destroy_tls sys platform with_nonblock has_no_sig_pipe crypto host)
            setup
            h
            s)
  set_up_socket-Ends l setup h s e =
      set_up-Ends (with_socket l) l
        (destroy_tls sys platform with_nonblock has_no_sig_pipe crypto host) setup h s e
        (destroy_tls-level l h)
