-- ===== src/Tls/Construct/Balance.antt =====
-- The constructors of src/socket_tls_impl.cpp leak nothing, whichever call of the system or of the TLS
-- library fails.
use sockpuppet.Base.{
  ℕ, suc, ◌≡◌, refl, ap, ap₂, ◌∙◌, Bool, true, false, if◌then◌else◌, Result, ok, err, List, Action,
  and_then, arith,
}
use sockpuppet.Base.Int.{ℤ, pos, negsuc, ◌+ℤ◌}
use sockpuppet.Tls.Construct.{
  Crypto, Process, client, server, doing, update_instance_count, finally, create_ctx, create_ssl,
  guarded, created, socket_tls, socket_tls_accepted, acceptor_tls, accepted, tls_accept,
}
use sockpuppet.Tls.Construct.Ledger.{
  Held, CryptoLaws, count_ok, Level, with_context, with_session, with_descriptor, with_instance,
  level, Ends, Ends-and_then, Ends-or_undo, Ends-finally, at_world,
}
use sockpuppet.Tls.Construct.Handles.{
  free_context, create_ctx-Ends, close_descriptor, create_ssl-Ends,
}

back_one : (n : ℤ) → n +ℤ pos 1 +ℤ negsuc 0 ≡ n
unfolding ◌+ℤ◌
back_one (pos n) = ground arith
back_one (negsuc n) = ground arith

module _ (crypto : Crypto) (laws : CryptoLaws crypto) where
  open crypto use {World}
  open laws use {held}

  same_held :
      (b c : Bool) (w : World)
      → held (if b then crypto.init w else (if c then crypto.cleanup w else w)) ≡ held w
  same_held true c w = laws.init_held w
  same_held false true w = laws.cleanup_held w
  same_held false false w = refl

  counted :
      (l : Level) (s : Process World)
      → level crypto laws s ≡ l
      → level crypto laws (update_instance_count crypto (pos 1) s) ≡ with_instance l
  unfolding update_instance_count
  counted l s q =
      ap₂ (λ c h. (c +ℤ pos 1, h)) (ap (λ (p : Level). p.0) q)
        (same_held _ _ s.world ∙ ap (λ (p : Level). p.1) q)

  pub uncounted :
      (l : Level) (s : Process World)
      → level crypto laws s ≡ with_instance l
      → level crypto laws (update_instance_count crypto (negsuc 0) s) ≡ l
  unfolding update_instance_count
  uncounted l s q =
      ap₂ (λ c h. (c, h)) (ap (λ (p : Level). p.0 +ℤ negsuc 0) q ∙ back_one l.0)
        (same_held _ _ s.world ∙ ap (λ (p : Level). p.1) q)

  guarded-Ends :
      (l : Level) (up : Held → Held) (fd : ℕ) (make : Action (Process World) ℕ) (s : Process World)
      → level crypto laws s ≡ with_descriptor l
      → ((t : Process World)
          → level crypto laws t ≡ with_instance (with_descriptor l)
          → Ends crypto laws
              (l.0 +ℤ pos 1, up (with_descriptor l).1)
              (with_instance (with_descriptor l))
              (make t))
      → Ends crypto laws (l.0 +ℤ pos 1, up (with_descriptor l).1) l (guarded crypto fd make s)
  unfolding update_instance_count
  guarded-Ends l up fd make s q h =
      Ends-or_undo crypto laws (l.0 +ℤ pos 1, up (with_descriptor l).1) (with_descriptor l) l _ _
        (Ends-or_undo crypto laws (l.0 +ℤ pos 1, up (with_descriptor l).1)
          (with_instance (with_descriptor l)) (with_descriptor l) _ _
          (Ends-and_then crypto laws (l.0 +ℤ pos 1, up (with_descriptor l).1)
            (l.0 +ℤ pos 1, up (with_descriptor l).1) (with_instance (with_descriptor l)) _ _
            (h (update_instance_count crypto (pos 1) s) (counted (with_descriptor l) s q))
            (λ a t e. e))
          (uncounted (with_descriptor l)))
        (close_descriptor crypto laws l fd)

  created-Ends :
      (s : Process World)
      → Ends crypto laws
          (with_descriptor (level crypto laws s))
          (level crypto laws s)
          (created crypto s)
  created-Ends s = go (crypto.create_socket s.world) (laws.create_socket_held s.world)
    where
      go :
          (r : Result ℕ × World)
          → held r.1
            ≡ record (held s.world) { descriptors = count_ok r.0 (held s.world).descriptors }
          → Ends crypto laws
              (with_descriptor (level crypto laws s))
              (level crypto laws s)
              (r.0, record s { world = r.1 })
      go (ok fd, w) e = at_world crypto laws s (level crypto laws s) w _ refl e
      go (err x, w) e = at_world crypto laws s (level crypto laws s) w _ refl e

  make_client-Ends :
      (l : Level) (s : Process World)
      → level crypto laws s ≡ l
      → Ends crypto laws (with_session l) l (
          and_then (create_ctx crypto client s) (λ ctx s1.
            finally crypto (doing crypto (crypto.ctx_free ctx)) (create_ssl crypto ctx s1)))
  make_client-Ends l s q =
      Ends-and_then crypto laws (with_context l) (with_session l) l _ _
        (create_ctx-Ends crypto laws l client s q)
        λ ctx s1 q1.
          Ends-finally crypto laws (with_session (with_context l)) (with_session l) (with_context l)
            l _ _ (create_ssl-Ends crypto laws (with_context l) ctx s1 q1)
            (free_context crypto laws (with_session l) ctx) (free_context crypto laws l ctx)

  -- The socket of an accepted connection takes over a descriptor, which it closes again if it throws.
  pub socket_tls_accepted-Ends :
      (l : Level) (fd ctx : ℕ) (s : Process World)
      → level crypto laws s ≡ with_descriptor l
      → Ends crypto laws
          (
            l.0 +ℤ pos 1,
            record l.1 { descriptors = suc l.1.descriptors; sessions = suc l.1.sessions },
          )
          l
          (socket_tls_accepted crypto fd ctx s)
  unfolding socket_tls_accepted
  socket_tls_accepted-Ends l fd ctx s q =
      guarded-Ends l (λ h. record h { sessions = suc h.sessions }) fd _ s q
        (create_ssl-Ends crypto laws (with_instance (with_descriptor l)) ctx)

  accepted-Ends :
      (fd : ℕ) (s : Process World)
      → Ends crypto laws
          (with_descriptor (level crypto laws s))
          (level crypto laws s)
          (accepted crypto fd s)
  accepted-Ends fd s = go (crypto.accept_socket fd s.world) (laws.accept_socket_held fd s.world)
    where
      go :
          (r : Result (ℕ × List ℕ) × World)
          → held r.1
            ≡ record (held s.world) { descriptors = count_ok r.0 (held s.world).descriptors }
          → Ends crypto laws
              (with_descriptor (level crypto laws s))
              (level crypto laws s)
              (r.0, record s { world = r.1 })
      go (ok c, w) e = at_world crypto laws s (level crypto laws s) w _ refl e
      go (err x, w) e = at_world crypto laws s (level crypto laws s) w _ refl e

  -- The constructors of a TLS socket and of a TLS acceptor, and accepting a TLS connection, end with one
  -- instance and one descriptor more than before, and with just one more session, or context for the
  -- acceptor; or they throw, with every handle that they made freed and the instances as many as before.
  pub tls_constructors-Ends :
      (fd ctx : ℕ) (s : Process World)
      → Ends crypto laws
          (
            s.curr +ℤ pos 1,
            record (held s.world) {
              descriptors = suc (held s.world).descriptors;
              sessions = suc (held s.world).sessions;
            },
          )
          (level crypto laws s)
          (socket_tls crypto s)
        × Ends crypto laws
            (
              s.curr +ℤ pos 1,
              record (held s.world) {
                descriptors = suc (held s.world).descriptors;
                contexts = suc (held s.world).contexts;
              },
            )
            (level crypto laws s)
            (acceptor_tls crypto s)
        × Ends crypto laws
            (
              s.curr +ℤ pos 1,
              record (held s.world) {
                descriptors = suc (held s.world).descriptors;
                sessions = suc (held s.world).sessions;
              },
            )
            (level crypto laws s)
            (tls_accept crypto fd ctx s)
  unfolding socket_tls acceptor_tls tls_accept
  tls_constructors-Ends fd ctx s = (
    Ends-and_then crypto laws (with_descriptor (level crypto laws s)) _ (level crypto laws s) _ _
        (created-Ends s)
        λ fd s1 q.
          guarded-Ends (level crypto laws s) (λ h. record h { sessions = suc h.sessions }) fd _ s1 q
            (make_client-Ends (with_instance (with_descriptor (level crypto laws s)))),
    Ends-and_then crypto laws (with_descriptor (level crypto laws s)) _ (level crypto laws s) _ _
        (created-Ends s)
        λ fd s1 q.
          guarded-Ends (level crypto laws s) (λ h. record h { contexts = suc h.contexts }) fd _ s1 q
            (create_ctx-Ends crypto laws (with_instance (with_descriptor (level crypto laws s)))
              server),
    Ends-and_then crypto laws (with_descriptor (level crypto laws s)) _ (level crypto laws s) _ _
        (accepted-Ends fd s)
        λ c s1 q.
          Ends-and_then crypto laws _ _ (level crypto laws s) _ _
            (socket_tls_accepted-Ends (level crypto laws s) c.0 ctx s1 q)
            (λ socket s2 q2.
              at_world crypto laws s2 _ _ _ q2
                (laws.set_accept_state_held socket.1 s2.world ∙ ap (λ (p : Level). p.1) q2)),
  )
