-- ===== src/Tls/Contract.antt =====
-- A TLS socket of src/socket_tls_impl.cpp keeps what the send queue of src/socket_async_impl.cpp relies on.
use sockpuppet.Base.{
  ℕ, zero, suc, ◌≡◌, refl, ap, ◌∙◌, Bool, true, false, not, List, [], ◌==◌, Result, ok, err, Action,
  pure, and_then, Ensures, Ensures-mono, Bool-cases, inl, inr,
}
use sockpuppet.Base.Int.{ℤ, pos, negsuc}
use sockpuppet.Os.{Sys, StreamLaws}
use sockpuppet.Tls.{
  Call, Ssl, on_world, run_call, handle_last_error, handle_result, asserted, read_loop, read,
  handshake_steps_max,
}
use sockpuppet.Tls.Kept.{S}
use sockpuppet.Tls.Taken.{Leaves, SslLaws, run_call-Leaves, handle_last_error-Kept}
use sockpuppet.Tls.Operations.{tls_send_some, tls_pending, deemed_writable}
use sockpuppet.Socket.{send_to_now}
use sockpuppet.Async.{Sock}
use sockpuppet.Async.Stream.{SockLaws}
use sockpuppet.Tls.Stream.{tk, asserted-Still, tls_send-Sends}

module _ (sys : Sys) (laws : StreamLaws sys) (ssl : Ssl) (slaws : SslLaws ssl) (debug : Bool)
    (fd : ℕ) where
  open slaws use {taken}

  -- The TLS socket as the send queue calls it.
  abbrev pub tls_sock : Sock (S sys ssl debug fd)
  tls_sock = record {
    send_some = tls_send_some sys ssl debug fd;
    send_to = λ bytes addr. on_world sys ssl debug fd (send_to_now sys fd bytes addr);
    driver_pending = tls_pending sys ssl debug fd;
  }

  abbrev pub Quiet : {A : Type 0} → S sys ssl debug fd → Result A × S sys ssl debug fd → Type 0
  Quiet s =
      Ensures (λ _ s1. tk sys laws ssl slaws debug fd s1 ≡ tk sys laws ssl slaws debug fd s)
        (λ s1. tk sys laws ssl slaws debug fd s1 ≡ tk sys laws ssl slaws debug fd s)

  pub Quiet-state :
      {A : Type 0} (s : S sys ssl debug fd) (m : Result A × S sys ssl debug fd)
      → Quiet s m
      → tk sys laws ssl slaws debug fd m.1 ≡ tk sys laws ssl slaws debug fd s
  Quiet-state s (ok a, s1) e = e
  Quiet-state s (err x, s1) e = e.1

  Quiet-and_then :
      {A B : Type 0} (s : S sys ssl debug fd) (m : Result A × S sys ssl debug fd)
      (f : A → Action (S sys ssl debug fd) B)
      → Quiet s m
      → ((a : A) (s1 : S sys ssl debug fd) → Quiet s1 (f a s1))
      → Quiet s (and_then m f)
  Quiet-and_then s (ok a, s1) f q k =
      Ensures-mono _ _ _ _ (f a s1) (k a s1) (λ b s2 e. e ∙ q) (λ s2 e. e ∙ q)
  Quiet-and_then s (err x, s1) f q k = q

  run_call-Quiet :
      {R : Type 0} (c : Call ssl.Session R) (s : S sys ssl debug fd)
      → Leaves
          (λ _ y. taken y ≡ tk sys laws ssl slaws debug fd s)
          (λ y. taken y ≡ tk sys laws ssl slaws debug fd s)
          c
      → Quiet s (run_call sys ssl debug fd c s)
  run_call-Quiet c s l =
      run_call-Leaves sys laws ssl debug fd (λ _ y. taken y ≡ tk sys laws ssl slaws debug fd s)
        (λ y. taken y ≡ tk sys laws ssl slaws debug fd s) c s l

  handled-Quiet : (s : S sys ssl debug fd) → Quiet s (handle_last_error sys ssl debug fd s)
  handled-Quiet s =
      Ensures-mono _ _ _ _ (handle_last_error sys ssl debug fd s)
        (handle_last_error-Kept sys laws ssl debug fd s) (λ h s1 e. ap taken e) (λ s1 e. ap taken e)

  failed_read-Quiet :
      (steps : ℕ) (r : ℤ) (rest : Action (S sys ssl debug fd) (ℕ × List ℕ)) (s : S sys ssl debug fd)
      → ((s1 : S sys ssl debug fd) → Quiet s1 (rest s1))
      → Quiet {A = ℕ × List ℕ} s (
          and_then (handle_result sys ssl debug fd r s) λ handled s2. elim handled [
            | true ↦ and_then (asserted debug (not (steps == 0)) s2) (λ _. rest)
            | false ↦ pure (0, []) s2
          ])
  unfolding handle_result
  failed_read-Quiet steps r rest s k =
      Quiet-and_then s (handle_result sys ssl debug fd r s) _
        (handled-Quiet (record s { last_error = ssl.get_error s.session r }))
        (elim [
          | true ↦ λ s2.
              Quiet-and_then s2 (asserted debug (not (steps == 0)) s2) _
                (asserted-Still sys laws ssl slaws debug fd _ s2) (λ _. k)
          | false ↦ λ s2. refl
        ])

  read_loop-Quiet :
      (steps size : ℕ) (s : S sys ssl debug fd) → Quiet s (read_loop sys ssl debug fd steps size s)
  unfolding read_loop
  read_loop-Quiet zero size s = refl
  read_loop-Quiet (suc steps) size s =
      Quiet-and_then s (run_call sys ssl debug fd (ssl.read size s.session) s) _
        (run_call-Quiet (ssl.read size s.session) s (slaws.read_taken size s.session))
        λ r s1. after_read r.0 r.0 r.1 s1 (read_loop-Quiet steps size)
    where
      after_read :
          (r res : ℤ) (bytes : List ℕ) (s1 : S sys ssl debug fd)
          → ((s2 : S sys ssl debug fd) → Quiet s2 (read_loop sys ssl debug fd steps size s2))
          → Quiet {A = ℕ × List ℕ} s1 (elim r [
            | pos (suc n) ↦ pure (suc n, bytes) s1
            | _ ↦ and_then (handle_result sys ssl debug fd res s1) λ handled s2. elim handled [
              | true ↦
                  and_then
                    (asserted debug (not (steps == 0)) s2)
                    (λ _. read_loop sys ssl debug fd steps size)
              | false ↦ pure (0, []) s2
            ]
          ])
      after_read (pos (suc n)) res bytes s1 k = refl
      after_read (pos zero) res bytes s1 k = failed_read-Quiet steps res _ s1 k
      after_read (negsuc n) res bytes s1 k = failed_read-Quiet steps res _ s1 k

  pub read-Quiet : (size : ℕ) (s : S sys ssl debug fd) → Quiet s (read sys ssl debug fd size s)
  unfolding read
  read-Quiet size s =
      Quiet-and_then s (handle_last_error sys ssl debug fd s) _ (handled-Quiet s)
        (elim [ true ↦ λ s1. read_loop-Quiet handshake_steps_max size s1 | false ↦ λ s1. refl ])

  pub pending-Quiet : (s : S sys ssl debug fd) → Quiet s (tls_pending sys ssl debug fd s)
  unfolding tls_pending
  pending-Quiet s = elim (Bool-cases (ssl.is_init_finished s.session)) [
    | inl e ↦ rw e refl
    | inr e ↦ rw e (
        Quiet-and_then s (read sys ssl debug fd 64 (deemed_writable sys ssl debug fd s)) _
          (read-Quiet 64 (deemed_writable sys ssl debug fd s))
          λ r s1. elim (Bool-cases (r.0 == 0)) [ inl z ↦ rw z refl | inr z ↦ rw z (λ x. cc, refl) ])
  ]

  -- The TLS socket puts what it is given to send on the stream of its session.
  abbrev pub tls_SockLaws : SockLaws tls_sock
  tls_SockLaws = record {
    wire = tk sys laws ssl slaws debug fd;
    send_some_wire = λ d s. (tls_send-Sends sys laws ssl slaws debug fd d (pos 0) s).1;
    pending_wire = λ s. Quiet-state s _ (pending-Quiet s);
  }
