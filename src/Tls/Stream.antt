-- ===== src/Tls/Stream.antt =====
-- Sending on a TLS socket of src/socket_tls_impl.cpp loses, repeats and reorders no byte, and the socket
-- keeps what the send queue of src/socket_async_impl.cpp relies on.
use sockpuppet.Base.{
  ℕ, zero, suc, ◌≤◌, ◌≡◌, refl, ap, ◌∙◌, Bool, true, false, not, ◌||◌, List, [], ◌∷◌, ◌++◌, length,
  take, is_empty, ◌==◌, Result, pure, and_then, Ensures, Ensures-and_then, Ensures-mono, subst,
  if◌then◌else◌,
}
use sockpuppet.Base.Transfer.{Moves, MovesSome, Moves-none, Moves-still, Moves-trans, Moves-front}
use sockpuppet.Base.Int.{ℤ}
use sockpuppet.Os.{Sys, StreamLaws}
use sockpuppet.Tls.{
  Ssl, run_call, handle_last_error, asserted, equal_bytes, wrote, write_step, write_loop, write,
  handshake_steps_max,
}
use sockpuppet.Tls.Kept.{S}
use sockpuppet.Tls.Taken.{
  Writes, SslLaws, run_call-Leaves, handle_last_error-Kept, Moving, wrote-Moves,
}
use sockpuppet.Tls.Operations.{tls_send, tls_send_some, deemed_writable}

MovesSome-trans :
    (a b c left mid : List ℕ) → Moves a left mid b → MovesSome b mid c → MovesSome a left c
MovesSome-trans a b c left mid m (rest, n) = (rest, Moves-trans a b c left mid rest m n)

module _ (sys : Sys) (laws : StreamLaws sys) (ssl : Ssl) (slaws : SslLaws ssl) (debug : Bool)
    (fd : ℕ) where
  open slaws use {taken}

  abbrev pub tk : S sys ssl debug fd → List ℕ
  tk s = taken s.session

  pub asserted-Still :
      (b : Bool) (s : S sys ssl debug fd)
      → Ensures (λ _ s1. tk s1 ≡ tk s) (λ s1. tk s1 ≡ tk s) (asserted debug b s)
  asserted-Still b s = inner debug b
    where
      inner : (d c : Bool) → Ensures (λ _ s1. tk s1 ≡ tk s) (λ s1. tk s1 ≡ tk s) (asserted d c s)
      inner true true = refl
      inner true false = (λ e. cc, refl)
      inner false c = refl

  write_step-Moves :
      (left : List ℕ) (s : S sys ssl debug fd)
      → Moving sys laws ssl debug fd slaws (tk s) left (write_step sys ssl debug fd left s)
  unfolding write_step
  write_step-Moves left s =
      Ensures-and_then (λ _ s1. tk s1 ≡ tk s) (λ s1. tk s1 ≡ tk s) _
        (λ s1. MovesSome (tk s) left (tk s1))
        (asserted debug (is_empty s.pending_send || equal_bytes s.pending_send left) s) _
        (asserted-Still _ s)
        (λ _ s1 e.
          Ensures-and_then (λ r s2. Writes (tk s1) left r (tk s2)) (λ s2. tk s2 ≡ tk s1) _
            (λ s2. MovesSome (tk s) left (tk s2))
            (run_call sys ssl debug fd (ssl.write_ex left s1.session) s1) _
            (run_call-Leaves sys laws ssl debug fd (λ r y. Writes (tk s1) left r (taken y))
              (λ y. taken y ≡ tk s1) (ssl.write_ex left s1.session) s1
              (slaws.write_taken left s1.session))
            (λ r s2 w.
              subst
                (λ a.
                  Moving sys laws ssl debug fd slaws a left
                    (wrote sys ssl debug fd r.0 r.1 left s2))
                e (wrote-Moves sys laws ssl debug fd slaws (tk s1) r.0 r.1 left s2 w))
            (λ s2 q. Moves-still left (q ∙ e)))
        (λ s1 e. Moves-still left e)

  after_write :
      (steps : ℕ) (left : List ℕ) (s : S sys ssl debug fd) (more : Bool) (rest : List ℕ)
      (s1 : S sys ssl debug fd)
      → ((s2 : S sys ssl debug fd)
          → Ensures
              (λ r s3. Moves (tk s2) rest r (tk s3))
              (λ s3. MovesSome (tk s2) rest (tk s3))
              (write_loop sys ssl debug fd steps rest s2))
      → Moves (tk s) left rest (tk s1)
      → Ensures
          (λ r s2. Moves (tk s) left r (tk s2))
          (λ s2. MovesSome (tk s) left (tk s2))
          (elim more [
            | true ↦
                and_then
                  (asserted debug (not (steps == 0)) s1)
                  (λ _. write_loop sys ssl debug fd steps rest)
            | false ↦ pure rest s1
          ])
  after_write steps left s false rest s1 loop m = m
  after_write steps left s true rest s1 loop m =
      Ensures-and_then (λ _ s2. tk s2 ≡ tk s1) (λ s2. tk s2 ≡ tk s1) _
        (λ s2. MovesSome (tk s) left (tk s2)) (asserted debug (not (steps == 0)) s1) _
        (asserted-Still _ s1)
        (λ _ s2 e.
          Ensures-mono _ _ _ _ (write_loop sys ssl debug fd steps rest s2) (loop s2)
            (λ r s3 n. Moves-trans (tk s) (tk s2) (tk s3) left rest r (m.0, m.1, e ∙ m.2) n)
            (λ s3 n. MovesSome-trans (tk s) (tk s2) (tk s3) left rest (m.0, m.1, e ∙ m.2) n))
        (λ s2 e. (rest, (m.0, m.1, e ∙ m.2)))

  write_loop-Moves :
      (steps : ℕ) (left : List ℕ) (s : S sys ssl debug fd)
      → Ensures
          (λ rest s1. Moves (tk s) left rest (tk s1))
          (λ s1. MovesSome (tk s) left (tk s1))
          (write_loop sys ssl debug fd steps left s)
  unfolding write_loop
  write_loop-Moves zero left s = Moves-none left refl
  write_loop-Moves (suc steps) [] s = Moves-none [] refl
  write_loop-Moves (suc steps) (b ∷ bs) s =
      Ensures-and_then (λ x s1. Moves (tk s) (b ∷ bs) x.1 (tk s1))
        (λ s1. MovesSome (tk s) (b ∷ bs) (tk s1)) _ (λ s1. MovesSome (tk s) (b ∷ bs) (tk s1))
        (write_step sys ssl debug fd (b ∷ bs) s) _ (write_step-Moves (b ∷ bs) s)
        (λ x s1 m. after_write steps (b ∷ bs) s x.0 x.1 s1 (write_loop-Moves steps x.1) m)
        (λ s1 q. q)

  -- What is sent is a front of the buffer, of the length returned if there is no exception.
  abbrev pub Sends : List ℕ → S sys ssl debug fd → Result ℕ × S sys ssl debug fd → Type 0
  Sends bytes s =
      Ensures (λ n s1. (n ≤ length bytes) × (tk s1 ≡ tk s ++ take n bytes))
        (λ s1. MovesSome (tk s) bytes (tk s1))

  write-Sends :
      (bytes : List ℕ) (s : S sys ssl debug fd) → Sends bytes s (write sys ssl debug fd bytes s)
  unfolding write
  write-Sends bytes s =
      Ensures-and_then (λ _ s1. s1.session ≡ s.session) (λ s1. s1.session ≡ s.session) _
        (λ s1. MovesSome (tk s) bytes (tk s1)) (handle_last_error sys ssl debug fd s) _
        (handle_last_error-Kept sys laws ssl debug fd s)
        (λ handled s1 e.
          Ensures-and_then (λ rest s2. Moves (tk s) bytes rest (tk s2))
            (λ s2. MovesSome (tk s) bytes (tk s2)) _ (λ s2. MovesSome (tk s) bytes (tk s2))
            (if handled
              then write_loop sys ssl debug fd handshake_steps_max bytes s1
              else pure bytes s1)
            _ (begun handled s1 (ap taken e)) (λ rest s2 m. Moves-front (tk s) (tk s2) bytes rest m)
            (λ s2 q. q))
        (λ s1 e. Moves-still bytes (ap taken e))
    where
      begun :
          (handled : Bool) (s1 : S sys ssl debug fd)
          → tk s1 ≡ tk s
          → Ensures
              (λ rest s2. Moves (tk s) bytes rest (tk s2))
              (λ s2. MovesSome (tk s) bytes (tk s2))
              (if handled
                then write_loop sys ssl debug fd handshake_steps_max bytes s1
                else pure bytes s1)
      begun false s1 e = Moves-none bytes e
      begun true s1 e =
          subst
            (λ a.
              Ensures (λ rest s2. Moves a bytes rest (tk s2)) (λ s2. MovesSome a bytes (tk s2))
                (write_loop sys ssl debug fd handshake_steps_max bytes s1))
            e (write_loop-Moves handshake_steps_max bytes s1)

  -- `Send` with any timeout and `SendSome` on a TLS socket come to an end; SSL_write_ex has taken just as
  -- many bytes from the front of the buffer as they return, in one piece and in order; if they throw it
  -- has taken a front of the buffer.
  pub tls_send-Sends :
      (bytes : List ℕ) (timeout : ℤ) (s : S sys ssl debug fd)
      → Sends bytes s (tls_send sys ssl debug fd bytes timeout s)
        × Sends bytes s (tls_send_some sys ssl debug fd bytes s)
  unfolding tls_send tls_send_some
  tls_send-Sends bytes timeout s = (
    write-Sends bytes (record s { remaining_time = timeout }),
    write-Sends bytes (deemed_writable sys ssl debug fd s),
  )
