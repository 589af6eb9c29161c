-- ===== src/Tls/Writing.antt =====
-- `Write` of src/socket_tls_impl.cpp: how far it comes, and that a send cut short can be taken up again.
use sockpuppet.Base.{
  ℕ, zero, suc, ◌+◌, ◌-◌, ◌*◌, ◌≤◌, ◌≡◌, refl, sym, subst, ap, inl, inr, Bool, true, false, not,
  ◌||◌, List, [], ◌∷◌, length, drop, length-drop, is_empty, Result, ok, err, Action, pure, and_then,
  Ensures, Ensures-and_then, Ensures-mono, if◌then◌else◌, arith, ◌==◌, leb,
}
use sockpuppet.Base.Int.{ℤ, pos, negsuc}
use sockpuppet.Os.{Sys, StreamLaws}
use sockpuppet.Tls.{
  Ssl, Tls, run_call, handle_last_error, handle_result, asserted, equal_bytes, wrote, write_step,
  write_loop, write, handshake_steps_max,
}
use sockpuppet.Tls.Tunnel.{SameKind}
use sockpuppet.Tls.Steps.{
  Returns, run_call-Holds, asserted-Holds, handle_last_error-Holds, handle_result-Holds,
}
use sockpuppet.Tls.Progress.{Resumable, Progress, more-Progress, unsent}

abbrev times : ℕ → ℕ → ℕ
times zero m = 0
times (suc n) m = m + times n m

module _ (sys : Sys) (laws : StreamLaws sys) (ssl : Ssl) (debug : Bool) (fd m : ℕ)
    (fits : (d : List ℕ) (session : ssl.Session)
      → Returns (λ (r : ℤ × ℕ). (r.1 ≤ length d) × (r.1 ≤ m)) (ssl.write_ex d session))
    (t : ℤ) where
  abbrev S : Type 0
  S = Tls ssl.Session sys.World

  abbrev End : S → Type 0
  End s = SameKind t s.remaining_time

  -- What comes after a step that has not touched the view of the failed send.
  after_step :
      {A B : Type 0} (p : List ℕ) (P : A → S → Type 0) (Q : B → S → Type 0) (r : Result A × S)
      (f : A → Action S B)
      → Ensures P (λ s1. (s1.pending_send ≡ p) × End s1) r
      → ((a : A) (s1 : S) → P a s1 → Ensures Q End (f a s1))
      → Ensures Q End (and_then r f)
  after_step p P Q (ok a, s) f h k = k a s h
  after_step p P Q (err e, s) f h k = (h.0, h.1.1)

  abbrev Proceeds : List ℕ → Result (Bool × List ℕ) × S → Type 0
  Proceeds left r = Ensures (λ (x : Bool × List ℕ) s1. Progress t m left x.1 s1) End r

  failed-Progress :
      (res : ℤ) (left : List ℕ) (s : S)
      → End s
      → Proceeds left (
          and_then
            (handle_result sys ssl debug fd res (record s { pending_send = left }))
            (λ handled. pure (handled, left)))
  failed-Progress res left s k =
      after_step left (λ _ s1. (s1.pending_send ≡ left) × End s1) _
        (handle_result sys ssl debug fd res (record s { pending_send = left })) _
        (handle_result-Holds sys laws ssl debug fd left t res (record s { pending_send = left })
          (refl, k))
        λ handled s1 h. record {
          gone = 0;
          within = omega arith;
          few = omega arith;
          rest_lem = refl;
          resumable = inr h.0;
          kind = h.1;
        }

  wrote-Progress :
      (res : ℤ) (written : ℕ) (left : List ℕ) (s : S)
      → written ≤ length left
      → written ≤ m
      → End s
      → Proceeds left (wrote sys ssl debug fd res written left s)
  wrote-Progress (negsuc n) written left s le few k = failed-Progress (negsuc n) left s k
  wrote-Progress (pos zero) written left s le few k = failed-Progress (pos zero) left s k
  wrote-Progress (pos (suc n)) written left s le few k =
      after_step [] (λ _ s1. (s1.pending_send ≡ []) × End s1) _
        (asserted debug (leb written (length left)) (record s { pending_send = [] })) _
        (asserted-Holds sys laws ssl debug fd [] t (leb written (length left))
          (record s { pending_send = [] }) (refl, k))
        λ _ s1 h. record {
          gone = written;
          within = le;
          few = few;
          rest_lem = refl;
          resumable = inl h.0;
          kind = h.1;
        }

  write_step-Progress :
      (left : List ℕ) (s : S) → End s → Proceeds left (write_step sys ssl debug fd left s)
  unfolding write_step
  write_step-Progress left s k =
      let p = s.pending_send in
      after_step p (λ _ s1. (s1.pending_send ≡ p) × End s1) _
        (asserted debug (is_empty p || equal_bytes p left) s) _
        (asserted-Holds sys laws ssl debug fd p t (is_empty p || equal_bytes p left) s (refl, k))
        λ _ s1 h.
          after_step p
            (λ (r : ℤ × ℕ) s2. ((r.1 ≤ length left) × (r.1 ≤ m)) × ((s2.pending_send ≡ p) × End s2))
            _ (run_call sys ssl debug fd (ssl.write_ex left s1.session) s1) _
            (run_call-Holds sys laws ssl debug fd p t _ (ssl.write_ex left s1.session) s1
              (fits left s1.session) h)
            (λ r s2 q. wrote-Progress r.0 r.1 left s2 q.0.0 q.0.1 q.1.1)

  after_write :
      (steps : ℕ) (left : List ℕ) (more : Bool) (mid : List ℕ) (s1 : S)
      → Progress t m left mid s1
      → ((s2 : S)
          → Resumable mid s2.pending_send
          → End s2
          → Ensures
              (λ rest s3. Progress t (times steps m) mid rest s3)
              End
              (write_loop sys ssl debug fd steps mid s2))
      → Ensures
          (λ rest s2. Progress t (times (suc steps) m) left rest s2)
          End
          (elim more [
            | true ↦
                and_then
                  (asserted debug (not (steps == 0)) s1)
                  (λ _. write_loop sys ssl debug fd steps mid)
            | false ↦ pure mid s1
          ])
  after_write steps left false mid s1 u go = record {
    gone = u.gone;
    within = u.within;
    few = omega (arith, u.few);
    rest_lem = u.rest_lem;
    resumable = u.resumable;
    kind = u.kind;
  }
  after_write steps left true mid s1 u go =
      after_step s1.pending_send (λ _ s2. (s2.pending_send ≡ s1.pending_send) × End s2) _
        (asserted debug (not (steps == 0)) s1) _
        (asserted-Holds sys laws ssl debug fd s1.pending_send t (not (steps == 0)) s1
          (refl, u.kind))
        λ _ s2 h.
          Ensures-mono _ _ End End (write_loop sys ssl debug fd steps mid s2)
            (go s2 (subst (Resumable mid) (sym h.0) u.resumable) h.1)
            (λ rest s3 v. more-Progress t m (times steps m) left mid rest s1 s3 u v) (λ s3 q. q)

  write_loop-Progress :
      (steps : ℕ) (left : List ℕ) (s : S)
      → Resumable left s.pending_send
      → End s
      → Ensures
          (λ rest s1. Progress t (times steps m) left rest s1)
          End
          (write_loop sys ssl debug fd steps left s)
  unfolding write_loop
  write_loop-Progress zero left s r k = unsent t _ left s r k
  write_loop-Progress (suc steps) [] s r k = unsent t _ [] s r k
  write_loop-Progress (suc steps) (b ∷ bs) s r k =
      Ensures-and_then _ End _ End (write_step sys ssl debug fd (b ∷ bs) s) _
        (write_step-Progress (b ∷ bs) s k)
        (λ x s1 u. after_write steps (b ∷ bs) x.0 x.1 s1 u (write_loop-Progress steps x.1))
        (λ s1 q. q)

  -- If each SSL_write_ex takes at most `m` bytes of what it is given, and nothing or just the given
  -- buffer is kept of a failed send, then `Write` comes to an end. It returns a number of bytes of at
  -- most ten times `m`, even if the time is unlimited; nothing or just the rest behind these bytes is
  -- kept, so it can be taken up again with that rest; and unlimited, limited or no time stays of its
  -- kind, also if it throws.
  pub write-Resumable :
      (bytes : List ℕ) (s : S)
      → Resumable bytes s.pending_send
      → SameKind t s.remaining_time
      → Ensures
          (λ n s1.
            (n ≤ length bytes)
            × (n ≤ handshake_steps_max * m)
            × Resumable (drop n bytes) s1.pending_send
            × SameKind t s1.remaining_time)
          (λ s1. SameKind t s1.remaining_time)
          (write sys ssl debug fd bytes s)
  unfolding write
  write-Resumable bytes s r k =
      after_step s.pending_send (λ _ s1. (s1.pending_send ≡ s.pending_send) × End s1) _
        (handle_last_error sys ssl debug fd s) _
        (handle_last_error-Holds sys laws ssl debug fd s.pending_send t s (refl, k))
        λ handled s1 h.
          Ensures-and_then (λ rest s2. Progress t (times handshake_steps_max m) bytes rest s2) End _
            End _ _ (begun handled s1 (subst (Resumable bytes) (sym h.0) r) h.1)
            (λ rest s2 u.
              let n = length-drop u.gone bytes in
              let sent : length bytes - length rest ≡ u.gone =
                omega (arith, u.within, n, ap length u.rest_lem) in
              rw sent (
                u.within,
                omega (arith, u.few),
                subst (λ l. Resumable l s2.pending_send) u.rest_lem u.resumable,
                u.kind,
              ))
            (λ s2 q. q)
    where
      begun :
          (handled : Bool) (s1 : S)
          → Resumable bytes s1.pending_send
          → End s1
          → Ensures
              (λ rest s2. Progress t (times handshake_steps_max m) bytes rest s2)
              End
              (if handled
                then write_loop sys ssl debug fd handshake_steps_max bytes s1
                else pure bytes s1)
      begun true s1 r1 k1 = write_loop-Progress handshake_steps_max bytes s1 r1 k1
      begun false s1 r1 k1 = unsent t _ bytes s1 r1 k1
