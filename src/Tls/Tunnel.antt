-- ===== src/Tls/Tunnel.antt =====
-- What waiting for, reading from and writing to the socket below a session of src/socket_tls_impl.cpp
-- leaves alone: the view of a failed send, and the kind of the time that remains.
use sockpuppet.Base.{
  ℕ, zero, suc, ◌≡◌, refl, ap, subst, Bool, true, false, List, length, ◌==◌, Result, ok, err,
  Action, pure, and_then, Ensures, Ensures-and_then, arith, if◌then◌else◌,
}
use sockpuppet.Base.Int.{ℤ, pos, negsuc, ◌≤ℤ◌, pos_part}
use sockpuppet.Os.{Sys, StreamLaws}
use sockpuppet.Wait.{
  Deadline, unlimited, unlimited_time, zero_limited, zero_time, limited, remaining, limited_at,
  tick, tick_at, limited_from_now,
}
use sockpuppet.Wait.Time.{remaining_nonneg}
use sockpuppet.Socket.{receive, receive_now, send_all, send_try, send_some, send_now, zero_timeout}
use sockpuppet.Tls.{
  Ssl, Tls, on_world, timed, under_deadline, bio_read, send_timed, bio_write, abandon,
}
use sockpuppet.Tls.Settled.{
  Ends, IsLimited, both, receive_now-Ends, receive-Ends, send_now-Ends, send_all-Ends,
  send_some-Ends, send_try-Ends, send_some-Limited,
}

-- An unlimited time stays as it is and so does none; a limited time stays one that is not negative.
abbrev pub SameKind : ℤ → ℤ → Type 0
SameKind (negsuc n) r = r ≡ negsuc n
SameKind (pos zero) r = r ≡ pos 0
SameKind (pos (suc n)) r = pos 0 ≤ℤ r

SameKind-positive : (t : ℤ) (n : ℕ) (r : ℤ) → SameKind t (pos (suc n)) → pos 0 ≤ℤ r → SameKind t r
SameKind-positive (negsuc m) n r k h = cc
SameKind-positive (pos zero) n r k h = absurd (omega (arith, ap pos_part k))
SameKind-positive (pos (suc m)) n r k h = h

module _ (sys : Sys) (laws : StreamLaws sys) (ssl : Ssl) (debug : Bool) (fd : ℕ) (p : List ℕ)
    (t : ℤ) where
  open sys use {World}

  abbrev pub Held : Tls ssl.Session World → Type 0
  Held s = (s.pending_send ≡ p) × SameKind t s.remaining_time

  -- The code ends, and what is held before is held after, also if it throws.
  abbrev pub Holds : {A : Type 0} → Result A × Tls ssl.Session World → Type 0
  Holds m = Ensures (λ _ s. Held s) Held m

  pub Holds-and_then :
      {A B : Type 0} (m : Result A × Tls ssl.Session World)
      (f : A → Action (Tls ssl.Session World) B)
      → Holds m
      → ((a : A) (s : Tls ssl.Session World) → Held s → Holds (f a s))
      → Holds (and_then m f)
  Holds-and_then m f h k =
      Ensures-and_then (λ _ s. Held s) Held (λ _ s. Held s) Held m f h k (λ s q. q)

  lifted-Holds :
      {A : Type 0} (m : Result A × World) (s : Tls ssl.Session World)
      → Ends m
      → Held s
      → Holds (m.0, record s { world = m.1 })
  lifted-Holds (ok a, w) s e h = h
  lifted-Holds (err x, w) s e h = (e.0, h)

  pub abandon-Holds :
      {A : Type 0} (session : ssl.Session) (m : Result A × Tls ssl.Session World)
      → Holds m
      → Holds (abandon sys ssl debug fd session m)
  abandon-Holds session (ok a, s) h = h
  abandon-Holds session (err x, s) h = h

  timed-Holds :
      {A : Type 0} (r : ℤ) (fn : Action (Tls ssl.Session World) A) (s : Tls ssl.Session World)
      → s.remaining_time ≡ r
      → ((s1 : Tls ssl.Session World) → Held s1 → Holds (fn s1))
      → Held s
      → Holds (timed sys ssl debug fd r fn s)
  unfolding limited_from_now limited_at tick tick_at
  timed-Holds (negsuc n) fn s e k h = k s h
  timed-Holds (pos zero) fn s e k h = k s h
  timed-Holds (pos (suc n)) fn s e k h =
      Holds-and_then (fn (record s { world = (sys.now s.world).1 })) _ (k _ h) λ res s2 h2.
        (h2.0, SameKind-positive t n _ (subst (SameKind t) e h.1) ((remaining_nonneg _ _).0))

  -- Waiting or receiving for the time that remains.
  pub under_deadline-Holds :
      {A : Type 0} (m : ℤ → Action World A) (s : Tls ssl.Session World)
      → ((r : ℤ) (w : World) → Ends (m r w))
      → Held s
      → Holds (
          under_deadline sys ssl debug fd
            (λ s1. on_world sys ssl debug fd (m s1.remaining_time) s1)
            s)
  under_deadline-Holds m s e h =
      timed-Holds s.remaining_time (λ s1. on_world sys ssl debug fd (m s1.remaining_time) s1) s refl
        (λ s1 h1. lifted-Holds (m s1.remaining_time s1.world) s1 (e s1.remaining_time s1.world) h1)
        h

  pub if-Holds :
      {A : Type 0} (b : Bool) (x y : Result A × Tls ssl.Session World)
      → Holds x
      → Holds y
      → Holds (if b then x else y)
  if-Holds true x y hx hy = hx
  if-Holds false x y hx hy = hy

  pub bio_read-Holds :
      (size : ℕ) (s : Tls ssl.Session World) → Held s → Holds (bio_read sys ssl debug fd size s)
  unfolding bio_read
  bio_read-Holds size s h =
      if-Holds s.is_readable _ _
        (lifted-Holds (receive_now sys fd size s.world) (record s { is_readable = false })
          (receive_now-Ends sys laws fd size s.world) h)
        (Holds-and_then (under_deadline sys ssl debug fd _ s) _
          (under_deadline-Holds (receive sys fd size) s (λ r w. receive-Ends sys laws fd size r w)
            h)
          (λ r s1 h1. h1))

  -- What follows `SendSome`: the time that its deadline leaves, or none.
  sent_some-Holds :
      (bytes : List ℕ) (n : ℕ) (m : Result (ℕ × Deadline) × World) (s : Tls ssl.Session World)
      → SameKind t (pos (suc n))
      → Held s
      → Ensures (λ r _. IsLimited r.1) (λ _. Unit {0}) m
      → Holds (
          and_then
            (m.0, record s { world = m.1 })
            λ r s2. pure r.0 (record s2 {
              remaining_time = if r.0 == length bytes then remaining r.1 else zero_timeout;
            }))
  sent_some-Holds bytes n (err x, w) s k h l = (l.0, h)
  sent_some-Holds bytes n (ok (sent, limited now deadline), w) s k h l = (
    h.0,
    SameKind-positive t n _ k (
        nonneg (sent == length bytes) (remaining (limited now deadline))
          (remaining_nonneg now deadline).0),
  )
    where
      nonneg : (b : Bool) (r : ℤ) → pos 0 ≤ℤ r → pos 0 ≤ℤ (if b then r else zero_timeout)
      nonneg true r q = q
      nonneg false r q = omega arith
  sent_some-Holds bytes n (ok (sent, unlimited), w) s k h l = absurd l
  sent_some-Holds bytes n (ok (sent, unlimited_time now), w) s k h l = absurd l
  sent_some-Holds bytes n (ok (sent, zero_limited), w) s k h l = absurd l
  sent_some-Holds bytes n (ok (sent, zero_time now), w) s k h l = absurd l

  send_timed-Holds :
      (bytes : List ℕ) (r : ℤ) (s : Tls ssl.Session World)
      → s.remaining_time ≡ r
      → Held s
      → Holds (send_timed sys ssl debug fd bytes r s)
  unfolding limited_from_now limited_at
  send_timed-Holds bytes (negsuc n) s e h =
      lifted-Holds (send_all sys fd bytes s.world) s (send_all-Ends sys laws fd bytes s.world) h
  send_timed-Holds bytes (pos zero) s e h =
      lifted-Holds (send_try sys fd bytes s.world) s (send_try-Ends sys laws fd bytes s.world) h
  send_timed-Holds bytes (pos (suc n)) s e h =
      sent_some-Holds bytes n
        (send_some sys fd bytes (limited_at (sys.now s.world).0 (pos (suc n))) (sys.now s.world).1)
        s (subst (SameKind t) e h.1) h
        (both _ _ (send_some-Ends sys laws fd bytes _ (sys.now s.world).1)
          (send_some-Limited sys fd bytes _ tt (sys.now s.world).1))

  pub bio_write-Holds :
      (bytes : List ℕ) (s : Tls ssl.Session World)
      → Held s
      → Holds (bio_write sys ssl debug fd bytes s)
  unfolding bio_write
  bio_write-Holds bytes s h =
      if-Holds s.is_writable _ _
        (lifted-Holds (send_now sys fd bytes s.world) (record s { is_writable = false })
          (send_now-Ends sys laws fd bytes s.world) h)
        (send_timed-Holds bytes s.remaining_time s refl h)
