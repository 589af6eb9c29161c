-- ===== src/Tls/Taken.antt =====
-- What SSL_write_ex has taken of the bytes that src/socket_tls_impl.cpp sends: the stream of a TLS
-- session above the records.
use sockpuppet.Base.{
  ℕ, zero, suc, ◌≤◌, ◌≡◌, refl, ap, ◌∙◌, Bool, true, false, List, [], ◌++◌, length, take, drop, leb,
  Result, ok, err, pure, and_then, Ensures, Ensures-and_then, Ensures-mono,
}
use sockpuppet.Base.Transfer.{Moves, MovesSome, Moves-none, Moves-still, Moves-take}
use sockpuppet.Base.Int.{ℤ, pos, negsuc}
use sockpuppet.Os.{Sys, StreamLaws}
use sockpuppet.Tls.{
  Call, done, ask_read, ask_write, Ssl, bio_read, bio_write, abandon, run_call, handle_last_error,
  handle_result, asserted, wrote,
}
use sockpuppet.Tls.Tunnel.{Holds, bio_read-Holds, bio_write-Holds}
use sockpuppet.Tls.Steps.{handle_last_error-Holds}
use sockpuppet.Tls.Kept.{Ensures-at, SameKind-refl, S, handle_last_error-At}

-- Where the session is left, with a result or by an exception of a call back.
abbrev pub Leaves :
    {Session R : Type 0} → (R → Session → Type 0) → (Session → Type 0) → Call Session R → Type 0
Leaves P Q (done r session) = P r session
Leaves P Q (ask_read abandoned size k) =
    Q abandoned × ((n : ℕ) (bytes : List ℕ) → Leaves P Q (k n bytes))
Leaves P Q (ask_write abandoned bytes k) = Q abandoned × ((n : ℕ) → Leaves P Q (k n))

-- What a successful SSL_write_ex adds to what has been taken.
abbrev pub Writes : List ℕ → List ℕ → ℤ × ℕ → List ℕ → Type 0
Writes a d (pos (suc n), written) b = (written ≤ length d) × (b ≡ a ++ take written d)
Writes a d _ b = b ≡ a

-- The bytes that SSL_write_ex has reported as written, a record of the calls made: it appends as many
-- from the front of its buffer as it reports, and none if it fails; SSL_read appends none.
pub record SslLaws (ssl : Ssl) : Type 0 where
  pub taken : ssl.Session → List ℕ
  pub read_taken :
      (n : ℕ) (x : ssl.Session)
      → Leaves (λ _ y. taken y ≡ taken x) (λ y. taken y ≡ taken x) (ssl.read n x)
  pub write_taken :
      (d : List ℕ) (x : ssl.Session)
      → Leaves (λ r y. Writes (taken x) d r (taken y)) (λ y. taken y ≡ taken x) (ssl.write_ex d x)

module _ (sys : Sys) (laws : StreamLaws sys) (ssl : Ssl) (debug : Bool) (fd : ℕ) where
  abandon-ends :
      {A : Type 0} (p : List ℕ) (t : ℤ) (Q : ssl.Session → Type 0) (x : ssl.Session)
      (m : Result A × S sys ssl debug fd)
      → Holds sys laws ssl debug fd p t m
      → Q x
      → Ensures (λ _ _. Unit {0}) (λ s. Q s.session) (abandon sys ssl debug fd x m)
  abandon-ends p t Q x (ok a, s) h q = tt
  abandon-ends p t Q x (err e, s) h q = (h.0, q)

  pub run_call-Leaves :
      {R : Type 0} (P : R → ssl.Session → Type 0) (Q : ssl.Session → Type 0)
      (c : Call ssl.Session R) (s : S sys ssl debug fd)
      → Leaves P Q c
      → Ensures (λ r s1. P r s1.session) (λ s1. Q s1.session) (run_call sys ssl debug fd c s)
  unfolding run_call
  run_call-Leaves P Q (done r x) s l = l
  run_call-Leaves P Q (ask_read x size k) s l =
      Ensures-and_then (λ _ _. Unit {0}) (λ s1. Q s1.session) _ (λ s1. Q s1.session)
        (abandon sys ssl debug fd x (bio_read sys ssl debug fd size s)) _
        (abandon-ends s.pending_send s.remaining_time Q x _
          (bio_read-Holds sys laws ssl debug fd s.pending_send s.remaining_time size s
            (refl, SameKind-refl s.remaining_time))
          l.0)
        (λ r s1 u. run_call-Leaves P Q (k r.0 r.1) s1 (l.1 r.0 r.1)) (λ s1 q. q)
  run_call-Leaves P Q (ask_write x bytes k) s l =
      Ensures-and_then (λ _ _. Unit {0}) (λ s1. Q s1.session) _ (λ s1. Q s1.session)
        (abandon sys ssl debug fd x (bio_write sys ssl debug fd bytes s)) _
        (abandon-ends s.pending_send s.remaining_time Q x _
          (bio_write-Holds sys laws ssl debug fd s.pending_send s.remaining_time bytes s
            (refl, SameKind-refl s.remaining_time))
          l.0)
        (λ n s1 u. run_call-Leaves P Q (k n) s1 (l.1 n)) (λ s1 q. q)

  pub handle_last_error-Kept :
      (s : S sys ssl debug fd)
      → Ensures
          (λ _ s1. s1.session ≡ s.session)
          (λ s1. s1.session ≡ s.session)
          (handle_last_error sys ssl debug fd s)
  handle_last_error-Kept s =
      Ensures-mono _ _ _ _ (handle_last_error sys ssl debug fd s)
        (Ensures-at _ _ (λ s1. s1.session ≡ s.session) (handle_last_error sys ssl debug fd s)
          (handle_last_error-Holds sys laws ssl debug fd s.pending_send s.remaining_time s
            (refl, SameKind-refl s.remaining_time))
          (handle_last_error-At sys ssl debug fd s.session s refl))
        (λ a s1 p. p.1) (λ s1 p. p.1)

  handle_result-Kept :
      (r : ℤ) (s : S sys ssl debug fd)
      → Ensures
          (λ _ s1. s1.session ≡ s.session)
          (λ s1. s1.session ≡ s.session)
          (handle_result sys ssl debug fd r s)
  unfolding handle_result
  handle_result-Kept r s =
      handle_last_error-Kept (record s { last_error = ssl.get_error s.session r })

  module _ (slaws : SslLaws ssl) where
    open slaws use {taken}

    abbrev pub Moving : List ℕ → List ℕ → Result (Bool × List ℕ) × S sys ssl debug fd → Type 0
    Moving a left =
        Ensures (λ x s1. Moves a left x.1 (taken s1.session))
          (λ s1. MovesSome a left (taken s1.session))

    pub wrote-Moves :
        (a : List ℕ) (r : ℤ) (written : ℕ) (left : List ℕ) (s : S sys ssl debug fd)
        → Writes a left (r, written) (taken s.session)
        → Moving a left (wrote sys ssl debug fd r written left s)
    wrote-Moves a (pos (suc n)) written left s w = checked debug (leb written (length left))
      where
        moved : Moves a left (drop written left) (taken s.session)
        moved = Moves-take a (taken s.session) written left w.1

        checked :
            (d b : Bool)
            → Moving a left (
                and_then
                  (asserted d b (record s { pending_send = [] }))
                  (λ _. pure (true, drop written left)))
        checked true true = moved
        checked true false = (λ e. cc, (drop written left, moved))
        checked false b = moved
    wrote-Moves a (pos zero) written left s w =
        Ensures-and_then (λ _ s1. s1.session ≡ s.session) (λ s1. s1.session ≡ s.session) _
          (λ s1. MovesSome a left (taken s1.session)) _ _
          (handle_result-Kept (pos zero) (record s { pending_send = left }))
          (λ h s1 e. Moves-none left (ap taken e ∙ w)) (λ s1 e. Moves-still left (ap taken e ∙ w))
    wrote-Moves a (negsuc n) written left s w =
        Ensures-and_then (λ _ s1. s1.session ≡ s.session) (λ s1. s1.session ≡ s.session) _
          (λ s1. MovesSome a left (taken s1.session)) _ _
          (handle_result-Kept (negsuc n) (record s { pending_send = left }))
          (λ h s1 e. Moves-none left (ap taken e ∙ w)) (λ s1 e. Moves-still left (ap taken e ∙ w))
