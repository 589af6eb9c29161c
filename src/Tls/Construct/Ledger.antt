-- ===== src/Tls/Construct/Ledger.antt =====
-- What the constructors of src/socket_tls_impl.cpp hold: the handles of the system and of the TLS library,
-- and what each call of either does to their number.
use sockpuppet.Base.{
  ℕ, suc, ◌-◌, ◌≡◌, ap, ap₂, ◌∙◌, Bool, true, false, Option, none, some, Result, ok, err, Error,
  Action, and_then, arith,
}
use sockpuppet.Base.Int.{ℤ, pos, ◌+ℤ◌}
use sockpuppet.Tls.Construct.{
  Crypto, Process, Method, or_undo, finally, done_or_throw, set_or_throw, handle_or_throw,
}

-- How many handles of each sort are held: descriptors, contexts, BIOs and sessions.
pub record Held : Type 0 where
  pub descriptors : ℕ
  pub contexts : ℕ
  pub bios : ℕ
  pub sessions : ℕ

abbrev pub count_of : {A : Type 0} → Option A → ℕ → ℕ
count_of none n = n
count_of (some a) n = suc n

abbrev pub count_ok : {A : Type 0} → Result A → ℕ → ℕ
count_ok (ok a) n = suc n
count_ok (err e) n = n

-- Each call that makes a handle adds one if it succeeds, each that frees takes one away, a session
-- takes over two BIOs, and the other calls hold what they held.
pub record CryptoLaws (crypto : Crypto) : Type 0 where
  pub held : crypto.World → Held
  pub init_held : (w : crypto.World) → held (crypto.init w) ≡ held w
  pub cleanup_held : (w : crypto.World) → held (crypto.cleanup w) ≡ held w
  pub ctx_new_held :
      (m : Method) (w : crypto.World)
      → let r = crypto.ctx_new m w in
        held r.1 ≡ record (held w) { contexts = count_of r.0 (held w).contexts }
  pub ctx_free_held :
      (c : ℕ) (w : crypto.World)
      → held (crypto.ctx_free c w) ≡ record (held w) { contexts = (held w).contexts - 1 }
  pub set_mode_held : (c : ℕ) (w : crypto.World) → held (crypto.set_mode c w).1 ≡ held w
  pub set_ecdh_auto_held : (c : ℕ) (w : crypto.World) → held (crypto.set_ecdh_auto c w).1 ≡ held w
  pub use_certificate_file_held :
      (c : ℕ) (w : crypto.World) → held (crypto.use_certificate_file c w).1 ≡ held w
  pub use_private_key_file_held :
      (c : ℕ) (w : crypto.World) → held (crypto.use_private_key_file c w).1 ≡ held w
  pub bio_new_held :
      (w : crypto.World)
      → let r = crypto.bio_new w in held r.1 ≡ record (held w) { bios = count_of r.0 (held w).bios }
  pub bio_free_held :
      (b : ℕ) (w : crypto.World)
      → held (crypto.bio_free b w) ≡ record (held w) { bios = (held w).bios - 1 }
  pub ssl_new_held :
      (c : ℕ) (w : crypto.World)
      → let r = crypto.ssl_new c w in
        held r.1 ≡ record (held w) { sessions = count_of r.0 (held w).sessions }
  pub ssl_free_held :
      (c : ℕ) (w : crypto.World)
      → held (crypto.ssl_free c w) ≡ record (held w) { sessions = (held w).sessions - 1 }
  pub set_bio_held :
      (c r b : ℕ) (w : crypto.World)
      → held (crypto.set_bio c r b w) ≡ record (held w) { bios = (held w).bios - 2 }
  pub create_socket_held :
      (w : crypto.World)
      → let r = crypto.create_socket w in
        held r.1 ≡ record (held w) { descriptors = count_ok r.0 (held w).descriptors }
  pub close_held :
      (fd : ℕ) (w : crypto.World)
      → held (crypto.close fd w) ≡ record (held w) { descriptors = (held w).descriptors - 1 }
  pub accept_socket_held :
      (fd : ℕ) (w : crypto.World)
      → let r = crypto.accept_socket fd w in
        held r.1 ≡ record (held w) { descriptors = count_ok r.0 (held w).descriptors }
  pub set_accept_state_held :
      (h : ℕ) (w : crypto.World) → held (crypto.set_accept_state h w) ≡ held w
  pub set_connect_state_held :
      (h : ℕ) (w : crypto.World) → held (crypto.set_connect_state h w) ≡ held w

pub pred_suc : (n : ℕ) → suc n - 1 ≡ n
pred_suc n = omega arith

abbrev pub Level : Type 0
Level = ℤ × Held

abbrev pub with_context : Level → Level
with_context (n, h) = (n, record h { contexts = suc h.contexts })

abbrev pub with_session : Level → Level
with_session (n, h) = (n, record h { sessions = suc h.sessions })

abbrev pub with_descriptor : Level → Level
with_descriptor (n, h) = (n, record h { descriptors = suc h.descriptors })

-- The level with `n` more BIOs.
abbrev pub bios_at : Level → ℕ → Held
bios_at l n = record l.1 { bios = n }

-- The level with one instance more.
abbrev pub with_instance : Level → Level
with_instance (n, h) = (n +ℤ pos 1, h)

module _ (crypto : Crypto) (laws : CryptoLaws crypto) where
  open crypto use {World}
  open laws use {held}

  abbrev pub level : Process World → Level
  level s = (s.curr, held s.world)

  -- The code succeeds at one level of instances and handles, or throws at another.
  abbrev pub Ends : {A : Type 0} → Level → Level → Result A × Process World → Type 0
  Ends l k (ok a, s) = level s ≡ l
  Ends l k (err e, s) = level s ≡ k

  pub Ends-and_then :
      {A B : Type 0} (l m k : Level) (r : Result A × Process World)
      (f : A → Action (Process World) B)
      → Ends l k r
      → ((a : A) (s : Process World) → level s ≡ l → Ends m k (f a s))
      → Ends m k (and_then r f)
  Ends-and_then l m k (ok a, s) f h g = g a s h
  Ends-and_then l m k (err e, s) f h g = h

  pub Ends-or_undo :
      {A : Type 0} (l k m : Level) (undo : Process World → Process World)
      (r : Result A × Process World)
      → Ends l k r
      → ((s : Process World) → level s ≡ k → level (undo s) ≡ m)
      → Ends l m (or_undo crypto undo r)
  Ends-or_undo l k m undo (ok a, s) h g = h
  Ends-or_undo l k m undo (err e, s) h g = g s h

  pub Ends-finally :
      {A : Type 0} (l m k j : Level) (undo : Process World → Process World)
      (r : Result A × Process World)
      → Ends l k r
      → ((s : Process World) → level s ≡ l → level (undo s) ≡ m)
      → ((s : Process World) → level s ≡ k → level (undo s) ≡ j)
      → Ends m j (finally crypto undo r)
  Ends-finally l m k j undo (ok a, s) h f g = f s h
  Ends-finally l m k j undo (err e, s) h f g = g s h

  -- The level once the calls have led to the world `w`.
  pub at_world :
      (s : Process World) (l : Level) (w : World) (h : Held)
      → level s ≡ l
      → held w ≡ h
      → level (record s { world = w }) ≡ (l.0, h)
  at_world s l w h q e = ap₂ (λ c x. (c, x)) (ap (λ (p : Level). p.0) q) e

  done_or_throw-Ends :
      (l : Level) (e : Error) (r : Bool × World) (s : Process World)
      → held r.1 ≡ l.1
      → level s ≡ l
      → Ends l l (done_or_throw crypto e r s)
  done_or_throw-Ends l e (true, w) s x q = at_world s l w l.1 q x
  done_or_throw-Ends l e (false, w) s x q = at_world s l w l.1 q x

  pub set_or_throw-Ends :
      (l : Level) (f : World → Bool × World) (e : Error) (s : Process World)
      → ((w : World) → held (f w).1 ≡ held w)
      → level s ≡ l
      → Ends l l (set_or_throw crypto f e s)
  set_or_throw-Ends l f e s law q =
      done_or_throw-Ends l e (f s.world) s (law s.world ∙ ap (λ (p : Level). p.1) q) q

  pub handle_or_throw-Ends :
      (l : Level) (up : ℕ → Held) (e : Error) (r : Option ℕ × World) (s : Process World) (n : ℕ)
      → up n ≡ l.1
      → held r.1 ≡ up (count_of r.0 n)
      → level s ≡ l
      → Ends (l.0, up (suc n)) l (handle_or_throw crypto e r s)
  handle_or_throw-Ends l up e (some a, w) s n u x q = at_world s l w (up (suc n)) q x
  handle_or_throw-Ends l up e (none, w) s n u x q = at_world s l w l.1 q (x ∙ u)
