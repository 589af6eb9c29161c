-- ===== src/Tls/Construct/Guard.antt =====
-- The count of instances in src/ssl_guard.cpp: the TLS library is initialised just while there are any.
use sockpuppet.Base.{ℕ, zero, suc, ◌≡◌, Bool, true, false, List, [], ◌∷◌, ltb, arith}
use sockpuppet.Base.Int.{pos, negsuc, ◌+ℤ◌}
use sockpuppet.Tls.Construct.{Crypto, Process, update_instance_count}

-- Whether the library is ready: `init` makes it so, and `cleanup` ends it.
pub record ReadyLaws (crypto : Crypto) : Type 0 where
  pub is_ready : crypto.World → Bool
  pub init_ready : (w : crypto.World) → is_ready (crypto.init w) ≡ true
  pub cleanup_ready : (w : crypto.World) → is_ready (crypto.cleanup w) ≡ false

-- The guards that are constructed and destroyed, in order.
pub data Change : Type 0 where
  construct destroy : Change

abbrev pub instances : List Change → ℕ → ℕ
instances [] n = n
instances (construct ∷ cs) n = instances cs (suc n)
instances (destroy ∷ cs) zero = instances cs zero
instances (destroy ∷ cs) (suc n) = instances cs n

-- Only guards that have been constructed are destroyed.
abbrev pub IsPaired : List Change → ℕ → Type 0
IsPaired [] n = Unit {0}
IsPaired (construct ∷ cs) n = IsPaired cs (suc n)
IsPaired (destroy ∷ cs) zero = ⊥
IsPaired (destroy ∷ cs) (suc n) = IsPaired cs n

pub plus_one : (n : ℕ) → pos n +ℤ pos 1 ≡ pos (suc n)
unfolding ◌+ℤ◌
plus_one n = ground arith

pub minus_one : (n : ℕ) → pos (suc n) +ℤ negsuc 0 ≡ pos n
unfolding ◌+ℤ◌
minus_one n = ground arith

module _ (crypto : Crypto) (laws : ReadyLaws crypto) where
  open laws use {is_ready}

  abbrev pub change_count : Change → Process crypto.World → Process crypto.World
  change_count construct = update_instance_count crypto (pos 1)
  change_count destroy = update_instance_count crypto (negsuc 0)

  abbrev pub run_changes : List Change → Process crypto.World → Process crypto.World
  run_changes [] s = s
  run_changes (c ∷ cs) s = run_changes cs (change_count c s)

  -- The count is `n`, and the library is ready if and only if that is not zero.
  pub record Counts (n : ℕ) (s : Process crypto.World) : Type 0 where
    pub count : s.curr ≡ pos n
    pub ready : is_ready s.world ≡ ltb 0 n

  construct-Counts :
      (n : ℕ) (s : Process crypto.World)
      → Counts n s
      → Counts (suc n) (update_instance_count crypto (pos 1) s)
  unfolding update_instance_count
  construct-Counts zero s c = record {
    count = rw c.count (plus_one 0);
    ready = rw (c.count, plus_one 0) (laws.init_ready s.world);
  }
  construct-Counts (suc n) s c = record {
    count = rw c.count (plus_one (suc n));
    ready = rw (c.count, plus_one (suc n)) (ground (arith, c.ready));
  }

  destroy-Counts :
      (n : ℕ) (s : Process crypto.World)
      → Counts (suc n) s
      → Counts n (update_instance_count crypto (negsuc 0) s)
  unfolding update_instance_count
  destroy-Counts zero s c = record {
    count = rw c.count (minus_one 0);
    ready = rw (c.count, minus_one 0) (laws.cleanup_ready s.world);
  }
  destroy-Counts (suc n) s c = record {
    count = rw c.count (minus_one (suc n));
    ready = rw (c.count, minus_one (suc n)) (ground (arith, c.ready));
  }

  -- However guards are constructed and destroyed, if none is destroyed that was not constructed, the count
  -- is that of the living guards and the TLS library is ready just while there are any.
  pub run_changes-Counts :
      (cs : List Change) (n : ℕ) (s : Process crypto.World)
      → Counts n s
      → IsPaired cs n
      → Counts (instances cs n) (run_changes cs s)
  run_changes-Counts [] n s c p = c
  run_changes-Counts (construct ∷ cs) n s c p =
      run_changes-Counts cs (suc n) _ (construct-Counts n s c) p
  run_changes-Counts (destroy ∷ cs) zero s c p = absurd p
  run_changes-Counts (destroy ∷ cs) (suc n) s c p =
      run_changes-Counts cs n _ (destroy-Counts n s c) p
