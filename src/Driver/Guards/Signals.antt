-- ===== src/Driver/Guards/Signals.antt =====
-- What the turns of src/driver_impl.{h,cpp} keep of the signalling pipe and of the thread that steps.
use sockpuppet.Base.{
  ℕ, suc, ◌+◌, ◌<◌, ◌≤◌, ◌≡◌, ◌≢◌, refl, sym, subst, ap, ◌∙◌, ◌⊎◌, inl, inr, Bool, true, false,
  none, ◌==◌, arith, Bool-cases, le_refl,
}
use sockpuppet.Driver.Guards.{
  Pc, polling, polled, unlocking, yielded, waiting, Locks, Threads, Turn, begin_step, end_poll,
  unbump_pipe, unlock_step, lock_pause, unlock_pause, try_lock, try_lock_failed, bump_pipe,
  lock_step, unlock_paused, relock, signal_stop, Move, Reach, here, next, initial,
}
use sockpuppet.Driver.Guards.Exclusion.{
  ==_eq, holds_pause, owns, IsConsistent, Move-IsConsistent, initial-IsConsistent,
}

-- A step that has not reached the return of its poll, or is still to begin.
abbrev pub before_poll : Pc → Bool
before_poll (polled n) = false
before_poll unlocking = false
before_poll _ = true

-- How many steps the thread may begin while another one keeps `pauseMtx`.
abbrev pub pending : Pc → ℕ
pending (polling n) = 0
pending (polled n) = 0
pending unlocking = 0
pending _ = 1

abbrev pub in_step : Pc → Bool
in_step (polling n) = true
in_step (polled n) = true
in_step unlocking = true
in_step yielded = true
in_step _ = false

abbrev is_waiting : Pc → Bool
is_waiting waiting = true
is_waiting _ = false

module _ (driver : ℕ) (external : Bool) where
  -- Steps that a turn begins.
  abbrev pub begun : {i : ℕ} {p q : Pc} {l k : Locks} → Turn driver external i p q l k → ℕ
  begun (begin_step d a b n e) = 1
  begun _ = 0

  unfoldable pub Facts : ℕ → Pc → Pc → Locks → Locks → ℕ → Type 0
  Facts i p q l k n =
      ((l.signals ≤ k.signals) ⊎ (i ≡ driver) × (before_poll q ≡ false))
      × (is_waiting q ≡ true → 0 < k.signals)
      × ((l.pause_mtx ≡ none)
          ⊎ (before_poll q ≡ true → before_poll p ≡ true) × (n + pending q ≤ pending p))
      × ((n ≡ 0) ⊎ (i ≡ driver))
      × (in_step q ≡ true → (in_step p ≡ true) ⊎ (i ≡ driver))

  pub Turn-Facts :
      (i : ℕ) (p q : Pc) (l k : Locks) (m : Turn driver external i p q l k)
      → Facts i p q l k (begun m)
  unfolding Facts
  Turn-Facts i p q l k (begin_step d a b n e) =
      rw (a, b, e)
        (inl (le_refl l.signals), λ e. cc, inr (λ e. refl, omega arith), inr d, λ e. inr d)
  Turn-Facts i p q l k (end_poll x a b e) =
      rw (a, b, e)
        (inl (le_refl l.signals), λ e. cc, inr (λ e. cc, omega arith), inl refl, λ e. inl refl)
  Turn-Facts i p q l k (unbump_pipe d x a b e) =
      rw (a, b, e) (inr (d, refl), λ e. cc, inr (λ e. cc, omega arith), inl refl, λ e. inl refl)
  Turn-Facts i p q l k (unlock_step a b e) =
      rw (a, b, e)
        (inl (le_refl l.signals), λ e. cc, inr (λ e. cc, omega arith), inl refl, λ e. inl refl)
  Turn-Facts i p q l k (lock_pause (inl x) n e) =
      rw (x.0, x.1, e) (inl (le_refl l.signals), λ e. cc, inl n, inl refl, λ e. inl refl)
  Turn-Facts i p q l k (lock_pause (inr x) n e) =
      rw (x.0, x.1, e) (inl (le_refl l.signals), λ e. cc, inl n, inl refl, λ e. cc)
  Turn-Facts i p q l k (unlock_pause (inl x) e) =
      rw (x.0, x.1, e)
        (inl (le_refl l.signals), λ e. cc, inr (λ e. refl, omega arith), inl refl, λ e. cc)
  Turn-Facts i p q l k (unlock_pause (inr x) e) =
      rw (x.0, x.1, e)
        (inl (le_refl l.signals), λ e. cc, inr (λ e. refl, omega arith), inl refl, λ e. cc)
  Turn-Facts i p q l k (try_lock a b n e) =
      rw (a, b, e)
        (inl (le_refl l.signals), λ e. cc, inr (λ e. refl, omega arith), inl refl, λ e. cc)
  Turn-Facts i p q l k (try_lock_failed j a b n e) =
      rw (a, b, e)
        (inl (le_refl l.signals), λ e. cc, inr (λ e. refl, omega arith), inl refl, λ e. cc)
  Turn-Facts i p q l k (bump_pipe a b e) =
      rw (a, b, e)
        (inl (omega arith), λ e. omega arith, inr (λ e. refl, omega arith), inl refl, λ e. cc)
  Turn-Facts i p q l k (lock_step a b n e) =
      rw (a, b, e)
        (inl (le_refl l.signals), λ e. cc, inr (λ e. refl, omega arith), inl refl, λ e. cc)
  Turn-Facts i p q l k (unlock_paused a b e) =
      rw (a, b, e)
        (inl (le_refl l.signals), λ e. cc, inr (λ e. refl, omega arith), inl refl, λ e. cc)
  Turn-Facts i p q l k (relock place n w c e) = rw e (renested c)
    where
      inside :
          (a b : ℕ)
          → (before_poll (place a) ≡ before_poll (place b))
            × (pending (place a) ≡ pending (place b))
            × (is_waiting (place a) ≡ false)
            × (in_step (place a) ≡ in_step (place b))
      inside a b = elim w [
        | inl e1 ↦ rw e1 (refl, refl, refl, refl)
        | inr (inl e1) ↦ rw e1 (refl, refl, refl, refl)
        | inr (inr e1) ↦ rw e1 (refl, refl, refl, refl)
      ]

      renested :
          (p ≡ place n) × (q ≡ place (suc n)) ⊎ (p ≡ place (suc n)) × (q ≡ place n)
          → Facts i p q l l 0
      renested (inl d) = rw (d.0, d.1) (ground (arith, inside n (suc n), inside (suc n) n))
      renested (inr d) = rw (d.0, d.1) (ground (arith, inside n (suc n), inside (suc n) n))
  Turn-Facts i p q l k (signal_stop b e) =
      rw (b, e)
        (inl (omega arith), λ e. omega arith, inr (λ e. e, omega arith), inl refl, λ e. inl e)

  -- Whichever thread waits for `stepMtx` with `pauseMtx`: a step of the driver that is still to begin,
  -- or to poll, will find a signal in the pipe.
  unfoldable pub IsSignalled : Threads → Type 0
  IsSignalled s =
      (w : ℕ) → s.pcs w ≡ waiting → before_poll (s.pcs driver) ≡ true → 0 < s.locks.signals

  -- While `w` waits, nobody else gets `pauseMtx`.
  pub pause_taken :
      (s : Threads) (w : ℕ)
      → IsConsistent driver external s
      → s.pcs w ≡ waiting
      → s.locks.pause_mtx ≢ none
  pause_taken s w c e n =
      let a : holds_pause (s.pcs w) ≡ owns s.locks.pause_mtx w = (c w).1 in
      let b : true ≡ false =
        subst (λ p. holds_pause p ≡ owns none w) e
          (subst (λ o. holds_pause (s.pcs w) ≡ owns o w) n a) in
      cc

  -- Where a thread is after a turn of thread `i`.
  pub moved_self :
      (i j : ℕ) (s t : Threads) (m : Move driver external i s t) → (i == j) ≡ true → t.pcs j ≡ m.to
  moved_self i j s t m e = rw (m.moved, e) refl

  pub moved_other :
      (i j : ℕ) (s t : Threads) (m : Move driver external i s t)
      → (i == j) ≡ false
      → t.pcs j ≡ s.pcs j
  moved_other i j s t m e = rw (m.moved, e) refl

  Move-IsSignalled :
      (i : ℕ) (s t : Threads)
      → Move driver external i s t
      → IsConsistent driver external s
      → IsSignalled s
      → IsSignalled t
  unfolding IsSignalled Facts
  Move-IsSignalled i s t m c g w at before =
      let facts = Turn-Facts i (s.pcs i) m.to s.locks t.locks m.turn in
      elim (Bool-cases (i == w)) [
        | inl e ↦ facts.1 (ap is_waiting (sym (moved_self i w s t m e) ∙ at))
        | inr e ↦
            (let waits : s.pcs w ≡ waiting = sym (moved_other i w s t m e) ∙ at in
              elim facts.2 [
                | inl n ↦ absurd (pause_taken s w c waits n)
                | inr (f, le) ↦ elim (Bool-cases (i == driver)) [
                  | inl d ↦
                      (let before' : before_poll m.to ≡ true =
                          ap before_poll (sym (moved_self i driver s t m d)) ∙ before in
                        let signal =
                          g w waits (
                            ap (λ a. before_poll (s.pcs a)) (sym (==_eq i driver d)) ∙ f before') in
                        elim facts.0 [ inl k ↦ omega arith | inr (x, y) ↦ cc ])
                  | inr d ↦
                      (let signal =
                          g w waits
                            (ap before_poll (sym (moved_other i driver s t m d)) ∙ before) in
                        elim facts.0 [ inl k ↦ omega arith | inr (x, y) ↦ ground arith ])
                ]
              ])
      ]

  -- Only the driver's thread is in a step.
  abbrev pub IsDriven : Threads → Type 0
  IsDriven s = (i : ℕ) → in_step (s.pcs i) ≡ true → i ≡ driver

  Move-IsDriven : (i : ℕ) (s t : Threads) → Move driver external i s t → IsDriven s → IsDriven t
  unfolding Facts
  Move-IsDriven i s t m d j e = elim (Bool-cases (i == j)) [
    | inr o ↦ d j (ap in_step (sym (moved_other i j s t m o)) ∙ e)
    | inl o ↦
        sym (==_eq i j o)
        ∙ elim ((Turn-Facts i (s.pcs i) m.to s.locks t.locks m.turn).4
            (ap in_step (sym (moved_self i j s t m o)) ∙ e)) [ inl x ↦ d i x | inr x ↦ x ]
  ]

  pub record IsRegular (s : Threads) : Type 0 where
    pub consistent : IsConsistent driver external s
    pub signalled : IsSignalled s
    pub driven : IsDriven s

  pub Move-IsRegular :
      (i : ℕ) (s t : Threads) → Move driver external i s t → IsRegular s → IsRegular t
  Move-IsRegular i s t m r = record {
    consistent = Move-IsConsistent driver external i s t m r.consistent;
    signalled = Move-IsSignalled i s t m r.consistent r.signalled;
    driven = Move-IsDriven i s t m r.driven;
  }

  pub Reach-IsRegular :
      (signals : ℕ) (t : Threads) → Reach driver external (initial signals) t → IsRegular t
  unfolding IsSignalled
  Reach-IsRegular signals t here = record {
    consistent = initial-IsConsistent driver external signals;
    signalled = λ w e b. cc;
    driven = λ i e. cc;
  }
  Reach-IsRegular signals t (next {t = u} i r m) =
      Move-IsRegular i u t m (Reach-IsRegular signals u r)
