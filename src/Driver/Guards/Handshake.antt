-- ===== src/Driver/Guards/Handshake.antt =====
-- `StepGuard` and `PauseGuard` of src/driver_impl.{h,cpp}: a thread that waits for `stepMtx` gets it
-- after one step of the driver at most, which the signalling pipe does not let block.
use sockpuppet.Base.{
  ℕ, zero, suc, ◌+◌, ◌<◌, ◌≤◌, ◌≡◌, refl, subst, ap, ◌∙◌, ◌⊎◌, inl, inr, Bool, true, false, none,
  some, ◌==◌, ==_refl, arith, Bool-cases, Option-cases,
}
use sockpuppet.Pool.{assign}
use sockpuppet.Driver.Guards.{
  Pc, outside, polling, polled, unlocking, yielded, queueing, locked, waiting, granted, paused,
  Locks, Threads, Turn, end_poll, unlock_step, unlock_pause, lock_step, unlock_paused, relock, Move,
  Reach, initial,
}
use sockpuppet.Driver.Guards.Exclusion.{==_eq, holds_step}
use sockpuppet.Driver.Guards.Signals.{
  before_poll, pending, in_step, begun, Facts, Turn-Facts, IsSignalled, pause_taken, moved_self,
  moved_other, IsRegular, Move-IsRegular, Reach-IsRegular,
}

pending_le : (p : Pc) → 0 + pending p ≤ 1
pending_le p = ground arith

module _ (driver : ℕ) (external : Bool) where
  -- Turns during which thread `w` waits for `stepMtx`, and the number of steps begun meanwhile.
  pub data Waits (w : ℕ) (s : Threads) : Threads → ℕ → Type 0 where
    no_turn : Waits w s s 0
    one_more :
        {u t : Threads} {n : ℕ} (i : ℕ) (m : Move driver external i u t)
        → Waits w s u n
        → t.pcs w ≡ waiting
        → Waits w s t (n + begun driver external m.turn)

  module _ (w : ℕ) (s : Threads) (regular : IsRegular driver external s)
      (waits : s.pcs w ≡ waiting) where
    abbrev Waited : Threads → ℕ → Type 0
    Waited t n =
        IsRegular driver external t × (t.pcs w ≡ waiting) × (n + pending (t.pcs driver) ≤ 1)

    Move-pending :
        (i : ℕ) (u t : Threads) (m : Move driver external i u t)
        → IsRegular driver external u
        → u.pcs w ≡ waiting
        → begun driver external m.turn + pending (t.pcs driver) ≤ pending (u.pcs driver)
    unfolding Facts
    Move-pending i u t m r e =
        let facts = Turn-Facts driver external i (u.pcs i) m.to u.locks t.locks m.turn in
        elim facts.2 [
          | inl n ↦ absurd (pause_taken driver external u w r.consistent e n)
          | inr (f, le) ↦ elim (Bool-cases (i == driver)) [
            | inl d ↦
                (let here' = ap pending (moved_self driver external i driver u t m d) in
                  let there = ap (λ a. pending (u.pcs a)) (==_eq i driver d) in
                  omega (arith, le, here', there))
            | inr d ↦ elim facts.3 [
              | inl z ↦ omega (arith, z, ap pending (moved_other driver external i driver u t m d))
              | inr x ↦ ground arith
            ]
          ]
        ]

    Waits-Waited : (t : Threads) (n : ℕ) → Waits w s t n → Waited t n
    Waits-Waited t n no_turn = (regular, waits, pending_le (s.pcs driver))
    Waits-Waited t n (one_more {u} {n = k} i m r e) =
        let before = Waits-Waited u k r in
        let le = Move-pending i u t m before.0 before.1 in
        (Move-IsRegular driver external i u t m before.0, e, omega (arith, le, before.2))

  -- While a thread waits for `stepMtx` in a `PauseGuard`, whatever turns the threads take, the driver
  -- begins one step at most, and a step that is still to begin or to poll finds a signal in the pipe, so that
  -- its poll does not block.
  pub Waits-handshake :
      (signals w n : ℕ) (s t : Threads)
      → Reach driver external (initial signals) s
      → s.pcs w ≡ waiting
      → Waits w s t n
      → (n ≤ 1) × ((before_poll (t.pcs driver) ≡ false) ⊎ (0 < t.locks.signals))
  unfolding IsSignalled
  Waits-handshake signals w n s t r e ws =
      let (regular, at, le) =
        Waits-Waited w s (Reach-IsRegular driver external signals s r) e t n ws in
      (
        omega (arith, le),
        elim (Bool-cases (before_poll (t.pcs driver))) [
          | inl b ↦ inr (regular.signalled w at b)
          | inr b ↦ inl b
        ],
      )

-- How far a thread is from giving `stepMtx` back.
abbrev pub to_release : Pc → ℕ
to_release (polling n) = 3 + n
to_release (polled n) = 2 + n
to_release waiting = 3
to_release granted = 2
to_release (paused n) = suc n
to_release _ = 0

module _ (driver : ℕ) where
  -- Thread `j` can take a turn that brings it nearer to giving `stepMtx` back.
  abbrev pub CanAdvance : ℕ → Threads → Type 0
  CanAdvance j s =
      (t : Threads) × (m : Move driver false j s t) × (to_release m.to < to_release (s.pcs j))

  advance :
      (j : ℕ) (s : Threads) (q : Pc) (k : Locks)
      → Turn driver false j (s.pcs j) q s.locks k
      → to_release q < to_release (s.pcs j)
      → CanAdvance j s
  advance j s q k turn lt = (
    record { pcs = assign s.pcs j q; locks = k },
    record { to = q; turn = turn; moved = refl },
    lt,
  )

  owner_advances :
      (j w : ℕ) (s : Threads) (p : Pc)
      → IsRegular driver false s
      → s.pcs w ≡ waiting
      → s.pcs j ≡ p
      → holds_step p ≡ true
      → CanAdvance j s
  unfolding IsSignalled
  owner_advances j w s (polling zero) r at e h =
      advance j s (polled 0) s.locks (end_poll (inr signal) e refl refl) (rw e (omega arith))
    where
      mine : j ≡ driver
      mine = r.driven j (ap in_step e)

      signal : 0 < s.locks.signals
      signal = r.signalled w at (subst (λ a. before_poll (s.pcs a) ≡ true) mine (ap before_poll e))
  owner_advances j w s (polling (suc n)) r at e h =
      advance j s (polling n) s.locks (relock polling n (inl refl) (inr (e, refl)) refl)
        (rw e (omega arith))
  owner_advances j w s (polled zero) r at e h =
      advance j s unlocking (record s.locks { step_mtx = none }) (unlock_step e refl refl)
        (rw e (omega arith))
  owner_advances j w s (polled (suc n)) r at e h =
      advance j s (polled n) s.locks (relock polled n (inr (inl refl)) (inr (e, refl)) refl)
        (rw e (omega arith))
  owner_advances j w s granted r at e h =
      advance j s (paused 0) (record s.locks { pause_mtx = none })
        (unlock_pause (inr (e, refl)) refl) (rw e (omega arith))
  owner_advances j w s (paused zero) r at e h =
      advance j s outside (record s.locks { step_mtx = none }) (unlock_paused e refl refl)
        (rw e (omega arith))
  owner_advances j w s (paused (suc n)) r at e h =
      advance j s (paused n) s.locks (relock paused n (inr (inr refl)) (inr (e, refl)) refl)
        (rw e (omega arith))
  owner_advances j w s outside r at e h = cc
  owner_advances j w s unlocking r at e h = cc
  owner_advances j w s yielded r at e h = cc
  owner_advances j w s queueing r at e h = cc
  owner_advances j w s locked r at e h = cc
  owner_advances j w s waiting r at e h = cc

  -- A thread that waits for `stepMtx` is never stuck, even if no socket and no timeout ever ends a poll:
  -- it can take the mutex if that is free, and otherwise its owner can take a turn that brings it
  -- nearer to giving it back.
  pub Reach-advances :
      (signals w : ℕ) (s : Threads)
      → Reach driver false (initial signals) s
      → s.pcs w ≡ waiting
      → (j : ℕ) × ((j ≡ w) ⊎ (holds_step (s.pcs j) ≡ true)) × CanAdvance j s
  Reach-advances signals w s r at = elim (Option-cases s.locks.step_mtx) [
    | inl n ↦ (
      w,
      inl refl,
      advance w s granted (record s.locks { step_mtx = some w }) (lock_step at refl n refl)
          (rw at (omega arith)),
    )
    | inr (j, o) ↦
        (let regular = Reach-IsRegular driver false signals s r in
          let h : holds_step (s.pcs j) ≡ true = (regular.consistent j).0 ∙ rw o (==_refl j) in
          (j, inr h, owner_advances j w s (s.pcs j) regular at refl h))
  ]
