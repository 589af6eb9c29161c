-- ===== src/Tests/Threads.antt =====
-- The driver's thread 0 polls while thread 1 wants `stepMtx`.
use sockpuppet.Base.{ℕ, ◌<◌, ◌≤◌, ◌≡◌, refl, ◌⊎◌, inr, true, false, ◌&&◌, none, some, arith}
use sockpuppet.Pool.{assign}
use sockpuppet.Driver.Guards.{
  Pc, polling, polled, unlocking, queueing, locked, waiting, granted, paused, Locks, Threads, Turn,
  begin_step, end_poll, unbump_pipe, unlock_step, unlock_pause, lock_pause, lock_step,
  try_lock_failed, bump_pipe, Move, Reach, here, next, initial,
}
use sockpuppet.Driver.Guards.Exclusion.{holds_step, holds_pause, Reach-IsExclusive}
use sockpuppet.Driver.Guards.Signals.{before_poll}
use sockpuppet.Driver.Guards.Handshake.{
  no_turn, one_more, Waits-handshake, CanAdvance, Reach-advances,
}

abbrev after : ℕ → Pc → Locks → Threads → Threads
after i q k s = record { pcs = assign s.pcs i q; locks = k }

abbrev stepping : Threads
stepping =
    after 0 (polling 0) (record { step_mtx = some 0; pause_mtx = none; signals = 0 }) (initial 0)

abbrev refused : Threads
refused = after 1 queueing stepping.locks stepping

abbrev asking : Threads
asking = after 1 locked (record { step_mtx = some 0; pause_mtx = some 1; signals = 0 }) refused

abbrev bumped : Threads
bumped = after 1 waiting (record { step_mtx = some 0; pause_mtx = some 1; signals = 1 }) asking

abbrev woken : Threads
woken = after 0 (polled 0) bumped.locks bumped

abbrev quietly :
    (i : ℕ) (q : Pc) (k : Locks) (s : Threads)
    → Turn 0 false i (s.pcs i) q s.locks k
    → Move 0 false i s (after i q k s)
quietly i q k s turn = record { to = q; turn = turn; moved = refl }

Reach-bumped : Reach 0 false (initial 0) bumped
Reach-bumped =
    next {t = asking} 1
      (next {t = refused} 1
        (next {t = stepping} 1
          (next {t = initial 0} 0 here (
            quietly 0 (polling 0) stepping.locks (initial 0) (begin_step refl refl refl refl refl)))
          (quietly 1 queueing refused.locks stepping (try_lock_failed 0 refl refl refl refl)))
        (quietly 1 locked asking.locks refused (lock_pause (inr (refl, refl)) refl refl)))
      (quietly 1 waiting bumped.locks asking (bump_pipe refl refl refl))

Reach-IsExclusive_example :
    ((holds_step (bumped.pcs 0) && holds_step (bumped.pcs 1)) ≡ false)
    × ((holds_pause (bumped.pcs 0) && holds_pause (bumped.pcs 1)) ≡ false)
Reach-IsExclusive_example =
    Reach-IsExclusive 0 false 0 bumped Reach-bumped 0 1 (λ e. absurd (omega (arith, e)))

Waits-handshake_example :
    (0 ≤ 1) × ((before_poll (woken.pcs 0) ≡ false) ⊎ (0 < woken.locks.signals))
Waits-handshake_example = Waits-handshake 0 false 0 1 0 bumped woken Reach-bumped refl (
    one_more 0
      (quietly 0 (polled 0) bumped.locks bumped (end_poll (inr (omega arith)) refl refl refl))
      no_turn refl)

Reach-advances_example :
    (j : ℕ) × ((j ≡ 1) ⊎ (holds_step (bumped.pcs j) ≡ true)) × CanAdvance 0 j bumped
Reach-advances_example = Reach-advances 0 0 1 bumped Reach-bumped refl

abbrev unbumped : Threads
unbumped = after 0 (polled 0) (record woken.locks { signals = 0 }) woken

abbrev stepped : Threads
stepped = after 0 unlocking (record unbumped.locks { step_mtx = none }) unbumped

abbrev got_both : Threads
got_both = after 1 granted (record stepped.locks { step_mtx = some 1 }) stepped

abbrev got_step : Threads
got_step = after 1 (paused 0) (record got_both.locks { pause_mtx = none }) got_both

-- The thread that waited has `stepMtx` for itself, as the destructor of a driver wants it, while the
-- driver's thread is still to lock `pauseMtx` before its step returns.
paused_before_return : Reach 0 false (initial 0) got_step
paused_before_return =
    next {t = got_both} 1
      (next {t = stepped} 1
        (next {t = unbumped} 0
          (next {t = woken} 0
            (next {t = bumped} 0 Reach-bumped (
              quietly 0 (polled 0) woken.locks bumped
                (end_poll (inr (omega arith)) refl refl refl)))
            (quietly 0 (polled 0) unbumped.locks woken
              (unbump_pipe refl (omega arith) refl refl refl)))
          (quietly 0 unlocking stepped.locks unbumped (unlock_step refl refl refl)))
        (quietly 1 granted got_both.locks stepped (lock_step refl refl refl refl)))
      (quietly 1 (paused 0) got_step.locks got_both (unlock_pause (inr (refl, refl)) refl))

still_in_step : (got_step.pcs 0 ≡ unlocking) × (got_step.pcs 1 ≡ paused 0)
still_in_step = (refl, refl)
