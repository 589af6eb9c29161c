-- ===== src/Driver/Guards.antt =====
-- How a thread that steps the driver and the threads that change its lists share `stepMtx` and
-- `pauseMtx` of src/driver_impl.{h,cpp}: `StepGuard`, `PauseGuard`, and the signalling pipe that they
-- wake the driver with.
pub mod Exclusion
pub mod Signals
pub mod Handshake
use sockpuppet.Base.{
  ℕ, zero, suc, ◌+◌, ◌-◌, ◌<◌, ◌≡◌, ◌⊎◌, Bool, true, false, Option, none, some, ◌==◌,
}
use sockpuppet.Pool.{assign}

-- Where a thread is. `nested` counts the guards that callbacks of the thread have taken on top of the
-- one named, since `stepMtx` is a recursive mutex.
pub data Pc : Type 0 where
  -- In no method of the driver.
  outside : Pc
  -- In `Step` with `stepMtx`, before and after `Wait` has returned.
  polling : (nested : ℕ) → Pc
  polled : (nested : ℕ) → Pc
  -- In the destructor of `StepGuard`: without `stepMtx`, before and after it gets `pauseMtx`.
  unlocking : Pc
  yielded : Pc
  -- In the constructor of `PauseGuard`, after `try_lock` has failed: without a mutex, with `pauseMtx`,
  -- with `pauseMtx` after the call of `Bump`, and with both.
  queueing : Pc
  locked : Pc
  waiting : Pc
  granted : Pc
  -- In a method of the driver, with `stepMtx` from a `PauseGuard`.
  paused : (nested : ℕ) → Pc

pub record Locks : Type 0 where
  pub step_mtx : Option ℕ
  pub pause_mtx : Option ℕ
  -- Datagrams in the signalling pipe.
  pub signals : ℕ

pub record Threads : Type 0 where
  pub pcs : ℕ → Pc
  pub locks : Locks

-- One turn of thread `i`, from the place `p` to the place `q`. Only the thread `driver` calls `Step`.
-- With `external` the poll of a step may also end by its timeout or by a socket.
pub data Turn (driver : ℕ) (external : Bool) (i : ℕ) (p q : Pc) (l k : Locks) : Type 0 where
  begin_step :
      i ≡ driver
      → p ≡ outside
      → q ≡ polling 0
      → l.step_mtx ≡ none
      → k ≡ record l { step_mtx = some i }
      → Turn driver external i p q l k
  end_poll :
      (external ≡ true) ⊎ (0 < l.signals)
      → p ≡ polling 0
      → q ≡ polled 0
      → k ≡ l
      → Turn driver external i p q l k
  unbump_pipe :
      i ≡ driver
      → 0 < l.signals
      → p ≡ polled 0
      → q ≡ polled 0
      → k ≡ record l { signals = l.signals - 1 }
      → Turn driver external i p q l k
  unlock_step :
      p ≡ polled 0
      → q ≡ unlocking
      → k ≡ record l { step_mtx = none }
      → Turn driver external i p q l k
  lock_pause :
      (p ≡ unlocking) × (q ≡ yielded) ⊎ (p ≡ queueing) × (q ≡ locked)
      → l.pause_mtx ≡ none
      → k ≡ record l { pause_mtx = some i }
      → Turn driver external i p q l k
  unlock_pause :
      (p ≡ yielded) × (q ≡ outside) ⊎ (p ≡ granted) × (q ≡ paused 0)
      → k ≡ record l { pause_mtx = none }
      → Turn driver external i p q l k
  try_lock :
      p ≡ outside
      → q ≡ paused 0
      → l.step_mtx ≡ none
      → k ≡ record l { step_mtx = some i }
      → Turn driver external i p q l k
  try_lock_failed :
      (j : ℕ)
      → p ≡ outside
      → q ≡ queueing
      → l.step_mtx ≡ some j
      → k ≡ l
      → Turn driver external i p q l k
  bump_pipe :
      p ≡ locked
      → q ≡ waiting
      → k ≡ record l { signals = suc l.signals }
      → Turn driver external i p q l k
  lock_step :
      p ≡ waiting
      → q ≡ granted
      → l.step_mtx ≡ none
      → k ≡ record l { step_mtx = some i }
      → Turn driver external i p q l k
  unlock_paused :
      p ≡ paused 0 → q ≡ outside → k ≡ record l { step_mtx = none } → Turn driver external i p q l k
  -- A callback of the thread takes or releases one more guard; `try_lock` succeeds for the owner.
  relock :
      (place : ℕ → Pc) (n : ℕ)
      → (place ≡ polling) ⊎ (place ≡ polled) ⊎ (place ≡ paused)
      → (p ≡ place n) × (q ≡ place (suc n)) ⊎ (p ≡ place (suc n)) × (q ≡ place n)
      → k ≡ l
      → Turn driver external i p q l k
  -- `Stop` signals without a mutex.
  signal_stop : q ≡ p → k ≡ record l { signals = suc l.signals } → Turn driver external i p q l k

-- No thread is in a method of the driver; calls of `Stop` may have left signals in the pipe.
abbrev pub initial : ℕ → Threads
initial signals = record {
  pcs = λ i. outside;
  locks = record { step_mtx = none; pause_mtx = none; signals = signals };
}

module _ (driver : ℕ) (external : Bool) where
  -- A turn of one thread, the others stay where they are.
  pub record Move (i : ℕ) (s t : Threads) : Type 0 where
    pub to : Pc
    pub turn : Turn driver external i (s.pcs i) to s.locks t.locks
    pub moved : t.pcs ≡ assign s.pcs i to

  -- What a sequence of turns reaches.
  pub data Reach (s : Threads) : Threads → Type 0 where
    here : Reach s s
    next : {t u : Threads} (i : ℕ) → Reach s t → Move i t u → Reach s u
