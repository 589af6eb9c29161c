-- ===== src/Driver/Guards/Exclusion.antt =====
-- The two mutexes of src/driver_impl.{h,cpp} and the threads that are past them.
use sockpuppet.Base.{
  ℕ, suc, ◌-◌, ◌≡◌, refl, sym, subst, ◌∙◌, inl, inr, Bool, true, false, Option, none, some, ◌&&◌,
  ◌≢◌, ◌==◌, ==_refl, arith, Bool-cases,
}
use sockpuppet.Driver.Guards.{
  Pc, outside, polling, polled, unlocking, yielded, queueing, locked, waiting, granted, paused,
  Locks, Threads, Turn, begin_step, end_poll, unbump_pipe, unlock_step, lock_pause, unlock_pause,
  try_lock, try_lock_failed, bump_pipe, lock_step, unlock_paused, relock, signal_stop, Move, Reach,
  here, next, initial,
}

abbrev pub holds_step : Pc → Bool
holds_step (polling n) = true
holds_step (polled n) = true
holds_step granted = true
holds_step (paused n) = true
holds_step _ = false

abbrev pub holds_pause : Pc → Bool
holds_pause yielded = true
holds_pause locked = true
holds_pause waiting = true
holds_pause granted = true
holds_pause _ = false

abbrev pub owns : Option ℕ → ℕ → Bool
owns none i = false
owns (some j) i = j == i

-- A mutex has at most one owner.
pub owns_unique : (m : Option ℕ) (i j : ℕ) → owns m i ≡ true → owns m j ≡ true → i ≡ j
owns_unique none i j a b = cc
owns_unique (some k) i j a b = ground arith

-- A mutex goes from nobody to thread `i`, or back: for the others nothing changes.
abbrev pub Others : ℕ → Locks → Locks → Type 0
Others i l k =
    (j : ℕ)
    → (i == j) ≡ false
    → (owns k.step_mtx j ≡ owns l.step_mtx j) × (owns k.pause_mtx j ≡ owns l.pause_mtx j)

abbrev pub Agrees : Pc → Locks → ℕ → Type 0
Agrees p l i = (holds_step p ≡ owns l.step_mtx i) × (holds_pause p ≡ owns l.pause_mtx i)

owns-taken : (m : Option ℕ) (i j : ℕ) → m ≡ none → (i == j) ≡ false → owns (some i) j ≡ owns m j
owns-taken m i j e ne = rw (e, ne) refl

owns-released :
    (m : Option ℕ) (i j : ℕ) → owns m i ≡ true → (i == j) ≡ false → owns none j ≡ owns m j
owns-released none i j o ne = refl
owns-released (some k) i j o ne = ground arith

pub ==_eq : (i j : ℕ) → (i == j) ≡ true → i ≡ j
==_eq i j e = ground arith

module _ (i : ℕ) (p q : Pc) (l : Locks) where
  abbrev Effect : Locks → Type 0
  Effect k = Agrees p l i → Agrees q k i × Others i l k

  same-Effect :
      (n : ℕ)
      → holds_step q ≡ holds_step p
      → holds_pause q ≡ holds_pause p
      → Effect (record l { signals = n })
  same-Effect n a b (x, y) = ((a ∙ x, b ∙ y), λ j ne. (refl, refl))

  take_step-Effect :
      l.step_mtx ≡ none
      → holds_step q ≡ true
      → holds_pause q ≡ holds_pause p
      → Effect (record l { step_mtx = some i })
  take_step-Effect n a b (x, y) =
      ((a ∙ sym (==_refl i), b ∙ y), λ j ne. (owns-taken l.step_mtx i j n ne, refl))

  free_step-Effect :
      holds_step p ≡ true
      → holds_step q ≡ false
      → holds_pause q ≡ holds_pause p
      → Effect (record l { step_mtx = none })
  free_step-Effect h a b (x, y) =
      ((a, b ∙ y), λ j ne. (owns-released l.step_mtx i j (sym x ∙ h) ne, refl))

  take_pause-Effect :
      l.pause_mtx ≡ none
      → holds_pause q ≡ true
      → holds_step q ≡ holds_step p
      → Effect (record l { pause_mtx = some i })
  take_pause-Effect n a b (x, y) =
      ((b ∙ x, a ∙ sym (==_refl i)), λ j ne. (refl, owns-taken l.pause_mtx i j n ne))

  free_pause-Effect :
      holds_pause p ≡ true
      → holds_pause q ≡ false
      → holds_step q ≡ holds_step p
      → Effect (record l { pause_mtx = none })
  free_pause-Effect h a b (x, y) =
      ((b ∙ x, a), λ j ne. (refl, owns-released l.pause_mtx i j (sym y ∙ h) ne))

module _ (driver : ℕ) (external : Bool) where
  Turn-Effect : (i : ℕ) (p q : Pc) (l k : Locks) → Turn driver external i p q l k → Effect i p q l k
  Turn-Effect i p q l k (begin_step d a b n e) =
      rw (a, b, e) (take_step-Effect i outside (polling 0) l n refl refl)
  Turn-Effect i p q l k (end_poll x a b e) =
      rw (a, b, e) (same-Effect i (polling 0) (polled 0) l l.signals refl refl)
  Turn-Effect i p q l k (unbump_pipe d x a b e) =
      rw (a, b, e) (same-Effect i (polled 0) (polled 0) l (l.signals - 1) refl refl)
  Turn-Effect i p q l k (unlock_step a b e) =
      rw (a, b, e) (free_step-Effect i (polled 0) unlocking l refl refl refl)
  Turn-Effect i p q l k (lock_pause (inl x) n e) =
      rw (x.0, x.1, e) (take_pause-Effect i unlocking yielded l n refl refl)
  Turn-Effect i p q l k (lock_pause (inr x) n e) =
      rw (x.0, x.1, e) (take_pause-Effect i queueing locked l n refl refl)
  Turn-Effect i p q l k (unlock_pause (inl x) e) =
      rw (x.0, x.1, e) (free_pause-Effect i yielded outside l refl refl refl)
  Turn-Effect i p q l k (unlock_pause (inr x) e) =
      rw (x.0, x.1, e) (free_pause-Effect i granted (paused 0) l refl refl refl)
  Turn-Effect i p q l k (try_lock a b n e) =
      rw (a, b, e) (take_step-Effect i outside (paused 0) l n refl refl)
  Turn-Effect i p q l k (try_lock_failed j a b n e) =
      rw (a, b, e) (same-Effect i outside queueing l l.signals refl refl)
  Turn-Effect i p q l k (bump_pipe a b e) =
      rw (a, b, e) (same-Effect i locked waiting l (suc l.signals) refl refl)
  Turn-Effect i p q l k (lock_step a b n e) =
      rw (a, b, e) (take_step-Effect i waiting granted l n refl refl)
  Turn-Effect i p q l k (unlock_paused a b e) =
      rw (a, b, e) (free_step-Effect i (paused 0) outside l refl refl refl)
  Turn-Effect i p q l k (relock place n w c e) = rw e renest
    where
      inside : (n : ℕ) → (holds_step (place n) ≡ true) × (holds_pause (place n) ≡ false)
      inside m = elim w [
        | inl e1 ↦ rw e1 (refl, refl)
        | inr (inl e1) ↦ rw e1 (refl, refl)
        | inr (inr e1) ↦ rw e1 (refl, refl)
      ]

      renest : Effect i p q l l
      renest = elim c [
        | inl d ↦
            rw (d.0, d.1)
              (same-Effect i (place n) (place (suc n)) l l.signals
                ((inside (suc n)).0 ∙ sym (inside n).0) ((inside (suc n)).1 ∙ sym (inside n).1))
        | inr d ↦
            rw (d.0, d.1)
              (same-Effect i (place (suc n)) (place n) l l.signals
                ((inside n).0 ∙ sym (inside (suc n)).0) ((inside n).1 ∙ sym (inside (suc n)).1))
      ]
  Turn-Effect i p q l k (signal_stop b e) =
      rw (b, e) (same-Effect i p p l (suc l.signals) refl refl)

  abbrev pub IsConsistent : Threads → Type 0
  IsConsistent s = (i : ℕ) → Agrees (s.pcs i) s.locks i

  pub Move-IsConsistent :
      (i : ℕ) (s t : Threads) → Move driver external i s t → IsConsistent s → IsConsistent t
  Move-IsConsistent i s t m c j =
      let effect = Turn-Effect i (s.pcs i) m.to s.locks t.locks m.turn (c i) in
      elim (Bool-cases (i == j)) [
        | inl e ↦
            subst (λ a. Agrees (t.pcs a) t.locks a) (==_eq i j e) (rw (m.moved, ==_refl i) effect.0)
        | inr e ↦ rw (m.moved, e) ((c j).0 ∙ sym (effect.1 j e).0, (c j).1 ∙ sym (effect.1 j e).1)
      ]

  pub Reach-IsConsistent :
      (s t : Threads) → Reach driver external s t → IsConsistent s → IsConsistent t
  Reach-IsConsistent s t here c = c
  Reach-IsConsistent s t (next {t = u} i r m) c =
      Move-IsConsistent i u t m (Reach-IsConsistent s u r c)

  pub initial-IsConsistent : (signals : ℕ) → IsConsistent (initial signals)
  initial-IsConsistent signals i = (refl, refl)

  both-owns :
      (m : Option ℕ) (a b : Bool) (i j : ℕ) → a ≡ owns m i → b ≡ owns m j → i ≢ j → (a && b) ≡ false
  both-owns m true true i j x y ne = absurd (ne (owns_unique m i j (sym x) (sym y)))
  both-owns m true false i j x y ne = refl
  both-owns m false b i j x y ne = refl

  -- However the threads take turns, no two of them are past `stepMtx` at a time, be it in a step or by a
  -- `PauseGuard`, and no two past `pauseMtx`.
  pub Reach-IsExclusive :
      (signals : ℕ) (t : Threads)
      → Reach driver external (initial signals) t
      → (i j : ℕ) → i ≢ j
      → ((holds_step (t.pcs i) && holds_step (t.pcs j)) ≡ false)
        × ((holds_pause (t.pcs i) && holds_pause (t.pcs j)) ≡ false)
  Reach-IsExclusive signals t r i j ne =
      let c = Reach-IsConsistent (initial signals) t r (initial-IsConsistent signals) in
      (
        both-owns t.locks.step_mtx _ _ i j (c i).0 (c j).0 ne,
        both-owns t.locks.pause_mtx _ _ i j (c i).1 (c j).1 ne,
      )
