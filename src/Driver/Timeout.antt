-- ===== src/Driver/Timeout.antt =====
-- What `StepTodos` of src/driver_impl.cpp leaves for polling, by the time that the clock has shown last.
use sockpuppet.Base.{
  ℕ, ◌≡◌, refl, sym, ap, ap₂, ◌∙◌, ◌⊎◌, inl, inr, false, List, [], ◌∷◌, is_empty, ok,
}
use sockpuppet.Base.Int.{ℤ, pos, ◌+ℤ◌, ◌≤ℤ◌, ◌<ℤ◌}
use sockpuppet.Os.{Sys}
use sockpuppet.Wait.{
  to_ns, Deadline, unlimited, unlimited_time, zero_limited, zero_time, limited, time_left,
  remaining, tick, tick_at,
}
use sockpuppet.Driver.{State}
use sockpuppet.Driver.Loop.{now_of}

-- A timeout is within what is left, which is unlimited if negative.
abbrev pub Within : ℤ → ℤ → Type 0
Within t left = (left <ℤ pos 0) ⊎ (t ≤ℤ left)

module _ (sys : Sys) where
  -- The clock has just been read for the deadline, which shows that time: `s` has the world behind the
  -- reading.
  abbrev pub JustTicked : Deadline → State sys.World → Deadline → Type 0
  JustTicked d s d' = (w : sys.World) × (tick sys d w ≡ (ok d', s.world))

  -- From `s0` and `d` on: nothing has happened yet, or the clock has just been read.
  abbrev pub IsCurrent : State sys.World → Deadline → State sys.World → Deadline → Type 0
  IsCurrent s0 d s d' = ((s ≡ s0) × (d' ≡ d)) ⊎ JustTicked d s d'

  -- What `StepTodos` leaves for polling, by a deadline that shows the current time: all that is left of
  -- the time, if no task is pending; no time, if a task has run and the time is up; otherwise, the first
  -- pending task being due later, what is left, or the whole milliseconds until that task is due,
  -- whichever is less.
  pub data Leaves (s0 : State sys.World) (d : Deadline) (t : ℤ) (s : State sys.World) : Type 0 where
    done :
        (d' : Deadline)
        → JustTicked d s d'
        → s.todos.queue ≡ []
        → t ≡ remaining d'
        → Leaves s0 d t s
    out_of_time :
        (d' : Deadline)
        → JustTicked d s d'
        → is_empty s.todos.queue ≡ false
        → time_left d' ≡ false
        → t ≡ pos 0
        → Leaves s0 d t s
    waits :
        (d' : Deadline) (front : ℕ) (rest : List ℕ)
        → IsCurrent s0 d s d'
        → s.todos.queue ≡ front ∷ rest
        → now_of d' <ℤ s.todos.when front
        → pos 0 ≤ℤ t
        → now_of d' +ℤ to_ns t ≤ℤ s.todos.when front
        → Within t (remaining d')
        → (t ≡ remaining d') ⊎ (s.todos.when front <ℤ now_of d' +ℤ to_ns t +ℤ to_ns (pos 1))
        → Leaves s0 d t s

  pub tick_lem :
      (d : Deadline) (w : sys.World)
      → (u : ℤ) × (w' : sys.World) × (tick sys d w ≡ (ok (tick_at u d), w'))
  unfolding tick
  tick_lem unlimited w = (pos 0, w, refl)
  tick_lem (unlimited_time now) w = ((sys.now w).0, (sys.now w).1, refl)
  tick_lem zero_limited w = (pos 0, w, refl)
  tick_lem (zero_time now) w = ((sys.now w).0, (sys.now w).1, refl)
  tick_lem (limited now deadline) w = ((sys.now w).0, (sys.now w).1, refl)

  tick-tick_at : (u : ℤ) (d : Deadline) (w : sys.World) → tick sys (tick_at u d) w ≡ tick sys d w
  unfolding tick tick_at
  tick-tick_at u unlimited w = refl
  tick-tick_at u (unlimited_time now) w = refl
  tick-tick_at u zero_limited w = refl
  tick-tick_at u (zero_time now) w = refl
  tick-tick_at u (limited now deadline) w = refl

  -- A deadline that the clock has been read for is read again as before.
  tick_again :
      (d d' : Deadline) (s : State sys.World) (w : sys.World)
      → JustTicked d s d'
      → tick sys d' w ≡ tick sys d w
  tick_again d d' s w (v, e) =
      let (u, w', q) = tick_lem d v in
      let same : d' ≡ tick_at u d = cc in ap (λ x. tick sys x w) same ∙ tick-tick_at u d w

  JustTicked-trans :
      (d d' d2 : Deadline) (s s2 : State sys.World)
      → JustTicked d s d'
      → JustTicked d' s2 d2
      → JustTicked d s2 d2
  JustTicked-trans d d' d2 s s2 p (w, e) = (w, sym (tick_again d d' s w p) ∙ e)

  IsCurrent-trans :
      (s0 s s2 : State sys.World) (d d' d2 : Deadline)
      → JustTicked d s d'
      → IsCurrent s d' s2 d2
      → IsCurrent s0 d s2 d2
  IsCurrent-trans s0 s s2 d d' d2 p (inr q) = inr (JustTicked-trans d d' d2 s s2 p q)
  IsCurrent-trans s0 s s2 d d' d2 (w, e) (inl (q, r)) =
      inr (w, e ∙ ap₂ (λ x (y : State sys.World). (ok x, y.world)) (sym r) (sym q))

  pub Leaves-again :
      (s0 s1 s : State sys.World) (d d' : Deadline) (t : ℤ)
      → JustTicked d s1 d'
      → Leaves s1 d' t s
      → Leaves s0 d t s
  Leaves-again s0 s1 s d d' t l (done e m q r) = done e (JustTicked-trans d d' e s1 s l m) q r
  Leaves-again s0 s1 s d d' t l (out_of_time e m n q r) =
      out_of_time e (JustTicked-trans d d' e s1 s l m) n q r
  Leaves-again s0 s1 s d d' t l (waits e front rest m q a b c w x) =
      waits e front rest (IsCurrent-trans s0 s1 s d d' e l m) q a b c w x
