-- ===== src/Wait.antt =====
-- src/wait.{h,cpp}: deadlines and waiting with `poll`. A `Duration` counts milliseconds and a
-- `TimePoint` nanoseconds, as integers without overflow but where `ToMsec` narrows to an `int`.
pub mod Time
use sockpuppet.Base.{
  ℕ, ◌+◌, ◌-◌, ◌*◌, ◌/◌, ◌%◌, ◌^◌, Bool, true, false, List, [], ◌∷◌, if◌then◌else◌, ltb, ok, Action,
  system_error, pure, throw, String,
}
use sockpuppet.Base.Int.{ℤ, pos, negsuc, ◌+ℤ◌, ◌-ℤ◌, ltb_ℤ}
use sockpuppet.Os.{Sys, Events, Revents, Pollfd}

abbrev pub ns_per_ms : ℕ
ns_per_ms = 1000000

abbrev pub negate : ℕ → ℤ
negate ℕ.zero = pos 0
negate (ℕ.suc n) = negsuc n

-- Milliseconds as nanoseconds, exactly.
abbrev pub to_ns : ℤ → ℤ
to_ns (pos n) = pos (n * ns_per_ms)
to_ns (negsuc n) = negate ((n + 1) * ns_per_ms)

-- `duration_cast<Duration>`: nanoseconds to milliseconds, cut off towards zero.
unfoldable pub duration_cast : ℤ → ℤ
duration_cast (pos n) = pos (n / ns_per_ms)
duration_cast (negsuc n) = negate ((n + 1) / ns_per_ms)

pub data Deadline : Type 0 where
  unlimited : Deadline
  unlimited_time : (now : ℤ) → Deadline
  zero_limited : Deadline
  zero_time : (now : ℤ) → Deadline
  limited : (now deadline : ℤ) → Deadline

-- The constructor `DeadlineLimited(timeout)` at the time that it reads.
unfoldable pub limited_at : ℤ → ℤ → Deadline
limited_at now timeout = limited now (now +ℤ to_ns timeout)

unfoldable pub time_left : Deadline → Bool
time_left unlimited = true
time_left (unlimited_time now) = true
time_left zero_limited = false
time_left (zero_time now) = false
time_left (limited now deadline) = ltb_ℤ now deadline

abbrev clip : ℤ → ℤ
clip r = if ltb_ℤ r (pos 0) then pos 0 else r

unfoldable pub remaining : Deadline → ℤ
unfolding duration_cast
remaining unlimited = negsuc 0
remaining (unlimited_time now) = negsuc 0
remaining zero_limited = pos 0
remaining (zero_time now) = pos 0
remaining (limited now deadline) = clip (duration_cast (deadline -ℤ now))

-- `Tick` with the time that the clock shows; the unclocked deadlines read no clock.
unfoldable pub tick_at : ℤ → Deadline → Deadline
tick_at t unlimited = unlimited
tick_at t (unlimited_time now) = unlimited_time t
tick_at t zero_limited = zero_limited
tick_at t (zero_time now) = zero_time t
tick_at t (limited now deadline) = limited t deadline

-- `duration<int, std::milli>`: a 32-bit count of the same milliseconds.
unfoldable pub to_msec : ℤ → ℤ
to_msec (pos n) = let r = n % 2 ^ 32 in if ltb r (2 ^ 31) then pos r else negsuc (2 ^ 32 - 1 - r)
to_msec (negsuc n) = let r = n % 2 ^ 32 in if ltb r (2 ^ 31) then negsuc r else pos (2 ^ 32 - 1 - r)

abbrev pub no_revents : Revents
no_revents = record {
  pollin = false;
  pollout = false;
  pollhup = false;
  pollerr = false;
  other = false;
}

abbrev pub wants_in : Events
wants_in = record { pollin = true; pollout = false }

abbrev pub wants_out : Events
wants_out = record { pollin = false; pollout = true }

module _ (sys : Sys) where
  -- `Clock::now()`.
  unfoldable pub clock_now : Action sys.World ℤ
  clock_now w = let (t, w') = sys.now w in (ok t, w')

  -- What `Wait` makes of the result of `poll`.
  abbrev pub poll_result : String → ℤ → Action sys.World Bool
  poll_result message (negsuc n) w = throw (system_error (sys.errno w) message) w
  poll_result message (pos n) w = pure (ltb 0 n) w

  unfoldable pub wait_fd : ℕ → Events → ℤ → Action sys.World Bool
  unfolding to_msec
  wait_fd fd events timeout w =
      let pfd : Pollfd = record { fd = fd; events = events; revents = no_revents } in
      let (result, pfds, w') = sys.poll (pfd ∷ []) (to_msec timeout) w in
      poll_result
        (if events.pollin
          then "failed to wait for socket readable"
          else "failed to wait for socket writable")
        result w'

  unfoldable pub wait_readable : ℕ → ℤ → Action sys.World Bool
  unfolding wait_fd
  wait_readable fd timeout = wait_fd fd wants_in timeout

  unfoldable pub wait_writable : ℕ → ℤ → Action sys.World Bool
  unfolding wait_fd
  wait_writable fd timeout = wait_fd fd wants_out timeout

  unfoldable pub tick : Deadline → Action sys.World Deadline
  unfolding tick_at
  tick unlimited w = pure unlimited w
  tick zero_limited w = pure zero_limited w
  tick (unlimited_time now) w = let (t, w') = sys.now w in pure (tick_at t (unlimited_time now)) w'
  tick (zero_time now) w = let (t, w') = sys.now w in pure (tick_at t (zero_time now)) w'
  tick (limited now deadline) w =
      let (t, w') = sys.now w in pure (tick_at t (limited now deadline)) w'

  -- `DeadlineLimited(timeout)`.
  unfoldable pub limited_from_now : ℤ → Action sys.World Deadline
  unfolding limited_at
  limited_from_now timeout w = let (t, w') = sys.now w in pure (limited_at t timeout) w'
