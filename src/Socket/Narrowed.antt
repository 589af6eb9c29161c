-- ===== src/Socket/Narrowed.antt =====
-- What becomes of a long timeout on its way from src/socket_impl.cpp through src/wait.cpp to `poll`.
use sockpuppet.Base.{
  ℕ, zero, suc, refl, ◌≢◌, ◌≤◌, ◌<◌, ◌^◌, subst, sym, Bool, true, false, [], ◌∷◌, none, some,
  Result, ok, err, Action, String, if◌then◌else◌, pure, and_then, arith, ◌>>=◌,
}
use sockpuppet.Base.Int.{ℤ, pos, negsuc}
use sockpuppet.Os.{Sys, Events, Pollfd, BlockingLaws}
use sockpuppet.Wait.{
  wait_fd, wait_readable, wait_writable, poll_result, no_revents, wants_in, wants_out,
}
use sockpuppet.Wait.Time.{to_msec-negative}
use sockpuppet.Socket.{receive, receive_from, receive_now, receive_from_now}

module _ (sys : Sys) (laws : BlockingLaws sys) where
  poll_result-blocks :
      (message : String) (r : ℤ) (w : sys.World)
      → r ≢ pos 0
      → (poll_result sys message r w).0 ≢ ok false
  poll_result-blocks message (pos zero) w h e = h refl
  poll_result-blocks message (pos (suc n)) w h e = ground arith
  poll_result-blocks message (negsuc n) w h e = cc

  wait_fd-blocks :
      (n : ℕ) (fd : ℕ) (events : Events) (w : sys.World)
      → 2 ^ 31 ≤ n
      → n < 2 ^ 32
      → (wait_fd sys fd events (pos n) w).0 ≢ ok false
  unfolding wait_fd
  wait_fd-blocks n fd events w low high =
      let (k, e) = to_msec-negative n low high in
      let pfd : Pollfd = record { fd = fd; events = events; revents = no_revents } in
      poll_result-blocks _ _ _
        (subst (λ t. (sys.poll (pfd ∷ []) t w).0 ≢ pos 0) (sym e) (laws.poll_blocks pfd [] k w))

  always_some :
      {A : Type 0} (m : Result A × sys.World) → (and_then m (λ a. pure (some a))).0 ≢ ok none
  always_some (ok a, w) e = cc
  always_some (err x, w) e = cc

  some_or_none :
      {A : Type 0} (r : Result Bool × sys.World) (f : Action sys.World A)
      → r.0 ≢ ok false
      → (and_then r (λ readable. if readable then (do a ← f; pure (some a)) else pure none)).0
        ≢ ok none
  some_or_none (ok true, w) f h = always_some (f w)
  some_or_none (ok false, w) f h = absurd (h refl)
  some_or_none (err x, w) f h = λ e. cc

  -- On a system whose `poll` waits without end for a negative timeout, waiting and receiving with a
  -- timeout of 2^31 milliseconds or more, but less than 2^32, never end because the time is up.
  pub long_timeout-blocks :
      (n fd size : ℕ) (w : sys.World)
      → 2 ^ 31 ≤ n
      → n < 2 ^ 32
      → ((wait_readable sys fd (pos n) w).0 ≢ ok false)
        × ((wait_writable sys fd (pos n) w).0 ≢ ok false)
        × ((receive sys fd size (pos n) w).0 ≢ ok none)
        × ((receive_from sys fd size (pos n) w).0 ≢ ok none)
  unfolding wait_readable wait_writable receive receive_from
  long_timeout-blocks n fd size w low high =
      let readable = wait_fd-blocks n fd wants_in w low high in
      (
        readable,
        wait_fd-blocks n fd wants_out w low high,
        some_or_none (wait_fd sys fd wants_in (pos n) w) (receive_now sys fd size) readable,
        some_or_none (wait_fd sys fd wants_in (pos n) w) (receive_from_now sys fd size) readable,
      )
