-- ===== src/Driver/Loop.antt =====
-- The event loop of src/driver_impl.cpp: `Step`, `StepTodos`, `StepSockets`, `Run` and `Stop`.
use sockpuppet.Base.{
  ℕ, zero, suc, ◌+◌, Bool, true, false, ◌||◌, List, [], ◌∷◌, length, drop, ◌==◌, if◌then◌else◌,
  Action, pure, throw, and_then, ◌>>=◌, ◌>>◌, logic_error, assertion_failed, out_of_fuel, is_empty,
}
use sockpuppet.Base.Int.{ℤ, pos, negsuc, ◌-ℤ◌, ltb_ℤ}
use sockpuppet.Base.Sequence.{modify}
use sockpuppet.Os.{Sys, Revents, Pollfd}
use sockpuppet.Wait.{
  Deadline, unlimited_time, zero_time, limited, duration_cast, time_left, remaining, tick,
  poll_result, to_msec, clock_now, limited_from_now,
}
use sockpuppet.Socket.{no_timeout}
use sockpuppet.Driver.{State, Handlers, lift, bump, unbump, set_pollout}

-- The smaller of a time in nanoseconds and a timeout, which is unlimited if negative.
unfoldable pub min_duration : ℤ → ℤ → ℤ
unfolding duration_cast
min_duration lhs rhs =
    if ltb_ℤ rhs (pos 0)
    then duration_cast lhs
    else if ltb_ℤ rhs (duration_cast lhs)
    then rhs
    else duration_cast lhs

-- The time that a clocked deadline read last; the loop below is run on these only.
abbrev pub now_of : Deadline → ℤ
now_of (unlimited_time now) = now
now_of (zero_time now) = now
now_of (limited now deadline) = now
now_of _ = pos 0

-- One round of the loop of `StepTodos`: the timeout to return, or the deadline to go on with.
pub data Round : Type 0 where
  return : ℤ → Round
  again : Deadline → Round

abbrev pub is_ready : Revents → Bool
is_ready r = r.pollin || (r.pollout || (r.pollhup || r.pollerr))

abbrev pub any_revents : Revents → Bool
any_revents r = r.pollin || (r.pollout || (r.pollhup || (r.pollerr || r.other)))

module _ (sys : Sys) (h : Handlers sys.World) where
  abbrev pub St : Type 0
  St = State sys.World

  abbrev pub run_front : ℕ → List ℕ → Action St (Unit {0})
  run_front task rest s = h.what task (record s { todos = record s.todos { queue = rest } })

  unfoldable pub after_task : Deadline → Action St Round
  unfolding tick time_left remaining
  after_task deadline s = and_then (lift (tick sys deadline) s) λ ticked s'.
      if is_empty s'.todos.queue
      then pure (return (remaining ticked)) s'
      else (if time_left ticked then pure (again ticked) s' else pure (return (pos 0)) s')

  unfoldable pub todo_round : List ℕ → Deadline → Action St Round
  unfolding min_duration after_task
  todo_round [] deadline s = throw assertion_failed s
  todo_round (front ∷ rest) deadline s =
      let until = s.todos.when front -ℤ now_of deadline in
      if ltb_ℤ (pos 0) until
      then pure (return (min_duration until (remaining deadline))) s
      else and_then (run_front front rest s) (λ _. after_task deadline)

  unfoldable pub step_todos : ℕ → Deadline → Action St ℤ
  unfolding todo_round
  step_todos zero deadline s = throw out_of_fuel s
  step_todos (suc fuel) deadline s =
      and_then (todo_round s.todos.queue deadline s)
        λ r s'. elim r [ return t ↦ pure t s' | again d ↦ step_todos fuel d s' ]

  -- With TLS the sockets adjust their `events` before each poll.
  unfoldable pub query_from : ℕ → List ℕ → List Pollfd → Action St (Unit {0})
  query_from i [] pfds s = pure tt s
  query_from i (sock ∷ socks) [] s = throw assertion_failed s
  query_from i (sock ∷ socks) (pfd ∷ pfds) s =
      if pfd.fd == h.get_fd sock
      then and_then (h.query sock pfd.events s) (λ events s'.
        query_from (suc i) socks pfds
          (record s' { pfds = modify s'.pfds (suc i) (λ p. record p { events = events }) }))
      else throw assertion_failed s

  unfoldable pub query_sockets : Action St (Unit {0})
  unfolding query_from
  query_sockets s =
      if length s.sockets + 1 == length s.pfds
      then query_from 0 s.sockets (drop 1 s.pfds) s
      else throw assertion_failed s

  unfoldable pub serve : ℕ → ℕ → Revents → Action St (Unit {0})
  serve i sock revents s =
      if revents.pollin
      then h.on_readable sock s
      else (if revents.pollout
          then and_then (h.on_writable sock s) (λ emptied s'.
            if emptied
            then pure tt (record s' { pfds = modify s'.pfds (suc i) (set_pollout false) })
            else pure tt s')
          else h.on_error sock "poll hangup/error" s)

  unfoldable pub do_one_from : ℕ → List ℕ → List Pollfd → Action St (Unit {0})
  unfolding serve
  do_one_from i [] pfds s = throw (logic_error "unhandled poll event") s
  do_one_from i (sock ∷ socks) [] s = throw assertion_failed s
  do_one_from i (sock ∷ socks) (pfd ∷ pfds) s =
      if pfd.fd == h.get_fd sock
      then (if is_ready pfd.revents
          then serve i sock pfd.revents s
          else do_one_from (suc i) socks pfds s)
      else throw assertion_failed s

  unfoldable pub do_one_socket_task : Action St (Unit {0})
  unfolding do_one_from
  do_one_socket_task s =
      if length s.sockets + 1 == length s.pfds
      then do_one_from 0 s.sockets (drop 1 s.pfds) s
      else throw assertion_failed s

  unfoldable pub front_task : List Pollfd → Action St (Unit {0})
  unfolding unbump do_one_socket_task
  front_task [] s = throw assertion_failed s
  front_task (pfd ∷ pfds) s =
      if pfd.revents.pollin
      then unbump sys s
      else (if any_revents pfd.revents
          then throw (logic_error "unexpected signalling pipe poll result") s
          else do_one_socket_task s)

  -- `Wait` on all of `pfds`, whose `revents` the system sets.
  unfoldable pub wait_all : ℤ → Action St Bool
  unfolding to_msec
  wait_all timeout s =
      let (result, pfds, w) = sys.poll s.pfds (to_msec timeout) s.world in
      let s' : St = record s { pfds = pfds; world = w } in
      lift (poll_result sys "failed to wait for socket readable/writable" result) s'

  unfoldable pub step_sockets : ℤ → Action St (Unit {0})
  unfolding query_sockets wait_all front_task
  step_sockets timeout = do
    query_sockets
    ready ← wait_all timeout
    if ready then (λ s. front_task s.pfds s) else pure tt

  unfoldable pub step_deadline : ℤ → Action St Deadline
  unfolding clock_now limited_from_now
  step_deadline (negsuc n) s = and_then (lift (clock_now sys) s) (λ t. pure (unlimited_time t))
  step_deadline (pos zero) s = and_then (lift (clock_now sys) s) (λ t. pure (zero_time t))
  step_deadline (pos (suc n)) s = lift (limited_from_now sys (pos (suc n))) s

  unfoldable pub step : ℕ → ℤ → Action St (Unit {0})
  unfolding step_todos step_sockets step_deadline
  step fuel timeout s =
      if is_empty s.todos.queue
      then step_sockets timeout s
      else and_then (step_deadline timeout s)
          (λ deadline s1. and_then (step_todos fuel deadline s1) (λ left. step_sockets left))

  -- The loop of `Run`, with `rounds` as fuel.
  unfoldable pub run_loop : ℕ → ℕ → Action St (Unit {0})
  unfolding step
  run_loop fuel zero s = throw out_of_fuel s
  run_loop fuel (suc rounds) s = elim s.should_stop [
    | true ↦ pure tt s
    | false ↦ and_then (step fuel no_timeout s) (λ _. run_loop fuel rounds)
  ]

  unfoldable pub run : ℕ → ℕ → Action St (Unit {0})
  unfolding run_loop
  run fuel rounds s = run_loop fuel rounds (record s { should_stop = false })

  unfoldable pub stop : Action St (Unit {0})
  unfolding bump
  stop s = bump sys (record s { should_stop = true })
