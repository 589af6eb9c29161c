-- ===== src/Driver/Soundness.antt =====
-- The whole event loop of src/driver_impl.cpp keeps the schedule in order and the lists aligned.
use sockpuppet.Base.{
  ℕ, zero, suc, ◌∙◌, true, false, List, [], ◌∷◌, is_empty, Bool, Result, Action, pure, Bool-cases,
  inl, inr,
}
use sockpuppet.Base.Int.{ℤ, pos, negsuc}
use sockpuppet.Os.{Sys, PollLaws, Pollfd}
use sockpuppet.Wait.{to_msec}
use sockpuppet.Socket.{receive_from_now, no_timeout}
use sockpuppet.Driver.{State, Handlers, lift, unbump}
use sockpuppet.Driver.Loop.{
  run_loop, run, step_todos, query_sockets, any_revents, front_task, wait_all, step_sockets,
  step_deadline, step,
}
use sockpuppet.Driver.Rounds.{
  IsSound, Keeps, KeepSound, and_then-Keeps, Ok, step_todos-Keeps, query_sockets-Keeps,
  do_one_socket_task-Keeps,
}

module _ (sys : Sys) (laws : PollLaws sys) (h : Handlers sys.World) (keep : KeepSound h) where
  lift-Keeps : {A : Type 0} (m : Action sys.World A) → Keeps (Ok sys laws h keep) (lift m)
  lift-Keeps m s k = record { ordered = k.ordered; aligned = k.aligned; apart = k.apart }

  unbump-Keeps : Keeps (Ok sys laws h keep) (unbump sys)
  unfolding unbump
  unbump-Keeps s k =
      and_then-Keeps (Ok sys laws h keep) _ (λ _. pure tt)
        (lift-Keeps (receive_from_now sys s.pipe_to 256) s k) (λ _ s' k'. k')

  front_task-Keeps : (ps : List Pollfd) → Keeps (Ok sys laws h keep) (front_task sys h ps)
  unfolding front_task
  front_task-Keeps [] s k = k
  front_task-Keeps (p ∷ ps) s k = elim (Bool-cases p.revents.pollin) [
    | inl e ↦ rw e (unbump-Keeps s k)
    | inr e ↦ elim (Bool-cases (any_revents p.revents)) [
      | inl a ↦ rw (a, e) k
      | inr a ↦ rw (a, e) (do_one_socket_task-Keeps sys laws h keep s k)
    ]
  ]

  wait_all-Keeps : (t : ℤ) → Keeps (Ok sys laws h keep) (wait_all sys h t)
  unfolding wait_all
  wait_all-Keeps t s k = record {
    ordered = k.ordered;
    aligned = laws.poll_fds s.pfds (to_msec t) s.world ∙ k.aligned;
    apart = k.apart;
  }

  step_sockets-Keeps : (t : ℤ) → Keeps (Ok sys laws h keep) (step_sockets sys h t)
  unfolding step_sockets
  step_sockets-Keeps t s k =
      and_then-Keeps (Ok sys laws h keep) (query_sockets sys h s) _
        (query_sockets-Keeps sys laws h keep s k)
        λ _ s1 k1.
          and_then-Keeps (Ok sys laws h keep) (wait_all sys h t s1) _ (wait_all-Keeps t s1 k1)
            (elim [ true ↦ λ s2 k2. front_task-Keeps s2.pfds s2 k2 | false ↦ λ s2 k2. k2 ])

  step_deadline-Keeps : (t : ℤ) → Keeps (Ok sys laws h keep) (step_deadline sys h t)
  unfolding step_deadline
  step_deadline-Keeps (negsuc n) s k = record {
    ordered = k.ordered;
    aligned = k.aligned;
    apart = k.apart;
  }
  step_deadline-Keeps (pos zero) s k = record {
    ordered = k.ordered;
    aligned = k.aligned;
    apart = k.apart;
  }
  step_deadline-Keeps (pos (suc n)) s k = record {
    ordered = k.ordered;
    aligned = k.aligned;
    apart = k.apart;
  }

  -- From a state whose schedule is sorted and free of duplicates, whose sockets are aligned with
  -- their poll entries and none of which has the descriptor of the driver's pipe, a step with any timeout leads to such a state again, also if it throws,
  -- provided that the callbacks keep these invariants and `poll` keeps the descriptors.
  pub step-IsSound :
      (fuel : ℕ) (t : ℤ) (s : State sys.World)
      → IsSound h.get_fd s
      → IsSound h.get_fd (step sys h fuel t s).1
  unfolding step
  step-IsSound fuel t s k = elim (Bool-cases (is_empty s.todos.queue)) [
    | inl e ↦ rw e (step_sockets-Keeps t s k)
    | inr e ↦ rw e (
        and_then-Keeps (Ok sys laws h keep) (step_deadline sys h t s) _ (step_deadline-Keeps t s k)
          λ d s1 k1.
            and_then-Keeps (Ok sys laws h keep) (step_todos sys h fuel d s1) _
              (step_todos-Keeps sys laws h keep fuel d s1 k1)
              (λ left s2 k2. step_sockets-Keeps left s2 k2))
  ]

  either-Keeps :
      (b : Bool) (x y : Result (Unit {0}) × State sys.World)
      → Ok sys laws h keep x.1
      → Ok sys laws h keep y.1
      → Ok sys laws h keep
          (elim b as (λ _. Result (Unit {0}) × State sys.World) [ true ↦ x | false ↦ y ]).1
  either-Keeps true x y kx ky = kx
  either-Keeps false x y kx ky = ky

  run_loop-Keeps : (fuel rounds : ℕ) → Keeps (Ok sys laws h keep) (run_loop sys h fuel rounds)
  unfolding run_loop
  run_loop-Keeps fuel zero s k = k
  run_loop-Keeps fuel (suc rounds) s k = either-Keeps s.should_stop (pure tt s) _ k (
      and_then-Keeps (Ok sys laws h keep) (step sys h fuel no_timeout s) _
        (step-IsSound fuel no_timeout s k) (λ _ s1 k1. run_loop-Keeps fuel rounds s1 k1))

  -- However many rounds `Run` has made, or whichever exception has ended it, the schedule is sorted and
  -- free of duplicates and the sockets are aligned with their poll entries, if they were at the start,
  -- the callbacks keep these invariants and `poll` keeps the descriptors.
  pub run-IsSound :
      (fuel rounds : ℕ) (s : State sys.World)
      → IsSound h.get_fd s
      → IsSound h.get_fd (run sys h fuel rounds s).1
  unfolding run
  run-IsSound fuel rounds s k =
      run_loop-Keeps fuel rounds (record s { should_stop = false })
        (record { ordered = k.ordered; aligned = k.aligned; apart = k.apart })
