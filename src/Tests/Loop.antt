-- ===== src/Tests/Loop.antt =====
-- A driver with two attached sockets and two pending tasks; the callbacks do nothing.
use sockpuppet.Base.{
  ℕ, suc, ◌+◌, ◌≡◌, refl, true, false, [], ◌∷◌, ok, err, arith, pure, and_then, assertion_failed,
}
use sockpuppet.Base.Int.{pos}
use sockpuppet.Os.{Pollfd, Revents}
use sockpuppet.Wait.{wants_in, no_revents}
use sockpuppet.Driver.{State, Handlers, async_unregister, async_want_send}
use sockpuppet.Driver.Loop.{step, do_one_socket_task}
use sockpuppet.Driver.Registry.{IsAligned, async_want_send-IsAligned}
use sockpuppet.Driver.Dispatch.{Served, do_one_socket_task-Served, async_want_send-async_unregister}
use sockpuppet.Driver.Tasks.{to_do_in, cancel, cancel-to_do_in}
use sockpuppet.Driver.Rounds.{IsSound, KeepSound}
use sockpuppet.Driver.Soundness.{step-IsSound}
use sockpuppet.Tests.World.{TestWorld, test_sys, test_poll, readable, start}

-- The descriptors of the sockets start at seven.
abbrev test_handlers : Handlers TestWorld
test_handlers = record {
  what = λ task. pure tt;
  get_fd = λ sock. sock + 7;
  query = λ sock events. pure events;
  on_readable = λ sock. pure tt;
  on_writable = λ sock. pure true;
  on_error = λ sock message. pure tt;
}

test_keep : KeepSound test_handlers
test_keep = record {
  what = λ task s v. v;
  query = λ sock events s v. v;
  on_readable = λ sock s v. v;
  on_writable = λ sock s v. v;
  on_error = λ sock message s v. v;
}

abbrev entry : ℕ → Revents → Pollfd
entry fd revents = record { fd = fd; events = wants_in; revents = revents }

abbrev state : State TestWorld
state = record {
  todos = record { when = λ i. pos (suc i); queue = 0 ∷ 1 ∷ [] };
  sockets = 0 ∷ 1 ∷ [];
  pfds = entry 4 no_revents ∷ entry 7 no_revents ∷ entry 8 readable ∷ [];
  should_stop = false;
  pipe_from = 3;
  pipe_to = 4;
  pipe_to_addr = [];
  world = start;
}

state-IsSound : IsSound test_handlers.get_fd state
state-IsSound = record {
  ordered = record { sorted = ((omega arith, tt), (tt, tt)); distinct = (refl, (refl, tt)) };
  aligned = refl;
  apart = λ k e. absurd (omega (arith, e));
}

step-IsSound_example : IsSound test_handlers.get_fd (step test_sys test_handlers 5 (pos 2) state).1
step-IsSound_example =
    step-IsSound test_sys test_poll test_handlers test_keep 5 (pos 2) state state-IsSound

do_one_socket_task-Served_example :
    Served test_sys test_handlers state (do_one_socket_task test_sys test_handlers state)
do_one_socket_task-Served_example = do_one_socket_task-Served test_sys test_handlers state refl

async_want_send-IsAligned_example : IsAligned test_handlers.get_fd (async_want_send 8 state).1
async_want_send-IsAligned_example = async_want_send-IsAligned test_handlers.get_fd 8 state refl

async_want_send-async_unregister_example :
    (async_want_send 8 (async_unregister test_handlers.get_fd 8 state).1).0 ≡ err assertion_failed
async_want_send-async_unregister_example =
    async_want_send-async_unregister test_handlers.get_fd 8 state (omega arith)

cancel-to_do_in_example :
    let r = and_then (to_do_in test_sys 5 (pos 3) state) (λ _. cancel true 5) in
    (r.0 ≡ ok tt) × (r.1.todos.queue ≡ state.todos.queue) × (r.1.todos.when 0 ≡ state.todos.when 0)
cancel-to_do_in_example =
    cancel-to_do_in test_sys 5 (pos 3) state 0 (refl, (refl, tt)) refl
      (λ e. absurd (omega (arith, e)))
