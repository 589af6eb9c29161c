-- ===== src/Tests/Attached.antt =====
-- A driver with one attached TCP socket, whose handlers do nothing.
use sockpuppet.Base.{ℕ, ◌+◌, refl, true, false, [], ◌∷◌, pure, arith}
use sockpuppet.Base.Int.{pos}
use sockpuppet.Wait.{wants_in, no_revents}
use sockpuppet.Pool.{create}
use sockpuppet.Pool.Ownership.{create-IsPool}
use sockpuppet.Driver.{State}
use sockpuppet.Driver.Loop.{run}
use sockpuppet.Driver.Rounds.{IsSound}
use sockpuppet.Async.{pending}
use sockpuppet.Async.Handlers.{
  tcp, send_q, Program, Sockets, Users, socket_handlers, driver_receive, do_send,
}
use sockpuppet.Async.Attached.{UsersKeep, UsersKeepAll}
use sockpuppet.Async.Typed.{IsTyped, StaysTyped, attached-StaysTyped}
use sockpuppet.Async.Reading.{Reading, driver_receive-Reading}
use sockpuppet.Async.Enqueue.{Enqueued, do_send-Enqueued}
use sockpuppet.Async.Api.{Opened, acceptor_async, acceptor_async-Opened}
use sockpuppet.Async.Plain.{plain_sockets, beneath, run-socket_handlers-IsSound}
use sockpuppet.Tests.World.{TestWorld, test_sys, test_poll, start}
use sockpuppet.Tests.Addresses.{linux}
use sockpuppet.Tests.Buffers.{few_lent}

abbrev quiet : Users TestWorld
quiet = record {
  on_receive_from = λ k r. pure tt;
  on_receive = λ k b. pure tt;
  on_disconnect = λ k peer m. pure tt;
  on_connect = λ k c. pure tt;
  what = λ task. pure tt;
}

abbrev fd_of : ℕ → ℕ
fd_of k = k + 7

abbrev sockets : Sockets TestWorld
sockets = plain_sockets test_sys linux (λ n. n) false fd_of

abbrev attached : State (Program TestWorld)
attached = record {
  todos = record { when = λ i. pos i; queue = 0 ∷ 1 ∷ [] };
  sockets = 0 ∷ [];
  pfds =
      record { fd = 4; events = wants_in; revents = no_revents }
      ∷ record { fd = 7; events = wants_in; revents = no_revents }
      ∷ [];
  should_stop = false;
  pipe_from = 3;
  pipe_to = 4;
  pipe_to_addr = [];
  world = record {
    objects =
        λ k. record { kind = tcp []; rx_buf_size = 100; pool = create 2 100; queue = send_q [] };
    results = λ i. pending;
    next_promise = 0;
    base = start;
  };
}

quiet-UsersKeep : UsersKeep quiet fd_of
quiet-UsersKeep = record {
  on_receive_from = λ k r s v. v;
  on_receive = λ k b s v. v;
  on_disconnect = λ k peer m s v. v;
  on_connect = λ k c s v. v;
  what = λ task s v. v;
}

attached-IsSound : IsSound fd_of attached
attached-IsSound = record {
  ordered = record { sorted = ((omega arith, tt), (tt, tt)); distinct = (refl, (refl, tt)) };
  aligned = refl;
  apart = λ k e. absurd (omega (arith, e));
}

run-socket_handlers-IsSound_example :
    IsSound fd_of
      (run (beneath test_sys) (socket_handlers sockets quiet fd_of (λ e. "error")) 3 2 attached).1
run-socket_handlers-IsSound_example =
    run-socket_handlers-IsSound test_sys sockets quiet fd_of (λ e. "error") 3 2 attached test_poll
      quiet-UsersKeep attached-IsSound

driver_receive-Reading_example :
    Reading sockets quiet fd_of
      (λ e. "error")
      0
      []
      attached
      (driver_receive sockets quiet fd_of (λ e. "error") [] 0 attached)
driver_receive-Reading_example =
    driver_receive-Reading sockets quiet fd_of (λ e. "error") 2 0 [] attached (omega arith)
      (omega arith) (few_lent) (create-IsPool 2 100)

do_send-Enqueued_example :
    Enqueued fd_of 0 [] (1 ∷ 2 ∷ []) attached (do_send fd_of (send_q []) 0 (1 ∷ 2 ∷ []) attached)
do_send-Enqueued_example = do_send-Enqueued fd_of 0 [] (1 ∷ 2 ∷ []) attached

acceptor_async-Opened_example :
    Opened sockets fd_of 1 attached true (acceptor_async sockets fd_of true 1 attached)
acceptor_async-Opened_example = acceptor_async-Opened sockets fd_of 1 attached true refl refl

quiet-KeepTyped : UsersKeepAll IsTyped quiet
quiet-KeepTyped = record {
  on_receive_from = λ k r s v. v;
  on_receive = λ k b s v. v;
  on_disconnect = λ k peer m s v. v;
  on_connect = λ k c s v. v;
  what = λ task s v. v;
}

attached-StaysTyped_example : StaysTyped sockets quiet fd_of (λ e. "error")
attached-StaysTyped_example = attached-StaysTyped sockets quiet fd_of (λ e. "error") quiet-KeepTyped
