-- ===== src/Tests/Sending.antt =====
-- Sending on a stream socket and through its queue.
use sockpuppet.Base.{
  ℕ, ◌≡◌, refl, ◌⊎◌, ◌<◌, ◌++◌, true, false, List, [], ◌∷◌, arith, ok, Ensures, Action, pure, throw,
  ltb, length, take, ap, inl, inr, Bool-cases, if◌then◌else◌, system_error, assertion_failed,
}
use sockpuppet.Base.Int.{pos, negsuc}
use sockpuppet.Socket.{send_all, send}
use sockpuppet.Socket.Sent.{SentSome}
use sockpuppet.Socket.Stream.{SentAll, SentFront, send_all-SentAll, send-SentFront}
use sockpuppet.Async.{Async, Sock, SendQElement, Promise, pending, value, exception, driver_send}
use sockpuppet.Async.Stream.{SockLaws, plain_sock, plain_SockLaws, Event, run, enqueue, writable}
use sockpuppet.Async.Bytes.{Streamed}
use sockpuppet.Async.Bytes.Interleaving.{run-Streamed}
use sockpuppet.Base.Transfer.{Moves-still}
use sockpuppet.Async.Promises.{IsTracked, driver_send-IsTracked}
use sockpuppet.Async.Wakeup.{Shared, Step, resting, Reach, here, next, Reach-IsAwake}
use sockpuppet.Tests.World.{TestWorld, test_sys, test_stream, start, length-take_two, take_taken}

abbrev text : List ℕ
text = b'h' ∷ b'e' ∷ b'l' ∷ b'l' ∷ b'o' ∷ []

send_all-SentAll_example :
    Ensures
      (SentAll test_sys test_stream 7 start text)
      (SentSome test_sys test_stream 7 start text)
      (send_all test_sys 7 text start)
send_all-SentAll_example = send_all-SentAll test_sys test_stream 7 text start

send-SentFront_example :
    Ensures
      (SentFront test_sys test_stream 7 start text)
      (SentSome test_sys test_stream 7 start text)
      (send test_sys 7 text (pos 3) start)
send-SentFront_example = send-SentFront test_sys test_stream 7 text (pos 3) start

-- The whole text goes out on an unlimited timeout, in three calls.
send_everything : send test_sys 7 text (negsuc 0) start ≡ (ok 5, record start { accepted = text })
unfolding send send_all
send_everything = refl

-- A queue with the text in front, whose promise is the only one made.
abbrev queued : Async SendQElement TestWorld
queued = record {
  send_q = record { promise = 0; buffer = text } ∷ [];
  results = λ i. pending;
  next_promise = 1;
  world = start;
}

-- A socket that sends two bytes a call and fails once three are on the stream.
abbrev frail_send : List ℕ → Action (List ℕ) ℕ
frail_send d w =
    if ltb (length w) 3
    then pure (length (take 2 d)) (w ++ take 2 d)
    else throw (system_error 32 "failed to send") w

abbrev frail : Sock (List ℕ)
frail = record {
  send_some = frail_send;
  send_to = λ d a. throw assertion_failed;
  driver_pending = pure tt;
}

frail-laws : SockLaws frail
frail-laws = record {
  wire = λ w. w;
  send_some_wire = λ d w. elim (Bool-cases (ltb (length w) 3)) [
    | inl e ↦ rw e (length-take_two d, ap (λ l. w ++ l) (take_taken d))
    | inr e ↦ rw e ((λ x. cc), Moves-still d refl)
  ];
  pending_wire = λ w. refl;
}

abbrev frail_queue : Async SendQElement (List ℕ)
frail_queue = record {
  send_q = record { promise = 0; buffer = text } ∷ [];
  results = λ i. pending;
  next_promise = 1;
  world = [];
}

abbrev events : List Event
events = writable ∷ enqueue text ∷ writable ∷ writable ∷ []

run-Streamed_example : Streamed frail frail-laws 0 events frail_queue (run frail events frail_queue)
run-Streamed_example = run-Streamed frail frail-laws events 0 frail_queue (refl, tt) refl

-- The third call fails: four bytes are on the stream, and the second buffer still waits.
cut_short :
    ((run frail events frail_queue).world ≡ take 4 text)
    × ((run frail events frail_queue).results 0 ≡ exception (system_error 32 "failed to send"))
    × ((run frail events frail_queue).send_q ≡ record { promise = 1; buffer = text } ∷ [])
unfolding run sockpuppet.Async.send sockpuppet.Async.driver_send
cut_short = (refl, refl, refl)

queued-IsTracked : IsTracked queued
queued-IsTracked = record {
  once = λ i. ground arith;
  made = λ i h. ground arith;
  open_if_queued = λ i h. ground arith;
}

driver_send-IsTracked_example : IsTracked (driver_send (plain_sock test_sys 7) queued).1
driver_send-IsTracked_example =
    driver_send-IsTracked (plain_sock test_sys 7) (plain_SockLaws test_sys test_stream 7)
      (record { promise = 0; buffer = text }) [] queued refl queued-IsTracked

abbrev shared_idle : Shared TestWorld
shared_idle = record {
  async = record queued { send_q = [] };
  polls_out = false;
  asking = 0;
  phase = resting;
}

abbrev shared_queued : Shared TestWorld
shared_queued = record {
  async = (sockpuppet.Async.send text shared_idle.async).1;
  polls_out = false;
  asking = 1;
  phase = resting;
}

reached : Reach (plain_sock test_sys 7) shared_idle shared_queued
unfolding sockpuppet.Async.send
reached = next here (Step.enqueue text refl)

Reach-IsAwake_example :
    (shared_queued.async.send_q ≡ [])
    ⊎ (shared_queued.polls_out ≡ true)
    ⊎ (0 < shared_queued.asking)
Reach-IsAwake_example =
    Reach-IsAwake (plain_sock test_sys 7) (plain_SockLaws test_sys test_stream 7) shared_idle
      shared_queued refl reached refl
