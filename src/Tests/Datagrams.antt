-- ===== src/Tests/Datagrams.antt =====
-- A UDP socket that sends what it is given, unless the datagram is empty.
use sockpuppet.Base.{
  ℕ, ◌≡◌, refl, sym, ap, List, [], ◌∷◌, ◌++◌, length, ok, err, Action, system_error, logic_error,
  throw, Ensures, assertion_failed,
}
use sockpuppet.Base.Int.{pos, pos_part}
use sockpuppet.Os.{DatagramLaws}
use sockpuppet.Address.{Address, info}
use sockpuppet.Endpoint.Datagrams.{UdpCall, send_each, SentOn, send_each-Sent}
use sockpuppet.Tests.World.{test_sys, start}
use sockpuppet.Tests.Addresses.{linux, dgram_result}
use sockpuppet.Tests.Endpoints.{tcp_only}
use sockpuppet.Async.{Async, Sock, Promise, pending, SendToQElement}
use sockpuppet.Async.Datagrams.{SendToLaws}
use sockpuppet.Async.Delivery.{Event, enqueue, writable, run, made, Delivered, run-Delivered}
use sockpuppet.Async.Delivery.Stuck.{run-stuck}

abbrev Post : Type 0
Post = List (List ℕ × List ℕ)

abbrev post : List ℕ → List ℕ → Action Post ℕ
post [] a w = (err (system_error 22 "failed to send to"), w)
post (b ∷ d) a w = (ok (length (b ∷ d)), w ++ (a, b ∷ d) ∷ [])

abbrev post_sock : Sock Post
post_sock = record {
  send_some = λ d. throw assertion_failed;
  send_to = post;
  driver_pending = throw assertion_failed;
}

post-sent :
    (d a : List ℕ) (w : Post)
    → Ensures (λ n w'. (n ≡ length d) × (w' ≡ w ++ (a, d) ∷ [])) (λ w'. w' ≡ w) (post d a w)
post-sent [] a w = (λ e. cc, refl)
post-sent (b ∷ d) a w = (refl, refl)

post_laws : SendToLaws post_sock
post_laws = record { sent = λ w. w; send_to_sent = post-sent }

abbrev quiet : Async SendToQElement Post
quiet = record { send_q = []; results = λ i. pending; next_promise = 3; world = [] }

abbrev events : List Event
events =
    enqueue (1 ∷ []) (ok (7 ∷ []))
    ∷ enqueue [] (ok (7 ∷ []))
    ∷ writable
    ∷ enqueue (2 ∷ []) (ok (8 ∷ []))
    ∷ writable
    ∷ writable
    ∷ []

run-Delivered_example : Delivered post_sock post_laws 3 events quiet (run post_sock events quiet)
run-Delivered_example = run-Delivered post_sock post_laws events 3 quiet tt refl

-- The empty datagram is refused and the others are sent in order.
both_sent : (run post_sock events quiet).world ≡ (7 ∷ [], 1 ∷ []) ∷ (8 ∷ [], 2 ∷ []) ∷ []
unfolding run sockpuppet.Async.send_to sockpuppet.Async.driver_send_to
both_sent = refl

abbrev unsuited : SendToQElement
unsuited = record {
  promise = 0;
  buffer = 5 ∷ [];
  addr = err (logic_error "address is not valid for UDP");
}

abbrev blocked : Async SendToQElement Post
blocked = record { send_q = unsuited ∷ []; results = λ i. pending; next_promise = 1; world = [] }

run-stuck_example :
    ((run post_sock events blocked).world ≡ [])
    × ((run post_sock events blocked).send_q ≡ (unsuited ∷ []) ++ made events 1)
unfolding post_laws
run-stuck_example =
    run-stuck post_sock post_laws events (logic_error "address is not valid for UDP") unsuited []
      blocked refl refl refl

test_datagrams : DatagramLaws test_sys
test_datagrams = record {
  sent = λ w fd. w.posted;
  sendto_whole = λ fd d a w n e. (sym (ap pos_part e), refl);
  sendto_failed = λ fd d a w n e. cc;
  poll_sent = λ p t w fd. refl;
}

abbrev calls : List UdpCall
calls =
    record { bytes = 1 ∷ []; address = tcp_only; timeout = pos 5 }
    ∷ record { bytes = 2 ∷ 3 ∷ []; address = info dgram_result []; timeout = pos 5 }
    ∷ []

send_each-Sent_example :
    SentOn test_sys linux 7 test_datagrams calls
      (send_each test_sys linux 7 calls start).0
      start
      (send_each test_sys linux 7 calls start).1
send_each-Sent_example = send_each-Sent test_sys linux 7 test_datagrams calls start

-- The first address suits TCP only, and the second datagram is sent.
second_sent : (send_each test_sys linux 7 calls start).1.posted ≡ (127 ∷ 2 ∷ [], 2 ∷ 3 ∷ []) ∷ []
unfolding send_each sockpuppet.Address.for_udp
second_sent = refl
