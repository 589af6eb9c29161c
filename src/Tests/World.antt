-- ===== src/Tests/World.antt =====
-- A small operating system: a clock that ticks at each reading, and a socket that accepts at most two
-- bytes a call.
use sockpuppet.Base.{
  ◌==◌, ℕ, suc, ◌≡◌, refl, ap, ◌≤◌, true, false, List, [], ◌∷◌, ◌++◌, length, take, map, none, some,
  arith,
}
use sockpuppet.Base.Int.{pos}
use sockpuppet.Base.Sequence.{remove_first}
use sockpuppet.Os.{Sys, Revents, Pollfd, StreamLaws, PollLaws}

pub record TestWorld : Type 0 where
  pub clock : ℕ
  pub accepted : List ℕ
  pub opened : List ℕ
  pub posted : List (List ℕ × List ℕ)

abbrev pub readable : Revents
readable = record {
  pollin = true;
  pollout = false;
  pollhup = false;
  pollerr = false;
  other = false;
}

abbrev pub mark : Pollfd → Pollfd
mark p = record p { revents = readable }

abbrev pub test_sys : Sys
test_sys = record {
  World = TestWorld;
  errno = λ w. 11;
  now = λ w. (pos w.clock, record w { clock = suc w.clock });
  poll = λ p t w. (pos (length p), map mark p, w);
  send = λ fd d w. (pos (length (take 2 d)), record w { accepted = w.accepted ++ take 2 d });
  recv = λ fd n w. (pos 1, 42 ∷ [], w);
  sendto = λ fd d a w. (pos (length d), record w { posted = w.posted ++ (a, d) ∷ [] });
  recvfrom = λ fd n w. (pos 1, 42 ∷ [], [], w);
  socket = λ a b c w. (some 7, record w { opened = 7 ∷ w.opened });
  close = λ fd w. record w { opened = remove_first (λ x. x == fd) w.opened };
  connect = λ fd a w. (true, w);
  bind = λ fd a w. (true, w);
  listen = λ fd n w. (true, w);
  accept = λ fd w. (some 9, [], record w { opened = 9 ∷ w.opened });
  get_flags = λ fd w. (some 0, w);
  set_flags = λ fd n w. (true, w);
  setsockopt = λ fd o n w. (true, w);
  get_rcvbuf = λ fd w. (some (pos 100), w);
  getsockname = λ fd w. (none, w);
  getpeername = λ fd w. (none, w);
}

pub length-take_two : (d : List ℕ) → length (take 2 d) ≤ length d
length-take_two [] = omega arith
length-take_two (a ∷ []) = omega arith
length-take_two (a ∷ b ∷ d) = omega arith

pub take_taken : (d : List ℕ) → take 2 d ≡ take (length (take 2 d)) d
take_taken [] = refl
take_taken (a ∷ []) = refl
take_taken (a ∷ b ∷ d) = refl

abbrev pub test_stream : StreamLaws test_sys
test_stream = record {
  wire = λ w fd. w.accepted;
  send_le = λ fd d w. length-take_two d;
  send_wire = λ fd d w. ap (λ l. w.accepted ++ l) (take_taken d);
  poll_wire = λ p t w fd. refl;
  now_wire = λ w fd. refl;
}

pub fds_marked :
    (p : List Pollfd) → map (λ (q : Pollfd). q.fd) (map mark p) ≡ map (λ (q : Pollfd). q.fd) p
fds_marked [] = refl
fds_marked (q ∷ p) = ap (◌∷◌ q.fd) (fds_marked p)

abbrev pub test_poll : PollLaws test_sys
test_poll = record { poll_fds = λ p t w. fds_marked p }

abbrev pub start : TestWorld
start = record { clock = 5; accepted = []; opened = []; posted = [] }
