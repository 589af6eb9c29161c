-- ===== src/Async/Enqueue.antt =====
-- `Send` of a TCP socket in src/socket_async_impl.cpp, with what it asks of src/driver_impl.cpp.
use sockpuppet.Base.{
  ℕ, ◌≡◌, refl, Bool, true, false, ◌||◌, ◌&&◌, not, List, [], ◌∷◌, ◌++◌, is_empty, ok, err, pure,
  and_then, assertion_failed, if◌then◌else◌, ==_refl, ◌==◌, Error, arith, Result,
}
use sockpuppet.Base.Sequence.{any}
use sockpuppet.Driver.{State, async_want_send}
use sockpuppet.Driver.Dispatch.{has_fd, polls_out, async_want_send-polls_out}
use sockpuppet.Async.{SendQElement, send}
use sockpuppet.Async.Handlers.{Program, send_q, asked, do_send}

module _ {S A B : Type 0} (p : B) where
  then_pure_state : (m : Result A × S) → (and_then m (λ _. pure p)).1 ≡ m.1
  then_pure_state (ok a, s) = refl
  then_pure_state (err e, s) = refl

  then_pure_answer :
      (m : Result A × S) (c : Bool) (a : A) (e : Error)
      → m.0 ≡ (if c then ok a else err e)
      → (and_then m (λ _. pure p)).0 ≡ (if c then ok p else err e)
  then_pure_answer (ok x, s) true a e h = refl
  then_pure_answer (ok x, s) false a e h = cc
  then_pure_answer (err x, s) true a e h = cc
  then_pure_answer (err x, s) false a e h = cc

async_want_send-world :
    {W : Type 0} (fd : ℕ) (s : State W) → (async_want_send fd s).1.world ≡ s.world
unfolding async_want_send
async_want_send-world fd s = ground arith

module _ {W : Type 0} (fd_of : ℕ → ℕ) where
  -- What came of a request to send on socket `k`, whose queue held `q`.
  pub record Enqueued (k : ℕ) (q : List SendQElement) (b : List ℕ) (s : State (Program W))
      (r : Result ℕ × State (Program W)) : Type 0 where
    pub answer : r.0 ≡ (
        if is_empty q && not (any (has_fd (fd_of k)) s.pfds)
        then err assertion_failed
        else ok s.world.next_promise)
    pub queued :
        (r.1.world.objects k).queue
        ≡ send_q (q ++ record { promise = s.world.next_promise; buffer = b } ∷ [])
    pub polled :
        polls_out (fd_of k) r.1.pfds
        ≡ (is_empty q && any (has_fd (fd_of k)) s.pfds || polls_out (fd_of k) s.pfds)
    pub polls_kept : (g : ℕ) → (fd_of k == g) ≡ false → polls_out g r.1.pfds ≡ polls_out g s.pfds

  asked-Enqueued :
      (k : ℕ) (q : List SendQElement) (b : List ℕ) (s u : State (Program W)) (was_empty : Bool)
      → is_empty q ≡ was_empty
      → u.pfds ≡ s.pfds
      → (u.world.objects k).queue
        ≡ send_q (q ++ record { promise = s.world.next_promise; buffer = b } ∷ [])
      → Enqueued k q b s (asked fd_of k (s.world.next_promise, was_empty) u)
  asked-Enqueued k q b s u false e same queue = record {
    answer = rw e refl;
    queued = queue;
    polled = rw (e, same) refl;
    polls_kept = λ g ne. rw same refl;
  }
  asked-Enqueued k q b s u true e same queue =
      let asks = async_want_send (fd_of k) u in
      let (answer, polls) = async_want_send-polls_out (fd_of k) (fd_of k) u in
      let at : (and_then asks (λ _. pure s.world.next_promise)).1 ≡ asks.1 =
        then_pure_state s.world.next_promise asks in
      record {
        answer =
            rw
              (
                then_pure_answer s.world.next_promise asks (any (has_fd (fd_of k)) u.pfds) tt
                    assertion_failed answer,
                e,
                same,
              )
              (ground arith);
        queued = rw (at, async_want_send-world (fd_of k) u) queue;
        polled = rw (at, polls, e, same, ==_refl (fd_of k)) (ground arith);
        polls_kept =
            λ g ne. rw (at, (async_want_send-polls_out (fd_of k) g u).1, same, ne) (ground arith);
      }

  -- `Send` puts the buffer last into the queue. The driver polls an attached socket for writing once its queue was
  -- empty, and as before otherwise, the other sockets always as before. On a socket that is no longer attached
  -- the code's assertion fails if the queue was empty.
  pub do_send-Enqueued :
      (k : ℕ) (q : List SendQElement) (b : List ℕ) (s : State (Program W))
      → Enqueued k q b s (do_send fd_of (send_q q) k b s)
  unfolding do_send send
  do_send-Enqueued k q b s = asked-Enqueued k q b s _ (is_empty q) refl refl (rw (==_refl k) refl)
