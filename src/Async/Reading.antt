-- ===== src/Async/Reading.antt =====
-- A readable TCP socket in src/socket_async_impl.cpp: data goes to the user's handler, an error detaches
-- the socket and tells the user once.
use sockpuppet.Base.{
  ℕ, ◌^◌, ◌<◌, ◌≤◌, ◌≡◌, refl, ap, sym, ◌∙◌, ◌⊎◌, subst, runtime_error, ◌==◌, true, false, List,
  ==_refl, if◌then◌else◌, is_empty, length, Result, ok, err, Error, is_runtime_error, ◌++◌, ◌∷◌, [],
  and_then, String, Bool-cases, inl, inr,
}
use sockpuppet.Base.Sequence.{any, count, mem, remove_first}
use sockpuppet.Pool.Ownership.{IsPool}
use sockpuppet.Buffered.{Buffered, receive_now, drop_buffer, resize}
use sockpuppet.Buffered.Receipt.{
  ReceiptNow, failed_now, received_now, receive_now-ReceiptNow, answer_now, SameLent,
  drop_buffer_lem, returned, mem_last,
}
use sockpuppet.Driver.{State, async_unregister}
use sockpuppet.Driver.Registry.{fds, erase_found_lem}
use sockpuppet.Driver.Dispatch.{has_fd, any-remove_first}
use sockpuppet.Async.Handlers.{
  tcp, Program, Sockets, Users, on_buff, buffered, set_buffered, driver_disconnect, on_error,
  or_error, received, driver_receive,
}

-- The socket with this descriptor is detached, and the others, the schedule and the world are as before.
pub record Detached {W : Type 0} (fd_of : ℕ → ℕ) (fd : ℕ) (s t : State (Program W)) : Type 0 where
  pub unpolled : any (has_fd fd) t.pfds ≡ false
  pub others : t.pfds ≡ remove_first (has_fd fd) s.pfds
  pub attached : t.sockets ≡ remove_first (λ a. fd_of a == fd) s.sockets
  pub scheduled : t.todos ≡ s.todos
  pub same_world : t.world ≡ s.world

module _ {W : Type 0} (sockets : Sockets W) (users : Users W) (fd_of : ℕ → ℕ)
    (message : Error → String) where
  -- The driver's state once the buffered socket `k` has become `b`.
  abbrev pub after : ℕ → Buffered W → State (Program W) → State (Program W)
  after k b s = set_buffered k b s

  -- What a readable TCP socket leads to: the handler gets a buffer that was not lent, with the bytes
  -- received, and an exception of the handler is one of the socket; a receipt without bytes, from data
  -- of a TLS handshake, goes back unnoticed; or the receipt failed with a run-time error, or the pool has
  -- no buffer left, and the disconnect handler is called with the address of the peer and the message,
  -- from a state in which the socket is detached and no buffer has been lent. Another exception of the
  -- receipt is passed on.
  pub data Reading (k : ℕ) (peer : List ℕ) (s : State (Program W))
      (r : Result (Unit {0}) × State (Program W)) : Type 0 where
    handed :
        (buf n : ℕ) (bytes : List ℕ) (b : Buffered W)
        → answer_now sockets.rx (buffered fd_of k s) ≡ ok (n, bytes)
        → is_empty (resize n bytes) ≡ false
        → count buf (buffered fd_of k s).pool.busy ≡ 0
        → b.pool.busy ≡ (buffered fd_of k s).pool.busy ++ buf ∷ []
        → b.pool.content buf ≡ resize n bytes
        → r
          ≡ or_error sockets users fd_of message (tcp peer) k (users.on_receive k buf (after k b s))
        → Reading k peer s r
    handshake_data :
        (n : ℕ) (bytes : List ℕ) (b b' : Buffered W)
        → answer_now sockets.rx (buffered fd_of k s) ≡ ok (n, bytes)
        → is_empty (resize n bytes) ≡ true
        → SameLent (buffered fd_of k s).pool b'.pool
        → r ≡ (ok tt, after k b' (after k b s))
        → Reading k peer s r
    disconnected :
        (e : Error) (b : Buffered W) (t : State (Program W))
        → is_runtime_error e ≡ true
        → (answer_now sockets.rx (buffered fd_of k s) ≡ err e)
          ⊎ (e ≡ runtime_error "out of buffers")
        → SameLent (buffered fd_of k s).pool b.pool
        → Detached fd_of (fd_of k) (after k b s) t
        → r ≡ users.on_disconnect k peer (message e) t
        → Reading k peer s r
    passed_on :
        (e : Error) (b : Buffered W)
        → is_runtime_error e ≡ false
        → answer_now sockets.rx (buffered fd_of k s) ≡ err e
        → SameLent (buffered fd_of k s).pool b.pool
        → r ≡ (err e, after k b s)
        → Reading k peer s r

  driver_disconnect-Detached :
      (k : ℕ) (peer : List ℕ) (m : String) (s : State (Program W))
      → count (fd_of k) (fds s.pfds) ≤ 1
      → (t : State (Program W)) × (driver_disconnect sockets users fd_of message k peer m s
          ≡ users.on_disconnect k peer m t)
        × Detached fd_of (fd_of k) s t
  unfolding driver_disconnect async_unregister
  driver_disconnect-Detached k peer m s c = (
    (async_unregister fd_of (fd_of k) s).1,
    refl,
    record {
      unpolled =
          rw (erase_found_lem (has_fd (fd_of k)) s.pfds) (any-remove_first (fd_of k) s.pfds c);
      others = erase_found_lem (has_fd (fd_of k)) s.pfds;
      attached = erase_found_lem (λ a. fd_of a == fd_of k) s.sockets;
      scheduled = refl;
      same_world = refl;
    },
  )

  module _ (limit k : ℕ) (peer : List ℕ) (s : State (Program W))
      (c : count (fd_of k) (fds s.pfds) ≤ 1) where
    abbrev buff : Buffered W
    buff = buffered fd_of k s

    error-Reading :
        (e : Error) (b : Buffered W)
        → (answer_now sockets.rx buff ≡ err e) ⊎ (e ≡ runtime_error "out of buffers")
        → SameLent buff.pool b.pool
        → Reading k peer s (or_error sockets users fd_of message (tcp peer) k (err e, after k b s))
    unfolding on_error
    error-Reading e b why same = elim (Bool-cases (is_runtime_error e)) [
      | inl x ↦
          (let (t, eq, d) = driver_disconnect-Detached k peer (message e) (after k b s) c in
            rw x (disconnected e b t x why same d eq))
      | inr x ↦ rw x (passed_on e b x (answered x why) same refl)
    ]
      where
        answered :
            is_runtime_error e ≡ false
            → (answer_now sockets.rx buff ≡ err e) ⊎ (e ≡ runtime_error "out of buffers")
            → answer_now sockets.rx buff ≡ err e
        answered x (inl a) = a
        answered x (inr o) = cc

    received_lem :
        (a : ℕ) (b : Buffered W)
        → received sockets users fd_of message k a (after k b s) ≡ (
            if is_empty (b.pool.content a)
            then on_buff fd_of k (drop_buffer a (ok tt)) (after k b s)
            else users.on_receive k a (after k b s))
    received_lem a b = rw (==_refl k) refl

    pool_after : (b : Buffered W) → (buffered fd_of k (after k b s)).pool ≡ b.pool
    pool_after b = rw (==_refl k) refl

    dropped-Reading :
        (a n : ℕ) (bytes : List ℕ) (b : Buffered W)
        → answer_now sockets.rx buff ≡ ok (n, bytes)
        → is_empty (resize n bytes) ≡ true
        → b.pool.busy ≡ buff.pool.busy ++ a ∷ []
        → Reading k peer s (
            or_error sockets users fd_of message
              (tcp peer)
              k
              (on_buff fd_of k (drop_buffer a (ok tt)) (after k b s)))
    dropped-Reading a n bytes b m nothing busy =
        let again : Buffered W = buffered fd_of k (after k b s) in
        let lent_now : mem a again.pool.busy ≡ true =
          rw (pool_after b, busy) (mem_last a buff.pool.busy) in
        rw (drop_buffer_lem {A = Unit {0}} a (ok tt) again lent_now) (
          handshake_data n bytes b
            (record again {
              pool = record again.pool {
                idle = a ∷ again.pool.idle;
                busy = remove_first (λ x. x == a) again.pool.busy;
              };
            })
            m nothing (λ i. returned a buff.pool.busy again.pool.busy i (rw (pool_after b) busy))
            refl)

    receive-Reading :
        (r : Result ℕ × Buffered W)
        → ReceiptNow buff (answer_now sockets.rx buff) r
        → Reading k peer s (
            or_error sockets users fd_of message
              (tcp peer)
              k
              (and_then (r.0, after k r.1 s) (received sockets users fd_of message k)))
    receive-Reading (ok a, b) (failed_now e w x same) = cc
    receive-Reading (err a, b) (failed_now e w x same) =
        error-Reading a b
          (subst
            (λ (z : Error).
              (answer_now sockets.rx buff ≡ err z) ⊎ (z ≡ runtime_error "out of buffers"))
            (cc) w)
          same
    receive-Reading (err a, b) (received_now buf n bytes m x z busy content) = cc
    receive-Reading (ok a, b) (received_now buf n bytes m x z busy content) =
        elim (Bool-cases (is_empty (b.pool.content a))) [
          | inl e ↦
              let here : b.pool.content a ≡ resize n bytes = cc in
              rw (received_lem a b, e)
                (dropped-Reading a n bytes b m (ap is_empty (sym here) ∙ e) (cc))
          | inr e ↦
              let here : b.pool.content a ≡ resize n bytes = cc in
              rw (received_lem a b, e)
                (handed a n bytes b m (ap is_empty (sym here) ∙ e) (cc) (cc) here refl)
        ]

    -- A readable TCP socket, whose pool is in order and which has one poll entry at most: bytes that it
    -- received go to the user in a fresh buffer; a receipt without bytes gives its buffer back and the
    -- user is not called; if the receipt fails with a run-time error or no buffer is left, the socket is
    -- detached and then the user told; any other exception of the receipt is passed on.
    pub driver_receive-Reading :
        limit < 2 ^ 64
        → length buff.pool.busy < 2 ^ 64
        → IsPool limit buff.pool
        → Reading k peer s (driver_receive sockets users fd_of message peer k s)
    unfolding driver_receive
    driver_receive-Reading small few v =
        receive-Reading (receive_now sockets.rx buff)
          (receive_now-ReceiptNow sockets.rx limit buff small few v)
