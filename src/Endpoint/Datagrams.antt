-- ===== src/Endpoint/Datagrams.antt =====
-- `SocketUdp::SendTo` of src/socket.cpp: sending to an address that may not suit UDP.
use sockpuppet.Base.{
  ℕ, zero, suc, is_runtime_error, arith, ◌≡◌, refl, sym, ap, ◌∙◌, ==_refl, true, List, [], ◌∷◌,
  ◌++◌, append_assoc, append-nil, length, Result, ok, err, Error, Action, throw, pure, and_then,
  String, ltb, if◌then◌else◌,
}
use sockpuppet.Base.Int.{ℤ, pos, negsuc}
use sockpuppet.Os.{Sys, Pollfd, DatagramLaws}
use sockpuppet.Wait.{wait_writable, poll_result, wants_out, no_revents, to_msec}
use sockpuppet.Socket.{send_to, send_to_now, sendto_result}
use sockpuppet.Address.{Address, Platform, for_udp}

-- The arguments of a call of `SendTo`.
pub record UdpCall : Type 0 where
  pub bytes : List ℕ
  pub address : Address
  pub timeout : ℤ

module _ (sys : Sys) (platform : Platform) (fd : ℕ) where
  abbrev pub send_to_suited : List ℕ → ℤ → Result (List ℕ) → Action sys.World ℕ
  send_to_suited bytes timeout (ok addr) = send_to sys fd bytes addr timeout
  send_to_suited bytes timeout (err e) = throw e

  -- `SocketUdp::SendTo`
  unfoldable pub udp_send_to : UdpCall → Action sys.World ℕ
  unfolding send_to
  udp_send_to c = send_to_suited c.bytes c.timeout (for_udp platform c.address)

  -- A sequence of calls with the result of each.
  unfoldable pub send_each : List UdpCall → sys.World → List (Result ℕ) × sys.World
  unfolding udp_send_to
  send_each [] w = ([], w)
  send_each (c ∷ cs) w =
      let (r, w1) = udp_send_to c w in let (rs, w2) = send_each cs w1 in (r ∷ rs, w2)

  -- The answer of `poll` as to whether the socket is writable within the timeout.
  abbrev pub polled_for : ℤ → sys.World → ℤ × List Pollfd × sys.World
  polled_for timeout w =
      sys.poll (record { fd = fd; events = wants_out; revents = no_revents } ∷ []) (to_msec timeout)
        w

  -- What a sequence of calls, the first of them in the world `w`, returns and sends: a call polls for its
  -- timeout; if the socket is writable, the buffer is sent as one datagram to the address that suits UDP,
  -- and the call returns its size, or sending fails; if the time is up, nothing is sent and the call
  -- returns zero; if polling fails, or no address suits UDP, nothing is sent and it throws.
  pub data Posted
      : List UdpCall → sys.World → List (Result ℕ) → List (List ℕ × List ℕ) → Type 0 where
    no_calls : (w : sys.World) → Posted [] w [] []
    whole :
        (c : UdpCall) (w : sys.World) (a : List ℕ) (m : ℕ) {cs : List UdpCall}
        {rs : List (Result ℕ)} {ds : List (List ℕ × List ℕ)}
        → for_udp platform c.address ≡ ok a
        → (polled_for c.timeout w).0 ≡ pos (suc m)
        → Posted cs (sys.sendto fd c.bytes a (polled_for c.timeout w).2).1 rs ds
        → Posted (c ∷ cs) w (ok (length c.bytes) ∷ rs) ((a, c.bytes) ∷ ds)
    late :
        (c : UdpCall) (w : sys.World) (a : List ℕ) {cs : List UdpCall} {rs : List (Result ℕ)}
        {ds : List (List ℕ × List ℕ)}
        → for_udp platform c.address ≡ ok a
        → (polled_for c.timeout w).0 ≡ pos 0
        → Posted cs (polled_for c.timeout w).2 rs ds
        → Posted (c ∷ cs) w (ok 0 ∷ rs) ds
    not_polled :
        (c : UdpCall) (w : sys.World) (a : List ℕ) (m : ℕ) (e : Error) {cs : List UdpCall}
        {rs : List (Result ℕ)} {ds : List (List ℕ × List ℕ)}
        → for_udp platform c.address ≡ ok a
        → (polled_for c.timeout w).0 ≡ negsuc m
        → is_runtime_error e ≡ true
        → Posted cs (polled_for c.timeout w).2 rs ds
        → Posted (c ∷ cs) w (err e ∷ rs) ds
    not_sent :
        (c : UdpCall) (w : sys.World) (a : List ℕ) (m n : ℕ) (e : Error) {cs : List UdpCall}
        {rs : List (Result ℕ)} {ds : List (List ℕ × List ℕ)}
        → for_udp platform c.address ≡ ok a
        → (polled_for c.timeout w).0 ≡ pos (suc m)
        → (sys.sendto fd c.bytes a (polled_for c.timeout w).2).0 ≡ negsuc n
        → is_runtime_error e ≡ true
        → Posted cs (sys.sendto fd c.bytes a (polled_for c.timeout w).2).1 rs ds
        → Posted (c ∷ cs) w (err e ∷ rs) ds
    unsuited :
        (c : UdpCall) (w : sys.World) (e : Error) {cs : List UdpCall} {rs : List (Result ℕ)}
        {ds : List (List ℕ × List ℕ)}
        → for_udp platform c.address ≡ err e
        → Posted cs w rs ds
        → Posted (c ∷ cs) w (err e ∷ rs) ds

module _ (sys : Sys) (platform : Platform) (fd : ℕ) (laws : DatagramLaws sys) where
  open sys use {World}

  -- What the calls have sent from one world to the next.
  pub record SentOn (cs : List UdpCall) (rs : List (Result ℕ)) (w w' : World) : Type 0 where
    pub datagrams : List (List ℕ × List ℕ)
    pub on_wire : laws.sent w' fd ≡ laws.sent w fd ++ datagrams
    pub matched : Posted sys platform fd cs w rs datagrams

  abbrev Rest : List UdpCall → Type 0
  Rest cs =
      (w : World)
      → SentOn cs (send_each sys platform fd cs w).0 w (send_each sys platform fd cs w).1

  -- The outcome of a call with what the calls behind it do.
  abbrev Then : UdpCall → List UdpCall → World → Result ℕ × World → Type 0
  Then c cs w (r, w1) =
      SentOn (c ∷ cs) (r ∷ (send_each sys platform fd cs w1).0) w
        (send_each sys platform fd cs w1).1

  none_sent :
      (c : UdpCall) (cs : List UdpCall) (r : Result ℕ) (w w1 : World)
      → Rest cs
      → ((rs : List (Result ℕ)) (ds : List (List ℕ × List ℕ))
          → Posted sys platform fd cs w1 rs ds
          → Posted sys platform fd (c ∷ cs) w (r ∷ rs) ds)
      → laws.sent w1 fd ≡ laws.sent w fd
      → Then c cs w (r, w1)
  none_sent c cs r w w1 ih k e = record {
    datagrams = (ih w1).datagrams;
    on_wire = (ih w1).on_wire ∙ ap (λ l. l ++ (ih w1).datagrams) e;
    matched = k _ _ (ih w1).matched;
  }

  module _ (c : UdpCall) (a : List ℕ) (cs : List UdpCall) (w : World) (ih : Rest cs)
      (f : for_udp platform c.address ≡ ok a) where
    abbrev w1 : World
    w1 = (polled_for sys platform fd c.timeout w).2

    unsent : laws.sent w1 fd ≡ laws.sent w fd
    unsent = laws.poll_sent _ _ w fd

    sent_now :
        (m : ℕ)
        → (polled_for sys platform fd c.timeout w).0 ≡ pos (suc m)
        → Then c cs w (send_to_now sys fd c.bytes a w1)
    unfolding send_to_now
    sent_now m ready = go (sys.sendto fd c.bytes a w1).0 refl
      where
        go :
            (r : ℤ)
            → (sys.sendto fd c.bytes a w1).0 ≡ r
            → Then c cs w (sendto_result sys r (length c.bytes) (sys.sendto fd c.bytes a w1).1)
        go (negsuc n) q =
            none_sent c cs _ w (sys.sendto fd c.bytes a w1).1 ih
              (λ rs ds p. not_sent c w a m n _ f ready q refl p)
              (laws.sendto_failed fd c.bytes a w1 n q ∙ unsent)
        go (pos n) q =
            let (size, sent) = laws.sendto_whole fd c.bytes a w1 n q in
            let rest = ih (sys.sendto fd c.bytes a w1).1 in
            rw (size, ==_refl (length c.bytes))
              (record {
                datagrams = (a, c.bytes) ∷ rest.datagrams;
                on_wire =
                    rest.on_wire
                    ∙ (ap (λ l. l ++ rest.datagrams)
                          (sent ∙ ap (λ l. l ++ (a, c.bytes) ∷ []) unsent)
                        ∙ append_assoc (laws.sent w fd) ((a, c.bytes) ∷ []) rest.datagrams);
                matched = whole c w a m f ready rest.matched;
              })

    polled :
        (message : String) (r : ℤ)
        → (polled_for sys platform fd c.timeout w).0 ≡ r
        → Then c cs w (
            and_then
              (poll_result sys message r w1)
              (λ writable. if writable then send_to_now sys fd c.bytes a else pure 0))
    polled message (negsuc n) q =
        none_sent c cs _ w w1 ih (λ rs ds p. not_polled c w a n _ f q refl p) unsent
    polled message (pos zero) q = none_sent c cs (ok 0) w w1 ih (λ rs ds p. late c w a f q p) unsent
    polled message (pos (suc n)) q =
        let yes : ltb 0 (suc n) ≡ true = ground arith in rw yes (sent_now n q)

  suited :
      (c : UdpCall) (cs : List UdpCall) (w : World) (m : Result (List ℕ))
      → Rest cs
      → for_udp platform c.address ≡ m
      → Then c cs w (send_to_suited sys platform fd c.bytes c.timeout m w)
  unfolding send_to wait_writable
  suited c cs w (ok a) ih f =
      polled c a cs w ih f "failed to wait for socket writable"
        (polled_for sys platform fd c.timeout w).0 refl
  suited c cs w (err x) ih f = none_sent c cs _ w w ih (λ rs ds p. unsuited c w x f p) refl

  -- Any sequence of `SendTo` calls sends, whole and in order, one datagram for each call whose address
  -- suits UDP, which `poll` found writable within its timeout and whose `sendto` did not fail, and that
  -- call returns the size; a call for which `poll` found the time up returns zero and sends none; a call
  -- throws and sends none just if no address suits UDP, with what `ForUdp` throws, or if `poll` or
  -- `sendto` fails, with a run-time error; in each case the calls behind it go on.
  pub send_each-Sent :
      (cs : List UdpCall) (w : World)
      → SentOn cs (send_each sys platform fd cs w).0 w (send_each sys platform fd cs w).1
  unfolding send_each udp_send_to
  send_each-Sent [] w = record {
    datagrams = [];
    on_wire = sym (append-nil (laws.sent w fd));
    matched = no_calls w;
  }
  send_each-Sent (c ∷ cs) w = suited c cs w (for_udp platform c.address) (send_each-Sent cs) refl
