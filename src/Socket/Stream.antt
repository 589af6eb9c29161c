-- ===== src/Socket/Stream.antt =====
-- What the send loops of src/socket_impl.cpp put on the wire of a stream socket.
use sockpuppet.Base.{
  pure, ◌>>=◌, ap₂, take_all, ℕ, zero, suc, ◌-◌, ◌≤◌, ◌<◌, ◌≡◌, sym, ap, ◌∙◌, inl, inr, true, false,
  not, ◌&&◌, List, [], ◌++◌, append-nil, length, length-append, length-drop, take, drop, is_empty,
  arith, Ensures, Ensures-mono, Ensures-and_then, Bool-cases,
}
use sockpuppet.Base.Int.{ℤ, pos, negsuc}
use sockpuppet.Os.{Sys, StreamLaws}
use sockpuppet.Wait.{Deadline, time_left, remaining, tick, wait_writable, limited_from_now}
use sockpuppet.Socket.{
  send_now, send_all_loop, send_all, send_try, send_some_loop, send_some, send, no_timeout,
  zero_timeout,
}
use sockpuppet.Socket.Sent.{
  take-length, is_empty-eq, is_empty-pos, more, Sent, SentSome, Still, Sent-Still, Sent-trans,
  wait-Still, tick-Still, SendsFront, send_now-SendsFront, SendsFront-Sent,
}

module _ (sys : Sys) (laws : StreamLaws sys) (fd : ℕ) where
  open sys use {World}
  open laws use {wire}

  abbrev AllSent : World → List ℕ → List ℕ → World → Type 0
  AllSent w left rest w' = Sent sys laws fd w left rest w' × (rest ≡ [])

  send_all_loop-AllSent :
      (fuel : ℕ) (left : List ℕ) (w : World)
      → length left < fuel
      → Ensures (AllSent w left) (SentSome sys laws fd w left) (send_all_loop sys fuel fd left w)
  unfolding send_all_loop
  send_all_loop-AllSent zero left w h = absurd (omega arith)
  send_all_loop-AllSent (suc fuel) left w h =
      Ensures-and_then (λ _ w1. Still sys laws fd w w1) (Still sys laws fd w) (AllSent w left)
        (SentSome sys laws fd w left) (wait_writable sys fd no_timeout w) _
        (wait-Still sys laws fd no_timeout w)
        (λ _ w1 s1.
          Ensures-and_then (SendsFront sys laws fd w1 left) (Still sys laws fd w1) (AllSent w left)
            (SentSome sys laws fd w left) (send_now sys fd left w1) _
            (send_now-SendsFront sys laws fd left w1)
            (λ n w2 s2.
              let so_far = SendsFront-Sent sys laws fd w w1 w2 left n s1 s2 in
              elim (Bool-cases (is_empty (drop n left))) [
                | inl e ↦ rw e (so_far, is_empty-eq (drop n left) e)
                | inr e ↦ rw e (
                    Ensures-mono (AllSent w2 (drop n left)) (AllSent w left)
                      (SentSome sys laws fd w2 (drop n left)) (SentSome sys laws fd w left) _
                      (send_all_loop-AllSent fuel (drop n left) w2
                        (omega (arith, length-drop n left, is_empty-pos (drop n left) e, s2.2)))
                      (λ rest w3 p.
                        (Sent-trans sys laws fd w w2 w3 left (drop n left) rest so_far p.0, p.1))
                      (λ w3 q.
                        (q.0, Sent-trans sys laws fd w w2 w3 left (drop n left) q.0 so_far q.1)))
              ])
            (λ w2 s2. (left, Sent-Still sys laws fd w w2 left (s2 ∙ s1))))
        (λ w1 s1. (left, Sent-Still sys laws fd w w1 left s1))

  abbrev pub SentAll : World → List ℕ → ℕ → World → Type 0
  SentAll w left n w' = (n ≡ length left) × (wire w' fd ≡ wire w fd ++ left)

  AllSent-SentAll :
      (w w' : World) (left rest : List ℕ)
      → AllSent w left rest w'
      → SentAll w left (length left - length rest) w'
  AllSent-SentAll w w' left rest ((front, e, g), none_left) = (
    omega (arith, ap length none_left),
    g ∙ ap (λ l. wire w fd ++ l) (sym (e ∙ rw none_left (append-nil front))),
  )

  -- `SendAll` comes to an end. It returns only with the whole buffer accepted by the socket, in order
  -- and nothing else, and then returns the buffer's size; if it throws, a front part of the buffer
  -- has been accepted.
  pub send_all-SentAll :
      (bytes : List ℕ) (w : World)
      → Ensures (SentAll w bytes) (SentSome sys laws fd w bytes) (send_all sys fd bytes w)
  unfolding send_all
  send_all-SentAll bytes w =
      Ensures-and_then (AllSent w bytes) (SentSome sys laws fd w bytes) (SentAll w bytes)
        (SentSome sys laws fd w bytes) _ _
        (send_all_loop-AllSent (suc (length bytes)) bytes w (omega arith))
        (λ rest w' p. AllSent-SentAll w w' bytes rest p) (λ w' q. q)

  abbrev SentTo : World → List ℕ → List ℕ × Deadline → World → Type 0
  SentTo w left r w' = Sent sys laws fd w left r.0 w'

  send_some_loop-Sent :
      (fuel : ℕ) (left : List ℕ) (d : Deadline) (w : World)
      → length left < fuel
      → Ensures (SentTo w left) (SentSome sys laws fd w left) (send_some_loop sys fuel fd left d w)
  unfolding send_some_loop
  send_some_loop-Sent zero left d w h = absurd (omega arith)
  send_some_loop-Sent (suc fuel) left d w h =
      Ensures-and_then (λ _ w1. Still sys laws fd w w1) (Still sys laws fd w) (SentTo w left)
        (SentSome sys laws fd w left) (wait_writable sys fd (remaining d) w) _
        (wait-Still sys laws fd (remaining d) w)
        (elim [
          | false ↦ λ w1 s1. Sent-Still sys laws fd w w1 left s1
          | true ↦ λ w1 s1.
              Ensures-and_then (λ _ w2. Still sys laws fd w1 w2) (Still sys laws fd w1)
                (SentTo w left) (SentSome sys laws fd w left) (tick sys d w1) _
                (tick-Still sys laws fd d w1)
                (λ d' w2 s2.
                  Ensures-and_then (SendsFront sys laws fd w2 left) (Still sys laws fd w2)
                    (SentTo w left) (SentSome sys laws fd w left) (send_now sys fd left w2) _
                    (send_now-SendsFront sys laws fd left w2)
                    (λ n w3 s3.
                      let so_far = SendsFront-Sent sys laws fd w w2 w3 left n (s2 ∙ s1) s3 in
                      elim (Bool-cases (not (is_empty (drop n left)) && time_left d')) [
                        | inl e ↦ rw e (
                            Ensures-mono (SentTo w3 (drop n left)) (SentTo w left)
                              (SentSome sys laws fd w3 (drop n left)) (SentSome sys laws fd w left)
                              _
                              (send_some_loop-Sent fuel (drop n left) d' w3
                                (omega (arith, length-drop n left, more (drop n left) d' e, s3.2)))
                              (λ r w4 p.
                                Sent-trans sys laws fd w w3 w4 left (drop n left) r.0 so_far p)
                              (λ w4 q. (
                                q.0,
                                Sent-trans sys laws fd w w3 w4 left (drop n left) q.0 so_far q.1,
                              )))
                        | inr e ↦ rw e so_far
                      ])
                    (λ w3 s3. (left, Sent-Still sys laws fd w w3 left (s3 ∙ (s2 ∙ s1)))))
                (λ w2 s2. (left, Sent-Still sys laws fd w w2 left (s2 ∙ s1)))
        ])
        (λ w1 s1. (left, Sent-Still sys laws fd w w1 left s1))

  abbrev pub SentFront : World → List ℕ → ℕ → World → Type 0
  SentFront w left n w' = (n ≤ length left) × (wire w' fd ≡ wire w fd ++ take n left)

  Sent-SentFront :
      (w w' : World) (left rest : List ℕ)
      → Sent sys laws fd w left rest w'
      → SentFront w left (length left - length rest) w'
  Sent-SentFront w w' left rest (front, e, g) = (
    omega arith,
    g
        ∙ ap (λ l. wire w fd ++ l)
            (sym (
              ap₂ take (omega (arith, ap length e, length-append front rest)) e
              ∙ take-length front rest)),
  )

  -- `SendSome` comes to an end, whatever the deadline. It returns how many bytes from the front of
  -- the buffer the socket has accepted, in order and nothing else; if it throws, some front part has
  -- been accepted.
  pub send_some-SentFront :
      (bytes : List ℕ) (d : Deadline) (w : World)
      → Ensures
          (λ r. SentFront w bytes r.0)
          (SentSome sys laws fd w bytes)
          (send_some sys fd bytes d w)
  unfolding send_some
  send_some-SentFront bytes d w =
      Ensures-and_then (SentTo w bytes) (SentSome sys laws fd w bytes) (λ r. SentFront w bytes r.0)
        (SentSome sys laws fd w bytes) _ _
        (send_some_loop-Sent (suc (length bytes)) bytes d w (omega arith))
        (λ r w' p. Sent-SentFront w w' bytes r.0 p) (λ w' q. q)

  send_try-SentFront :
      (bytes : List ℕ) (w : World)
      → Ensures (SentFront w bytes) (SentSome sys laws fd w bytes) (send_try sys fd bytes w)
  unfolding send_try
  send_try-SentFront bytes w =
      Ensures-and_then (λ _ w1. Still sys laws fd w w1) (Still sys laws fd w) (SentFront w bytes)
        (SentSome sys laws fd w bytes) (wait_writable sys fd zero_timeout w) _
        (wait-Still sys laws fd zero_timeout w)
        (elim [
          | false ↦ λ w1 s1. (omega arith, s1 ∙ sym (append-nil (wire w fd)))
          | true ↦ λ w1 s1.
              Ensures-mono (SendsFront sys laws fd w1 bytes) (SentFront w bytes)
                (Still sys laws fd w1) (SentSome sys laws fd w bytes) _
                (send_now-SendsFront sys laws fd bytes w1) (λ n w2 p. (p.0, rw (p.1, s1)))
                (λ w2 q. (bytes, Sent-Still sys laws fd w w2 bytes (q ∙ s1)))
        ])
        (λ w1 s1. (bytes, Sent-Still sys laws fd w w1 bytes s1))

  limited_from_now-Still :
      (t : ℤ) (w : World)
      → Ensures (λ _ w'. Still sys laws fd w w') (Still sys laws fd w) (limited_from_now sys t w)
  unfolding limited_from_now
  limited_from_now-Still t w = laws.now_wire w fd

  -- `SocketImpl::Send` with any timeout comes to an end, and the number that it returns is that of the
  -- bytes from the front of the buffer that the socket has accepted, in order and nothing else.
  pub send-SentFront :
      (bytes : List ℕ) (timeout : ℤ) (w : World)
      → Ensures (SentFront w bytes) (SentSome sys laws fd w bytes) (send sys fd bytes timeout w)
  unfolding send
  send-SentFront bytes (negsuc n) w =
      Ensures-mono (SentAll w bytes) (SentFront w bytes) (SentSome sys laws fd w bytes)
        (SentSome sys laws fd w bytes) _ (send_all-SentAll bytes w)
        (λ k w' p. (
          omega (arith, p.0),
          p.1 ∙ ap (λ l. wire w fd ++ l) (sym (take_all k bytes (omega (arith, p.0)))),
        ))
        (λ w' q. q)
  send-SentFront bytes (pos zero) w = send_try-SentFront bytes w
  send-SentFront bytes (pos (suc n)) w =
      Ensures-and_then (λ _ w1. Still sys laws fd w w1) (Still sys laws fd w) (SentFront w bytes)
        (SentSome sys laws fd w bytes) (limited_from_now sys (pos (suc n)) w)
        (λ d. send_some sys fd bytes d >>= λ r. pure r.0) (limited_from_now-Still (pos (suc n)) w)
        (λ d w1 s1.
          Ensures-and_then (λ r. SentFront w1 bytes r.0) (SentSome sys laws fd w1 bytes)
            (SentFront w bytes) (SentSome sys laws fd w bytes) (send_some sys fd bytes d w1)
            (λ r. pure r.0) (send_some-SentFront bytes d w1) (λ r w2 p. (p.0, rw (p.1, s1)))
            (λ w2 q. (
              q.0,
              Sent-trans sys laws fd w w1 w2 bytes bytes q.0 (Sent-Still sys laws fd w w1 bytes s1)
                  q.1,
            )))
        (λ w1 s1. (bytes, Sent-Still sys laws fd w w1 bytes s1))
