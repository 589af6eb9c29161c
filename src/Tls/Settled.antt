-- ===== src/Tls/Settled.antt =====
-- The socket operations that a session of src/socket_tls_impl.cpp calls all end, with a result or with an
-- exception of the source, and `SendSome` keeps a limited deadline limited.
use sockpuppet.Base.{
  ℕ, zero, suc, inl, inr, List, is_empty, drop, not, ◌&&◌, length, Result, ok, err, Action,
  and_then, Ensures, Ensures-and_then, Ensures-mono, Bool-cases, String,
}
use sockpuppet.Base.Int.{ℤ, pos, negsuc}
use sockpuppet.Os.{Sys, StreamLaws}
use sockpuppet.Wait.{
  Deadline, unlimited, unlimited_time, zero_limited, zero_time, time_left, limited, remaining, tick,
  tick_at, wait_readable, wait_writable, poll_result,
}
use sockpuppet.Socket.{
  receive, receive_now, recv_result, send_all, send_try, send_some, send_some_loop, send_now,
  zero_timeout,
}
use sockpuppet.Socket.Sent.{send_now-SendsFront}
use sockpuppet.Socket.Stream.{send_all-SentAll, send_some-SentFront}

-- The code ends, with a result or an exception of the source.
abbrev pub Ends : {S A : Type 0} → Result A × S → Type 0
Ends m = Ensures (λ _ _. Unit {0}) (λ _. Unit {0}) m

Ends-and_then :
    {S A B : Type 0} (m : Result A × S) (f : A → Action S B)
    → Ends m
    → ((a : A) (s : S) → Ends (f a s))
    → Ends (and_then m f)
Ends-and_then m f e k =
    Ensures-and_then (λ _ _. Unit {0}) (λ _. Unit {0}) (λ _ _. Unit {0}) (λ _. Unit {0}) m f e
      (λ a s _. k a s) (λ s q. q)

abbrev pub IsLimited : Deadline → Type 0
IsLimited (limited now deadline) = Unit {0}
IsLimited _ = ⊥

-- What holds of a result, if there is one.
abbrev Gives : {S A : Type 0} → (A → Type 0) → Result A × S → Type 0
Gives P (ok a, s) = P a
Gives P (err e, s) = Unit {0}

Gives-and_then :
    {S A B : Type 0} (P : A → Type 0) (Q : B → Type 0) (m : Result A × S) (f : A → Action S B)
    → Gives P m
    → ((a : A) (s : S) → P a → Gives Q (f a s))
    → Gives Q (and_then m f)
Gives-and_then P Q (ok a, s) f g k = k a s g
Gives-and_then P Q (err e, s) f g k = tt

any-Gives : {S A : Type 0} (m : Result A × S) → Gives (λ _. Unit {0}) m
any-Gives (ok a, s) = tt
any-Gives (err e, s) = tt

pub both :
    {S A : Type 0} (P : A → Type 0) (m : Result A × S)
    → Ends m
    → Gives P m
    → Ensures (λ a _. P a) (λ _. Unit {0}) m
both P (ok a, s) e g = g
both P (err x, s) e g = e

module _ (sys : Sys) (fd : ℕ) where
  tick-Limited : (d : Deadline) → IsLimited d → (w : sys.World) → Gives IsLimited (tick sys d w)
  unfolding tick tick_at
  tick-Limited (limited now deadline) l w = tt
  tick-Limited unlimited l w = absurd l
  tick-Limited (unlimited_time now) l w = absurd l
  tick-Limited zero_limited l w = absurd l
  tick-Limited (zero_time now) l w = absurd l

  -- `SendSome` leaves a limited deadline limited.
  send_some_loop-Limited :
      (fuel : ℕ) (left : List ℕ) (d : Deadline)
      → IsLimited d
      → (w : sys.World)
      → Gives (λ (r : List ℕ × Deadline). IsLimited r.1) (send_some_loop sys fuel fd left d w)
  unfolding send_some_loop
  send_some_loop-Limited zero left d l w = tt
  send_some_loop-Limited (suc fuel) left d l w =
      Gives-and_then (λ _. Unit {0}) (λ r. IsLimited r.1) (wait_writable sys fd (remaining d) w) _
        (any-Gives _)
        λ writable w1 _. elim (Bool-cases writable) [
          | inr e ↦ rw e l
          | inl e ↦ rw e (
              Gives-and_then IsLimited (λ r. IsLimited r.1) (tick sys d w1) _ (tick-Limited d l w1)
                λ d2 w2 l2.
                  Gives-and_then (λ _. Unit {0}) (λ r. IsLimited r.1) (send_now sys fd left w2) _
                    (any-Gives _)
                    λ sent w3 _.
                      elim (Bool-cases (not (is_empty (drop sent left)) && time_left d2)) [
                        | inl c ↦ rw c (send_some_loop-Limited fuel (drop sent left) d2 l2 w3)
                        | inr c ↦ rw c l2
                      ])
        ]

  pub send_some-Limited :
      (left : List ℕ) (d : Deadline)
      → IsLimited d
      → (w : sys.World) → Gives (λ (r : ℕ × Deadline). IsLimited r.1) (send_some sys fd left d w)
  unfolding send_some
  send_some-Limited left d l w =
      Gives-and_then (λ r. IsLimited r.1) (λ r. IsLimited r.1)
        (send_some_loop sys (suc (length left)) fd left d w) _
        (send_some_loop-Limited (suc (length left)) left d l w) (λ r w2 q. q)

module _ (sys : Sys) (laws : StreamLaws sys) (fd : ℕ) where
  open sys use {World}

  poll_result-Ends : (message : String) (r : ℤ) (w : World) → Ends (poll_result sys message r w)
  poll_result-Ends message (pos n) w = tt
  poll_result-Ends message (negsuc n) w = (λ e. cc, tt)

  pub wait_readable-Ends : (t : ℤ) (w : World) → Ends (wait_readable sys fd t w)
  unfolding wait_readable
  wait_readable-Ends t w = poll_result-Ends _ _ _

  pub wait_writable-Ends : (t : ℤ) (w : World) → Ends (wait_writable sys fd t w)
  unfolding wait_writable
  wait_writable-Ends t w = poll_result-Ends _ _ _

  recv_result-Ends : (r : ℤ) (bytes : List ℕ) (w : World) → Ends (recv_result sys r bytes w)
  recv_result-Ends (negsuc n) bytes w = (λ e. cc, tt)
  recv_result-Ends (pos zero) bytes w = (λ e. cc, tt)
  recv_result-Ends (pos (suc n)) bytes w = tt

  pub receive_now-Ends : (size : ℕ) (w : World) → Ends (receive_now sys fd size w)
  unfolding receive_now
  receive_now-Ends size w = recv_result-Ends _ _ _

  pub receive-Ends : (size : ℕ) (t : ℤ) (w : World) → Ends (receive sys fd size t w)
  unfolding receive
  receive-Ends size t w =
      Ends-and_then (wait_readable sys fd t w) _ (wait_readable-Ends t w) λ readable w1.
        elim (Bool-cases readable) [
          | inl e ↦
              rw e (
                Ends-and_then (receive_now sys fd size w1) _ (receive_now-Ends size w1)
                  (λ r w2. tt))
          | inr e ↦ rw e tt
        ]

  pub send_now-Ends : (d : List ℕ) (w : World) → Ends (send_now sys fd d w)
  send_now-Ends d w =
      Ensures-mono _ _ _ _ _ (send_now-SendsFront sys laws fd d w) (λ n w' p. tt) (λ w' q. tt)

  pub send_all-Ends : (d : List ℕ) (w : World) → Ends (send_all sys fd d w)
  send_all-Ends d w =
      Ensures-mono _ _ _ _ _ (send_all-SentAll sys laws fd d w) (λ n w' p. tt) (λ w' q. tt)

  pub send_some-Ends : (d : List ℕ) (l : Deadline) (w : World) → Ends (send_some sys fd d l w)
  send_some-Ends d l w =
      Ensures-mono _ _ _ _ _ (send_some-SentFront sys laws fd d l w) (λ n w' p. tt) (λ w' q. tt)

  pub send_try-Ends : (d : List ℕ) (w : World) → Ends (send_try sys fd d w)
  unfolding send_try
  send_try-Ends d w =
      Ends-and_then (wait_writable sys fd zero_timeout w) _ (wait_writable-Ends zero_timeout w)
        λ writable w1. elim (Bool-cases writable) [
          | inl e ↦ rw e (send_now-Ends d w1)
          | inr e ↦ rw e tt
        ]
