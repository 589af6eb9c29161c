-- ===== src/Socket/Sent.antt =====
-- What `SendNow` and the waits of src/socket_impl.cpp do to the stream: a front of the bytes is appended,
-- or nothing is.
use sockpuppet.Base.{
  String, ℕ, zero, suc, ◌≤◌, ◌<◌, ◌≡◌, refl, sym, ap, ◌∙◌, ◌⊎◌, inr, true, false, not, ◌&&◌, ltb,
  List, [], ◌∷◌, ◌++◌, append_assoc, append-nil, length, take, drop, take-append-drop, is_empty,
  arith, Ensures,
}
use sockpuppet.Base.Int.{ℤ, pos, negsuc, pos_part}
use sockpuppet.Os.{Sys, StreamLaws}
use sockpuppet.Wait.{
  Deadline, unlimited, unlimited_time, zero_limited, zero_time, limited, time_left, tick,
  wait_writable, poll_result,
}
use sockpuppet.Socket.{send_result, send_now}

ltb_zero_suc : (k : ℕ) → ltb 0 (suc k) ≡ true
ltb_zero_suc k = ground arith

pub take-length : (xs ys : List ℕ) → take (length xs) (xs ++ ys) ≡ xs
take-length [] ys = refl
take-length (x ∷ xs) ys = ap (◌∷◌ x) (take-length xs ys)

pub is_empty-eq : (xs : List ℕ) → is_empty xs ≡ true → xs ≡ []
is_empty-eq [] h = refl
is_empty-eq (x ∷ xs) h = cc

pub is_empty-pos : (xs : List ℕ) → is_empty xs ≡ false → 0 < length xs
is_empty-pos [] h = cc
is_empty-pos (x ∷ xs) h = omega arith

pub more : (xs : List ℕ) (d : Deadline) → (not (is_empty xs) && time_left d) ≡ true → 0 < length xs
more [] d h = cc
more (x ∷ xs) d h = omega arith

module _ (sys : Sys) (laws : StreamLaws sys) (fd : ℕ) where
  open sys use {World}
  open laws use {wire}

  -- Between two worlds the front of `left` went out on the socket, and `rest` is still to be sent.
  abbrev pub Sent : World → List ℕ → List ℕ → World → Type 0
  Sent w left rest w' =
      (front : List ℕ) × (left ≡ front ++ rest) × (wire w' fd ≡ wire w fd ++ front)

  abbrev pub SentSome : World → List ℕ → World → Type 0
  SentSome w left w' = (rest : List ℕ) × Sent w left rest w'

  abbrev pub Still : World → World → Type 0
  Still w w' = wire w' fd ≡ wire w fd

  pub Sent-Still : (w w' : World) (left : List ℕ) → Still w w' → Sent w left left w'
  Sent-Still w w' left e = ([], refl, e ∙ sym (append-nil (wire w fd)))

  pub Sent-trans :
      (w w1 w2 : World) (a b c : List ℕ) → Sent w a b w1 → Sent w1 b c w2 → Sent w a c w2
  Sent-trans w w1 w2 a b c (f, e, g) (f', e', g') =
      (f ++ f', rw append_assoc (cc), rw (g', g) (append_assoc (wire w fd) f f'))

  poll_result-Still :
      (message : String) (r : ℤ) (w w' : World)
      → Still w w'
      → Ensures (λ _ v. Still w v) (Still w) (poll_result sys message r w')
  poll_result-Still message (pos n) w w' h = h
  poll_result-Still message (negsuc n) w w' h = (λ e. cc, h)

  pub wait-Still :
      (t : ℤ) (w : World) → Ensures (λ _ w'. Still w w') (Still w) (wait_writable sys fd t w)
  unfolding wait_writable
  wait-Still t w = poll_result-Still _ _ w _ (laws.poll_wire _ _ w fd)

  pub tick-Still :
      (d : Deadline) (w : World) → Ensures (λ _ w'. Still w w') (Still w) (tick sys d w)
  unfolding tick
  tick-Still unlimited w = refl
  tick-Still (unlimited_time now) w = laws.now_wire w fd
  tick-Still zero_limited w = refl
  tick-Still (zero_time now) w = laws.now_wire w fd
  tick-Still (limited now deadline) w = laws.now_wire w fd

  -- One call of `send` that the code takes for good sends a byte, unless there is none.
  abbrev pub SendsFront : World → List ℕ → ℕ → World → Type 0
  SendsFront w left n w' =
      (n ≤ length left) × (wire w' fd ≡ wire w fd ++ take n left) × ((0 < n) ⊎ (length left ≡ 0))

  send_result-SendsFront :
      (w w' : World) (left : List ℕ) (r : ℤ)
      → pos_part r ≤ length left
      → wire w' fd ≡ wire w fd ++ take (pos_part r) left
      → Ensures (SendsFront w left) (Still w) (send_result sys r (length left) w')
  send_result-SendsFront w w' left (negsuc n) le e = (λ e. cc, e ∙ append-nil (wire w fd))
  send_result-SendsFront w w' [] (pos zero) le e = (le, e, inr refl)
  send_result-SendsFront w w' (x ∷ left) (pos zero) le e =
      rw (ltb_zero_suc (length left)) (λ e'. cc, e ∙ append-nil (wire w fd))
  send_result-SendsFront w w' left (pos (suc n)) le e = ground arith

  pub send_now-SendsFront :
      (left : List ℕ) (w : World) → Ensures (SendsFront w left) (Still w) (send_now sys fd left w)
  unfolding send_now
  send_now-SendsFront left w =
      send_result-SendsFront w _ left (sys.send fd left w).0 (laws.send_le fd left w)
        (laws.send_wire fd left w)

  pub SendsFront-Sent :
      (w w1 w2 : World) (left : List ℕ) (n : ℕ)
      → Still w w1
      → SendsFront w1 left n w2
      → Sent w left (drop n left) w2
  SendsFront-Sent w w1 w2 left n s f = (take n left, sym (take-append-drop n left), rw (f.1, s))
