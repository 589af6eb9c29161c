-- ===== src/Tests/Sessions.antt =====
-- A TLS session that sends one byte a call.
use sockpuppet.Base.{
  ℕ, zero, suc, ◌*◌, ◌≤◌, ◌≡◌, refl, inl, Bool, true, false, not, ◌&&◌, ◌||◌, List, [], ◌∷◌, length,
  drop, Ensures, ok, arith,
}
use sockpuppet.Base.Int.{ℤ, pos, negsuc}
use sockpuppet.Os.{Events}
use sockpuppet.Tls.{
  no_error, want_write, Call, done, ask_write, Ssl, Tls, write, handshake_steps_max,
}
use sockpuppet.Tls.Operations.{tls_query}
use sockpuppet.Tls.Tunnel.{SameKind}
use sockpuppet.Tls.Steps.{Returns}
use sockpuppet.Tls.Progress.{Resumable}
use sockpuppet.Tls.Writing.{write-Resumable}
use sockpuppet.Tls.Handshake.{wants_read, wants_write, tls_query-kept}
use sockpuppet.Tests.World.{TestWorld, test_sys, test_stream, start}

abbrev after_byte : Bool → ℕ → Call Bool (ℤ × ℕ)
after_byte s zero = done (negsuc 0, 0) s
after_byte s (suc n) = done (pos 1, 1) s

abbrev write_byte : List ℕ → Bool → Call Bool (ℤ × ℕ)
write_byte [] s = done (negsuc 0, 0) s
write_byte (x ∷ d) s = ask_write s (x ∷ []) (after_byte s)

-- The session says whether its handshake has finished.
abbrev test_ssl : Ssl
test_ssl = record {
  Session = Bool;
  read = λ n s. done (negsuc 0, []) s;
  write_ex = write_byte;
  shutdown = λ s. done (pos 1) s;
  get_error = λ s r. want_write;
  is_init_finished = λ s. s;
}

after_byte-Returns :
    (x : ℕ) (d : List ℕ) (s : Bool) (n : ℕ)
    → Returns (λ (r : ℤ × ℕ). (r.1 ≤ length (x ∷ d)) × (r.1 ≤ 1)) (after_byte s n)
after_byte-Returns x d s zero = (omega arith, omega arith)
after_byte-Returns x d s (suc n) = (omega arith, omega arith)

write_byte-Returns :
    (d : List ℕ) (s : Bool) → Returns (λ (r : ℤ × ℕ). (r.1 ≤ length d) × (r.1 ≤ 1)) (write_byte d s)
write_byte-Returns [] s = (omega arith, omega arith)
write_byte-Returns (x ∷ d) s = after_byte-Returns x d s

abbrev secured : Tls Bool TestWorld
secured = record {
  session = true;
  last_error = no_error;
  pending_send = [];
  remaining_time = negsuc 0;
  is_readable = false;
  is_writable = false;
  driver_send_suppressed = true;
  world = start;
}

-- Twelve bytes.
abbrev long_text : List ℕ
long_text = 1 ∷ 2 ∷ 3 ∷ 4 ∷ 5 ∷ 6 ∷ 7 ∷ 8 ∷ 9 ∷ 10 ∷ 11 ∷ 12 ∷ []

write-Resumable_example :
    Ensures
      (λ n s1.
        (n ≤ 12)
        × (n ≤ handshake_steps_max * 1)
        × Resumable (drop n long_text) s1.pending_send
        × SameKind (negsuc 0) s1.remaining_time)
      (λ s1. SameKind (negsuc 0) s1.remaining_time)
      (write test_sys test_ssl false 7 long_text secured)
write-Resumable_example =
    write-Resumable test_sys test_stream test_ssl false 7 1 write_byte-Returns (negsuc 0) long_text
      secured (inl refl) refl

-- With unlimited time ten of the twelve bytes are sent.
short_write : (write test_sys test_ssl false 7 long_text secured).0 ≡ ok 10
unfolding write sockpuppet.Socket.send_all
short_write = refl

tls_query-kept_example :
    let e : Events = record { pollin = true; pollout = false } in
    let r = tls_query test_sys test_ssl false 7 e secured in
    ((r.0.pollout || r.1.driver_send_suppressed) ≡ (
      (e.pollout || secured.driver_send_suppressed)
      || (not true && wants_write secured.last_error)))
    × (r.0.pollin ≡ true)
    × ((not true && wants_read secured.last_error && r.0.pollout) ≡ false)
    × ((true && r.1.driver_send_suppressed) ≡ false)
tls_query-kept_example =
    tls_query-kept test_sys test_ssl false 7 (record { pollin = true; pollout = false }) secured
