-- ===== src/Tests/Records.antt =====
-- A TLS session that keeps what it has taken, one byte a call.
use sockpuppet.Base.{ℕ, zero, suc, ◌≡◌, refl, false, true, List, [], ◌∷◌, ◌++◌, length, take, arith}
use sockpuppet.Base.Int.{ℤ, pos, negsuc}
use sockpuppet.Tls.{no_error, want_write, Call, done, ask_write, Ssl, Tls}
use sockpuppet.Tls.Operations.{tls_send, tls_send_some}
use sockpuppet.Tls.Taken.{Leaves, Writes, SslLaws}
use sockpuppet.Tls.Stream.{Sends, tls_send-Sends}
use sockpuppet.Tests.World.{TestWorld, test_sys, test_stream, start}

abbrev after_record : List ℕ → List ℕ → ℕ → Call (List ℕ) (ℤ × ℕ)
after_record d x zero = done (negsuc 0, 0) x
after_record d x (suc n) = done (pos 1, length (take 1 d)) (x ++ take 1 d)

abbrev write_record : List ℕ → List ℕ → Call (List ℕ) (ℤ × ℕ)
write_record d x = ask_write x d (after_record d x)

abbrev recording_ssl : Ssl
recording_ssl = record {
  Session = List ℕ;
  read = λ n x. done (negsuc 0, []) x;
  write_ex = write_record;
  shutdown = λ x. done (pos 1) x;
  get_error = λ x r. want_write;
  is_init_finished = λ x. true;
}

after_record-Leaves :
    (d x : List ℕ) (n : ℕ) → Leaves (λ r y. Writes x d r y) (λ y. y ≡ x) (after_record d x n)
after_record-Leaves d x zero = refl
after_record-Leaves [] x (suc n) = (omega arith, refl)
after_record-Leaves (b ∷ d) x (suc n) = (omega arith, refl)

recording : SslLaws recording_ssl
recording = record {
  taken = λ x. x;
  read_taken = λ n x. refl;
  write_taken = λ d x. (refl, after_record-Leaves d x);
}

abbrev recorded : Tls (List ℕ) TestWorld
recorded = record {
  session = 9 ∷ [];
  last_error = no_error;
  pending_send = [];
  remaining_time = negsuc 0;
  is_readable = false;
  is_writable = false;
  driver_send_suppressed = false;
  world = start;
}

abbrev text : List ℕ
text = 1 ∷ 2 ∷ 3 ∷ []

tls_send-Sends_example :
    Sends test_sys test_stream recording_ssl recording false 7 text recorded
      (tls_send test_sys recording_ssl false 7 text (pos 5) recorded)
    × Sends test_sys test_stream recording_ssl recording false 7 text recorded
        (tls_send_some test_sys recording_ssl false 7 text recorded)
tls_send-Sends_example =
    tls_send-Sends test_sys test_stream recording_ssl recording false 7 text (pos 5) recorded

-- All three bytes are taken, and behind what was taken before.
text_taken : (tls_send test_sys recording_ssl false 7 text (negsuc 0) recorded).1.session ≡ 9 ∷ text
unfolding tls_send sockpuppet.Socket.send_all
text_taken = refl
