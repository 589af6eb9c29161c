-- ===== src/Tests/Windows.antt =====
-- A socket subsystem that does not start the first time, and a text with a newline at its end.
use sockpuppet.Base.{ℕ, zero, suc, ◌≡◌, refl, err, List, [], ◌∷◌, none, system_error}
use sockpuppet.Base.Int.{pos, negsuc}
use sockpuppet.ErrorCode.{Texts, win32_message, to_unsigned, address_error, message}
use sockpuppet.ErrorCode.Messages.{Formatted, win32_message-Formatted}
use sockpuppet.Tls.Construct.Guard.{Change, construct, destroy}
use sockpuppet.Windows.{Winsock, Process, construct_guard}
use sockpuppet.Windows.Guard.{Stays, failed_start-stuck}

abbrev late : ℕ → ℕ × ℕ
late zero = (10091, 1)
late (suc n) = (0, suc (suc n))

-- The world counts the calls of WSAStartup.
abbrev test_winsock : Winsock
test_winsock = record { World = ℕ; startup = late; cleanup = λ w. w }

abbrev unstarted : Process ℕ
unstarted = record { curr = pos 0; world = 0 }

abbrev changes : List Change
changes = construct ∷ construct ∷ destroy ∷ destroy ∷ construct ∷ []

failed_start-stuck_example :
    ((construct_guard test_winsock unstarted).0
      ≡ err (system_error 10091 "failed to intitialize socket subsystem"))
    × Stays test_winsock changes 0 1 (construct_guard test_winsock unstarted).1
failed_start-stuck_example = failed_start-stuck test_winsock changes 10090 unstarted refl refl tt

abbrev test_texts : Texts
test_texts = record {
  World = ℕ;
  gai_strerror = λ id. b'g' ∷ [];
  reason = λ id. none;
  print_errors = λ w. (((b'a' ∷ []) ∷ (b'b' ∷ []) ∷ []), 0);
  format_message = λ id size. (4, b'n' ∷ b'o' ∷ 13 ∷ 10 ∷ []);
  system_message = λ id. b's' ∷ [];
}

win32_message-Formatted_example :
    Formatted test_texts
      (test_texts.format_message (to_unsigned 32 (negsuc 0)) 256)
      (win32_message test_texts (negsuc 0))
win32_message-Formatted_example = win32_message-Formatted test_texts (negsuc 0)

trimmed : win32_message test_texts (negsuc 0) ≡ b'n' ∷ b'o' ∷ []
unfolding win32_message
trimmed = refl

named : message test_texts (address_error (negsuc 1)) 7 ≡ (b'g' ∷ [], 7)
unfolding message
named = refl
