-- ===== src/Tests/Printing.antt =====
-- An IPv6 address printed with buffers of eight bytes for the host and six for the service.
use sockpuppet.Base.{ℕ, ◌≡◌, refl, true, List, [], ◌∷◌, ok, arith}
use sockpuppet.Address.Uri.{dissect}
use sockpuppet.Address.Text.{NameInfo, named, to_string, then_ok}
use sockpuppet.Address.Text.Parts.{c_text}
use sockpuppet.Address.Text.Printed.{NameInfoLaws, joined, to_string-joined}
use sockpuppet.Address.Text.Roundtrip.{dissect-to_string}

abbrev host_buffer : List ℕ
host_buffer = b':' ∷ b':' ∷ b'1' ∷ 0 ∷ 7 ∷ 7 ∷ 7 ∷ 7 ∷ []

abbrev serv_buffer : List ℕ
serv_buffer = b'8' ∷ b'0' ∷ 0 ∷ 0 ∷ 0 ∷ 0 ∷ []

abbrev named_info : NameInfo
named_info = record {
  ni_maxhost = 8;
  ni_maxserv = 6;
  af_inet = 2;
  af_inet6 = 10;
  sa_family = λ view. 10;
  getnameinfo = λ view. named host_buffer serv_buffer;
}

parts :
    (h s : List ℕ)
    → named host_buffer serv_buffer ≡ named h s
    → (h ≡ host_buffer) × (s ≡ serv_buffer)
parts h s e = (cc, cc)

named_info-laws : NameInfoLaws named_info
named_info-laws = record {
  host_length = λ a h s e. rw ((parts h s e).0) refl;
  serv_length = λ a h s e. rw ((parts h s e).1) refl;
  host_ended = λ a h s e. rw ((parts h s e).0) refl;
  serv_ended = λ a h s e. rw ((parts h s e).1) refl;
}

printed : to_string named_info [] ≡ ok (b'[' ∷ b':' ∷ b':' ∷ b'1' ∷ b']' ∷ b':' ∷ b'8' ∷ b'0' ∷ [])
unfolding to_string
printed = refl

to_string-joined_example : to_string named_info [] ≡ joined true (named host_buffer serv_buffer)
to_string-joined_example = to_string-joined named_info [] named_info-laws

dissect-to_string_example :
    then_ok (to_string named_info []) dissect
    ≡ ok (record { host = c_text host_buffer; serv = c_text serv_buffer; numericserv = true })
dissect-to_string_example =
    dissect-to_string named_info [] host_buffer serv_buffer named_info-laws refl (refl, refl)
      (record { some_digit = refl; digits = refl; small = omega arith })
