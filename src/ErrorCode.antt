-- ===== src/ErrorCode.antt =====
-- Error codes and their texts: src/error_code.cpp, src/error_code_unix.cpp, src/error_code_tls.cpp and
-- src/error_code_win.cpp. Texts are lists of characters.
pub mod Messages
use sockpuppet.Base.{
  ℕ, zero, suc, ◌+◌, ◌-◌, ◌%◌, ◌^◌, ◌==◌, Bool, true, false, ◌||◌, not, ◌&&◌, List, [], ◌∷◌, ◌++◌,
  length, take, replicate, is_empty, if◌then◌else◌, Option, none, some, String,
}
use sockpuppet.Base.Int.{ℤ, pos, negsuc}

-- The categories that `std::error_code` refers to; `system` is `std::system_category()`.
pub data Category : Type 0 where
  gai openssl win32 system : Category

-- The names of the categories of the library; that of `std::system_category()` is a parameter.
unfoldable pub category_name : String → Category → String
category_name system_name gai = "GetAddrInfoError"
category_name system_name openssl = "OpenSSLError"
category_name system_name win32 = "Win32Error"
category_name system_name system = system_name

pub record ErrorCode : Type 0 where
  pub value : ℤ
  pub category : Category

abbrev pub address_error : ℤ → ErrorCode
address_error code = record { value = code; category = gai }

abbrev pub ssl_error : ℤ → ErrorCode
ssl_error code = record { value = code; category = openssl }

-- `SocketError` with and without Windows; without an argument it is called with the last error.
abbrev pub socket_error : Bool → ℤ → ErrorCode
socket_error is_windows code = record {
  value = code;
  category = if is_windows then win32 else system;
}

-- `static_cast` to an unsigned integer of `w` bits, from an int.
unfoldable pub to_unsigned : ℕ → ℤ → ℕ
to_unsigned w (pos n) = n % 2 ^ w
to_unsigned w (negsuc n) = (2 ^ w - 1) - n % 2 ^ w

-- The texts that the system and the TLS library know, parameters: `gai_strerror`; the reason of a code,
-- if there is one; the lines that `ERR_print_errors_cb` passes to its call back, which empties the queue
-- of errors; `FormatMessage`, which returns the number of characters that it has put into a buffer of a
-- given size, or zero; and the texts of `std::system_category()`.
pub record Texts : Type 1 where
  pub World : Type 0
  pub gai_strerror : ℤ → List ℕ
  pub reason : ℕ → Option (List ℕ)
  pub print_errors : World → List (List ℕ) × World
  pub format_message : ℕ → ℕ → ℕ × List ℕ
  pub system_message : ℤ → List ℕ

abbrev pub is_newline : ℕ → Bool
is_newline c = c == 13 || c == 10

abbrev pub ends_in_newline : List ℕ → Bool
ends_in_newline [] = false
ends_in_newline (c ∷ []) = is_newline c
ends_in_newline (c ∷ d ∷ m) = ends_in_newline (d ∷ m)

abbrev pub pop_back : List ℕ → List ℕ
pop_back [] = []
pop_back (c ∷ []) = []
pop_back (c ∷ d ∷ m) = c ∷ pop_back (d ∷ m)

-- The loop that trims the trailing newline, with as many rounds as there are characters at most.
unfoldable pub trim_loop : ℕ → List ℕ → List ℕ
trim_loop zero m = m
trim_loop (suc fuel) m = elim (ends_in_newline m) [ true ↦ trim_loop fuel (pop_back m) | false ↦ m ]

unfoldable pub trim : List ℕ → List ℕ
unfolding trim_loop
trim m = trim_loop (length m) m

abbrev pub concat : List (List ℕ) → List ℕ
concat [] = []
concat (l ∷ ls) = l ++ concat ls

-- "Unknown error"
abbrev pub unknown_error : List ℕ
unknown_error =
    b'U' ∷ b'n' ∷ b'k' ∷ b'n' ∷ b'o' ∷ b'w' ∷ b'n' ∷ b' ' ∷ b'e' ∷ b'r' ∷ b'r' ∷ b'o' ∷ b'r' ∷ []

-- `message(256U, '\0')` with what has been written to its front.
abbrev pub message_buffer : List ℕ → List ℕ
message_buffer written = take 256 (written ++ replicate (256 - length written) 0)

module _ (texts : Texts) where
  open texts use {World}

  unfoldable pub gai_message : ℤ → List ℕ
  gai_message id = texts.gai_strerror id

  unfoldable pub ssl_message : ℤ → World → List ℕ × World
  ssl_message id w = elim (texts.reason (to_unsigned 64 id)) [
    | some reason ↦ (reason, w)
    | none ↦ let (lines, w') = texts.print_errors w in (concat lines, w')
  ]

  abbrev pub formatted : ℕ × List ℕ → List ℕ
  formatted (zero, written) = unknown_error
  formatted (suc len, written) = trim (take (suc len) (message_buffer written))

  unfoldable pub win32_message : ℤ → List ℕ
  unfolding trim
  win32_message id = formatted (texts.format_message (to_unsigned 32 id) 256)

  -- The virtual `message` of the category of a code.
  unfoldable pub message : ErrorCode → World → List ℕ × World
  unfolding gai_message ssl_message win32_message
  message e w = elim e.category [
    | gai ↦ (gai_message e.value, w)
    | openssl ↦ ssl_message e.value w
    | win32 ↦ (win32_message e.value, w)
    | system ↦ (texts.system_message e.value, w)
  ]
