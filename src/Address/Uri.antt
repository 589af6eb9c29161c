-- ===== src/Address/Uri.antt =====
-- The text of addresses in src/address_impl.cpp: the service checks, `UriDissect`, and what `ParseUri`,
-- `ParseHostServ` and `ParsePort` hand to `getaddrinfo`. Text is a list of ASCII bytes; the regular
-- expressions are the functions that decide them.
pub mod Forms
pub mod Dissection
use sockpuppet.Base.{
  ℕ, zero, suc, ◌+◌, ◌-◌, ◌*◌, ◌^◌, Bool, true, false, not, ◌&&◌, ◌||◌, List, [], ◌∷◌, ◌++◌, length,
  drop, is_empty, Option, none, some, ltb, leb, ◌==◌, if◌then◌else◌, Result, ok, err, Error,
  runtime_error, logic_error, invalid_argument, system_error,
}
use mathlib.Core.List.{reverse}

abbrev pub is_digit : ℕ → Bool
is_digit c = leb b'0' c && leb c b'9'

-- `\w`
abbrev pub is_word : ℕ → Bool
is_word c = is_digit c || (leb b'a' c && leb c b'z') || (leb b'A' c && leb c b'Z') || (c == b'_')

-- What `.` does not match.
abbrev pub is_newline : ℕ → Bool
is_newline c = c == 10 || c == 13

abbrev pub all : (ℕ → Bool) → List ℕ → Bool
all p [] = true
all p (c ∷ cs) = p c && all p cs

-- The longest front part of which every byte passes the test, and the rest.
unfoldable pub span : (ℕ → Bool) → List ℕ → List ℕ × List ℕ
span p [] = ([], [])
span p (c ∷ cs) = if p c then (let r = span p cs in (c ∷ r.0, r.1)) else ([], c ∷ cs)

abbrev pub value : ℕ → List ℕ → ℕ
value acc [] = acc
value acc (c ∷ cs) = value (acc * 10 + (c - b'0')) cs

abbrev pub strip_minus : List ℕ → List ℕ
strip_minus [] = []
strip_minus (c ∷ cs) = if c == b'-' then cs else c ∷ cs

abbrev pub has_minus : List ℕ → Bool
has_minus [] = false
has_minus (c ∷ cs) = c == b'-'

unfoldable pub is_service_numeric : List ℕ → Bool
is_service_numeric serv = not (is_empty (strip_minus serv)) && all is_digit (strip_minus serv)

-- `std::stoll` on a numeric service, and the range of a port; what `stoll` throws is a logic error, also
-- when there is no digit.
unfoldable pub check_service : List ℕ → Result (Unit {0})
check_service serv =
    let n = value 0 (strip_minus serv) in
    if is_empty (strip_minus serv)
    then err (invalid_argument "stoll")
    else if has_minus serv
    then (if ltb (2 ^ 63) n
        then err (logic_error "stoll")
        else (if ltb 0 n then err (runtime_error "numeric service out of range") else ok tt))
    else (if ltb (2 ^ 63 - 1) n
        then err (logic_error "stoll")
        else (if ltb 65535 n then err (runtime_error "numeric service out of range") else ok tt))

pub record UriDissect : Type 0 where
  pub host : List ℕ
  pub serv : List ℕ
  pub numericserv : Bool

abbrev pub starts_host : List ℕ → Option (List ℕ)
starts_host (b0 ∷ b1 ∷ b2 ∷ rest) =
    if b0 == b':' && (b1 == b'/' && b2 == b'/') then some rest else none
starts_host _ = none

abbrev pub drop_slash : List ℕ → List ℕ
drop_slash [] = []
drop_slash (c ∷ cs) = if c == b'/' then cs else c ∷ cs

-- `([^/]+)/?.*$`
unfoldable pub host_part : List ℕ → Option (List ℕ)
unfolding span
host_part text =
    let (host, rest) = span (λ c. not (c == b'/')) text in
    if not (is_empty host) && all (λ c. not (is_newline c)) (drop_slash rest)
    then some host
    else none

abbrev pub bracket_inner : List ℕ → List ℕ → Option (List ℕ × List ℕ)
bracket_inner port [] = none
bracket_inner port (c ∷ inner) =
    if c == b'[' && all (λ d. not (is_newline d)) inner then some (inner, port) else none

abbrev pub bracket_split : List ℕ → List ℕ → Option (List ℕ × List ℕ)
bracket_split port (c0 ∷ c1 ∷ rest) =
    if not (is_empty port) && (c0 == b':' && c1 == b']')
    then bracket_inner (reverse port) (reverse rest)
    else none
bracket_split port _ = none

-- `^\[(.*)\]:(\d+$)`, read from the end.
unfoldable pub port_bracket : List ℕ → Option (List ℕ × List ℕ)
unfolding span
port_bracket text = let (port, rest) = span is_digit (reverse text) in bracket_split port rest

abbrev pub port_split : List ℕ → List ℕ → Option (List ℕ × List ℕ)
port_split host [] = none
port_split host (c ∷ port) =
    if not (is_empty host) && (not (is_empty port) && all is_digit port)
    then some (host, port)
    else none

-- `(^[^:]+):(\d+$)`
unfoldable pub port_plain : List ℕ → Option (List ℕ × List ℕ)
unfolding span
port_plain text = let (host, rest) = span (λ c. not (c == b':')) text in port_split host rest

abbrev pub or_else {ℓ} : {A : Type ℓ} → Option A → Option A → Option A
or_else (some a) b = some a
or_else none b = b

abbrev pub checked : Result (Unit {0}) → UriDissect → Result UriDissect
checked (ok _) d = ok d
checked (err e) d = err e

abbrev pub with_port : List ℕ → List ℕ → Option (List ℕ × List ℕ) → Result UriDissect
with_port serv text none = ok (record { host = text; serv = serv; numericserv = false })
with_port serv text (some (host, port)) =
    checked (check_service port) (record { host = host; serv = port; numericserv = true })

unfoldable pub dissect_host : List ℕ → List ℕ → Result UriDissect
unfolding port_bracket port_plain check_service
dissect_host serv text = with_port serv text (or_else (port_bracket text) (port_plain text))

abbrev pub with_scheme : List ℕ → Option (List ℕ) → Option (List ℕ)
with_scheme word none = none
with_scheme word (some rest) = host_part rest

abbrev pub without_scheme : Option (List ℕ) → Result UriDissect
without_scheme none = err (logic_error "unexpected regex non-match")
without_scheme (some text) = dissect_host [] text

abbrev pub choose : List ℕ → Option (List ℕ) → Option (List ℕ) → Result UriDissect
choose word (some text) other = dissect_host word text
choose word none other = without_scheme other

-- The constructor of `UriDissect`.
unfoldable pub dissect : List ℕ → Result UriDissect
unfolding span host_part dissect_host
dissect uri =
    let (word, rest) = span is_word uri in
    choose word (with_scheme word (starts_host rest)) (host_part uri)

-- What `getaddrinfo` is asked: host, service, whether the family is forced to IPv4 and whether the
-- service has to be numeric; it answers with an error code or with what it has found.
pub record Query : Type 0 where
  pub host : List ℕ
  pub serv : List ℕ
  pub inet_only : Bool
  pub numericserv : Bool

module _ {Info : Type 0} (lookup : Query → ℕ × Info) where
  abbrev pub ask : sockpuppet.Base.String → Query → Result Info
  ask message q =
      let (code, found) = lookup q in
      if code == 0 then ok found else err (system_error code message)

  abbrev parse_dissected : Result UriDissect → Result Info
  parse_dissected (err e) = err e
  parse_dissected (ok d) =
      ask "failed to parse address"
        (record { host = d.host; serv = d.serv; inet_only = false; numericserv = d.numericserv })

  unfoldable pub parse_uri : List ℕ → Result Info
  unfolding dissect
  parse_uri uri =
      if is_empty uri then err (invalid_argument "empty uri") else parse_dissected (dissect uri)

  abbrev parse_checked : List ℕ → List ℕ → Result (Unit {0}) → Result Info
  parse_checked host serv (err e) = err e
  parse_checked host serv (ok _) =
      ask "failed to parse host/port"
        (record { host = host; serv = serv; inet_only = false; numericserv = false })

  unfoldable pub parse_host_serv : List ℕ → List ℕ → Result Info
  unfolding is_service_numeric check_service
  parse_host_serv host serv =
      if is_empty host
      then err (invalid_argument "empty host")
      else (if is_empty serv
          then err (invalid_argument "empty service")
          else parse_checked host serv
              (if is_service_numeric serv then check_service serv else ok tt))

  -- `ParsePort`; `std::to_string` is a parameter.
  unfoldable pub parse_port : (ℕ → List ℕ) → ℕ → Result Info
  parse_port to_string port = ask "failed to parse port" (record {
    host = b'l' ∷ b'o' ∷ b'c' ∷ b'a' ∷ b'l' ∷ b'h' ∷ b'o' ∷ b's' ∷ b't' ∷ [];
    serv = to_string port;
    inet_only = true;
    numericserv = true;
  })
