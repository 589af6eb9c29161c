-- ===== src/Address/Uri/Dissection.antt =====
-- What the regular expressions of src/address_impl.cpp take the forms of an address apart into.
use sockpuppet.Base.{
  ℕ, ◌↔◌, ◌≤◌, ◌≡◌, refl, ap, sym, ◌∙◌, inl, inr, true, false, List, [], ◌∷◌, ◌++◌, append-nil,
  is_empty, ltb, ok, arith, Bool-cases,
}
use mathlib.Core.List.{reverse}
use sockpuppet.Address.Uri.{
  is_digit, is_word, all, span, value, check_service, port_bracket, port_plain, dissect_host,
  dissect,
}
use sockpuppet.Address.Uri.Forms.{
  no_slash, no_colon, on_line, begins, span-append, all-append, all-reverse, all_digits-no_slash,
  span-rest, dissect-no_slash, dissect-scheme, is_open, bracket_split-no_colon, port_plain-split,
  port_bracket-unopened, port_bracket-closed, check_service-digits, check_service-large,
}

check_service-nonempty : (port : List ℕ) → check_service port ≡ ok tt → is_empty port ≡ false
unfolding check_service
check_service-nonempty [] e = cc
check_service-nonempty (c ∷ port) e = refl

-- A text of digits passes the check exactly when it has a digit and the number it writes is at most
-- 65535, however many digits it has.
pub check_service-port :
    (port : List ℕ)
    → all is_digit port ≡ true
    → check_service port ≡ ok tt ↔ (is_empty port ≡ false) × (value 0 port ≤ 65535)
check_service-port port d = (fwd, λ h. check_service-digits port h.0 d h.1)
  where
    fwd : check_service port ≡ ok tt → (is_empty port ≡ false) × (value 0 port ≤ 65535)
    fwd e = elim (Bool-cases (ltb 65535 (value 0 port))) [
      | inl large ↦ elim (check_service-large port d (ground arith) e) [ ]
      | inr small ↦ (check_service-nonempty port e, ground arith)
    ]

dissect_host-port :
    (word host port : List ℕ)
    → is_empty host ≡ false
    → all no_colon host ≡ true
    → begins is_open host ≡ false
    → is_empty port ≡ false
    → all is_digit port ≡ true
    → value 0 port ≤ 65535
    → dissect_host word (host ++ b':' ∷ port)
      ≡ ok (record { host = host; serv = port; numericserv = true })
unfolding dissect_host
dissect_host-port word host port n c o m d b = rw (
  port_bracket-unopened host port d o,
  port_plain-split host port n c m d,
  check_service-digits port m d b,
)

dissect_host-bracket :
    (word inner port : List ℕ)
    → all on_line inner ≡ true
    → is_empty port ≡ false
    → all is_digit port ≡ true
    → value 0 port ≤ 65535
    → dissect_host word ((b'[' ∷ inner ++ b']' ∷ []) ++ b':' ∷ port)
      ≡ ok (record { host = inner; serv = port; numericserv = true })
unfolding dissect_host
dissect_host-bracket word inner port l m d b =
    rw (port_bracket-closed inner port l m d, check_service-digits port m d b)

dissect_host-plain :
    (word host : List ℕ)
    → all no_colon host ≡ true
    → dissect_host word host ≡ ok (record { host = host; serv = word; numericserv = false })
unfolding dissect_host port_bracket port_plain
dissect_host-plain word host c =
    let e : span no_colon host ≡ (host, []) =
      ap (span no_colon) (sym (append-nil host)) ∙ span-append no_colon host [] c refl in
    let back : all no_colon (span is_digit (reverse host)).1 ≡ true =
      span-rest no_colon is_digit (reverse host) (all-reverse no_colon host ∙ c) in
    rw (
      e,
      bracket_split-no_colon (span is_digit (reverse host)).0 (span is_digit (reverse host)).1 back,
    )

joined :
    (host port : List ℕ)
    → is_empty host ≡ false
    → all no_slash host ≡ true
    → all is_digit port ≡ true
    → (is_empty (host ++ b':' ∷ port) ≡ false) × (all no_slash (host ++ b':' ∷ port) ≡ true)
joined host port n s d = (
  nonempty host,
  all-append no_slash host (b':' ∷ port) ∙ ground (arith, all_digits-no_slash port d),
)
  where
    nonempty : (l : List ℕ) → is_empty (l ++ b':' ∷ port) ≡ false
    nonempty [] = refl
    nonempty (x ∷ l) = refl

-- Text of the form `host:port`, where the host is not empty, has no slash and no colon and does not
-- start with a bracket and the port is digits of a number up to 65535, is taken apart into exactly
-- that host and that port, with the numeric service flag.
pub dissect-host_port :
    (host port : List ℕ)
    → is_empty host ≡ false
    → all no_slash host ≡ true
    → all no_colon host ≡ true
    → begins is_open host ≡ false
    → is_empty port ≡ false
    → all is_digit port ≡ true
    → value 0 port ≤ 65535
    → dissect (host ++ b':' ∷ port) ≡ ok (record { host = host; serv = port; numericserv = true })
dissect-host_port host port n s c o m d b =
    let j = joined host port n s d in
    dissect-no_slash (host ++ b':' ∷ port) j.0 j.1 ∙ dissect_host-port [] host port n c o m d b

-- Text of the form `[inner]:port`, as an IPv6 address is written, where the inner part has no slash
-- and no line end and the port is digits of a number up to 65535, is taken apart into the inner
-- part, its brackets gone and its colons kept, and that port, with the numeric service flag.
pub dissect-bracket_port :
    (inner port : List ℕ)
    → all no_slash inner ≡ true
    → all on_line inner ≡ true
    → is_empty port ≡ false
    → all is_digit port ≡ true
    → value 0 port ≤ 65535
    → dissect ((b'[' ∷ inner ++ b']' ∷ []) ++ b':' ∷ port)
      ≡ ok (record { host = inner; serv = port; numericserv = true })
dissect-bracket_port inner port s l m d b =
    let j =
      joined (b'[' ∷ inner ++ b']' ∷ []) port refl
        (ground (arith, all-append no_slash inner (b']' ∷ []))) d in
    dissect-no_slash ((b'[' ∷ inner ++ b']' ∷ []) ++ b':' ∷ port) j.0 j.1
    ∙ dissect_host-bracket [] inner port l m d b

-- Of a URI `word://host/path`, where the word is word characters, the host is not empty and has no
-- slash and no colon, and the path has no line end, exactly the host and, as the service, the word
-- are kept: the path is dropped, and the service is not flagged as numeric.
pub dissect-scheme_host :
    (word host path : List ℕ)
    → all is_word word ≡ true
    → is_empty host ≡ false
    → all no_slash host ≡ true
    → all no_colon host ≡ true
    → all on_line path ≡ true
    → dissect (word ++ b':' ∷ b'/' ∷ b'/' ∷ (host ++ b'/' ∷ path))
      ≡ ok (record { host = host; serv = word; numericserv = false })
dissect-scheme_host word host path w n s c l =
    dissect-scheme word host path w n s l ∙ dissect_host-plain word host c
