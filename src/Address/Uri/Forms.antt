-- ===== src/Address/Uri/Forms.antt =====
-- The regular expressions of src/address_impl.cpp on text put together from its parts.
use sockpuppet.Base.{
  ℕ, ◌-◌, ◌≤◌, ◌<◌, ◌≡◌, refl, ap, sym, ◌∙◌, inl, inr, Bool, true, false, not, ◌&&◌, List, [], ◌∷◌,
  ◌++◌, append_assoc, append-nil, is_empty, none, some, ltb, ◌==◌, ok, arith, Bool-cases, ◌^◌,
}
use mathlib.Core.List.{reverse, reverse-append, reverse-reverse, reverse-cons}
use sockpuppet.Address.Uri.{
  is_digit, is_word, is_newline, all, span, value, check_service, starts_host, host_part,
  port_bracket, port_plain, dissect_host, dissect, bracket_inner, bracket_split,
}

abbrev pub no_slash : ℕ → Bool
no_slash c = not (c == b'/')

abbrev pub no_colon : ℕ → Bool
no_colon c = not (c == b':')

abbrev pub on_line : ℕ → Bool
on_line c = not (is_newline c)

abbrev pub begins : (ℕ → Bool) → List ℕ → Bool
begins p [] = false
begins p (c ∷ cs) = p c

-- The front part ends where a byte fails the test, or with the text.
pub span-append :
    (p : ℕ → Bool) (xs ys : List ℕ)
    → all p xs ≡ true
    → begins p ys ≡ false
    → span p (xs ++ ys) ≡ (xs, ys)
unfolding span
span-append p [] [] a b = refl
span-append p [] (y ∷ ys) a b = rw b
span-append p (x ∷ xs) ys a b =
    let e : p x ≡ true = ground arith in rw (e, span-append p xs ys (ground arith) b)

pub all-append : (p : ℕ → Bool) (xs ys : List ℕ) → all p (xs ++ ys) ≡ (all p xs && all p ys)
all-append p [] ys = refl
all-append p (x ∷ xs) ys = ground (arith, all-append p xs ys)

pub all-reverse : (p : ℕ → Bool) (xs : List ℕ) → all p (reverse xs) ≡ all p xs
all-reverse p [] = refl
all-reverse p (x ∷ xs) =
    rw (reverse-cons x xs) (ground (arith, all-append p (reverse xs) (x ∷ []), all-reverse p xs))

-- Digits are no slashes, colons or line ends.
pub digit_facts :
    (c : ℕ) → is_digit c ≡ true → (no_slash c ≡ true) × (no_colon c ≡ true) × (is_word c ≡ true)
digit_facts c h = ground arith

pub all_digits-no_slash : (xs : List ℕ) → all is_digit xs ≡ true → all no_slash xs ≡ true
all_digits-no_slash [] h = refl
all_digits-no_slash (x ∷ xs) h = ground (arith, digit_facts x, all_digits-no_slash xs)

-- What passes a test as a whole passes it in the rest that is left.
pub span-rest : (q p : ℕ → Bool) (xs : List ℕ) → all q xs ≡ true → all q (span p xs).1 ≡ true
unfolding span
span-rest q p [] h = refl
span-rest q p (x ∷ xs) h = elim (Bool-cases (p x)) [
  | inl e ↦ rw e (span-rest q p xs (ground arith))
  | inr e ↦ rw e h
]

pub starts_host-no_slash : (xs : List ℕ) → all no_slash xs ≡ true → starts_host xs ≡ none
starts_host-no_slash [] h = refl
starts_host-no_slash (a ∷ []) h = refl
starts_host-no_slash (a ∷ b ∷ []) h = refl
starts_host-no_slash (a ∷ b ∷ c ∷ xs) h = ground arith

pub host_part-no_slash :
    (text : List ℕ) → is_empty text ≡ false → all no_slash text ≡ true → host_part text ≡ some text
unfolding host_part
host_part-no_slash text n a =
    let e : span no_slash text ≡ (text, []) =
      ap (span no_slash) (sym (append-nil text)) ∙ span-append no_slash text [] a refl in
    rw (e, n)

pub host_part-path :
    (text path : List ℕ)
    → is_empty text ≡ false
    → all no_slash text ≡ true
    → all on_line path ≡ true
    → host_part (text ++ b'/' ∷ path) ≡ some text
unfolding host_part
host_part-path text path n a l = rw (span-append no_slash text (b'/' ∷ path) a refl, n, l)

-- With no slash in it the whole text is the host part, with no service.
pub dissect-no_slash :
    (text : List ℕ)
    → is_empty text ≡ false
    → all no_slash text ≡ true
    → dissect text ≡ dissect_host [] text
unfolding dissect
dissect-no_slash text n a = rw (
  starts_host-no_slash (span is_word text).1 (span-rest no_slash is_word text a),
  host_part-no_slash text n a,
)

pub dissect-scheme :
    (word text path : List ℕ)
    → all is_word word ≡ true
    → is_empty text ≡ false
    → all no_slash text ≡ true
    → all on_line path ≡ true
    → dissect (word ++ b':' ∷ b'/' ∷ b'/' ∷ (text ++ b'/' ∷ path)) ≡ dissect_host word text
unfolding dissect
dissect-scheme word text path w n a l =
    let e : host_part (text ++ b'/' ∷ path) ≡ some text = host_part-path text path n a l in
    rw (span-append is_word word (b':' ∷ b'/' ∷ b'/' ∷ (text ++ b'/' ∷ path)) w refl, e)

pub begins-reverse :
    (c : ℕ) (rest : List ℕ) (p : ℕ → Bool)
    → begins p (reverse (c ∷ rest)) ≡ false
    → begins p (reverse rest) ≡ false
begins-reverse c rest p h = inner (reverse rest) (rw (reverse-cons c rest) at h)
  where
    inner : (l : List ℕ) → begins p (l ++ c ∷ []) ≡ false → begins p l ≡ false
    inner [] h' = refl
    inner (x ∷ l) h' = h'

abbrev pub is_open : ℕ → Bool
is_open c = c == b'['

pub bracket_inner_closed :
    (port l : List ℕ) → begins is_open l ≡ false → bracket_inner port l ≡ none
bracket_inner_closed port [] h = refl
bracket_inner_closed port (c ∷ l) h = ground arith

pub bracket_split-unopened :
    (port : List ℕ) (c : ℕ) (rest : List ℕ)
    → begins is_open (reverse rest) ≡ false
    → bracket_split port (c ∷ rest) ≡ none
bracket_split-unopened port c [] h = refl
bracket_split-unopened port c (d ∷ rest) h =
    ground
      (arith, bracket_inner_closed (reverse port) (reverse rest) (begins-reverse d rest is_open h))

pub bracket_split-no_colon :
    (port rest : List ℕ) → all no_colon rest ≡ true → bracket_split port rest ≡ none
bracket_split-no_colon port [] h = refl
bracket_split-no_colon port (c ∷ []) h = refl
bracket_split-no_colon port (c ∷ d ∷ rest) h = ground arith

pub reverse_port :
    (host port : List ℕ) (c : ℕ) → reverse (host ++ c ∷ port) ≡ reverse port ++ c ∷ reverse host
reverse_port host port c =
    reverse-append host (c ∷ port)
    ∙ (ap (λ l. l ++ reverse host) (reverse-cons c port)
        ∙ append_assoc (reverse port) (c ∷ []) (reverse host))

pub port_plain-split :
    (host port : List ℕ)
    → is_empty host ≡ false
    → all no_colon host ≡ true
    → is_empty port ≡ false
    → all is_digit port ≡ true
    → port_plain (host ++ b':' ∷ port) ≡ some (host, port)
unfolding port_plain
port_plain-split host port n c m d = rw (span-append no_colon host (b':' ∷ port) c refl, n, m, d)

pub port_bracket-unopened :
    (host port : List ℕ)
    → all is_digit port ≡ true
    → begins is_open host ≡ false
    → port_bracket (host ++ b':' ∷ port) ≡ none
unfolding port_bracket
port_bracket-unopened host port d h =
    let back : all is_digit (reverse port) ≡ true = all-reverse is_digit port ∙ d in
    let e : span is_digit (reverse port ++ b':' ∷ reverse host)
        ≡ (reverse port, b':' ∷ reverse host) =
      span-append is_digit (reverse port) (b':' ∷ reverse host) back refl in
    rw (reverse_port host port b':', e)
      (bracket_split-unopened (reverse port) b':' (reverse host)
        (ap (begins is_open) (reverse-reverse host) ∙ h))

pub port_bracket-closed :
    (inner port : List ℕ)
    → all on_line inner ≡ true
    → is_empty port ≡ false
    → all is_digit port ≡ true
    → port_bracket ((b'[' ∷ inner ++ b']' ∷ []) ++ b':' ∷ port) ≡ some (inner, port)
unfolding port_bracket
port_bracket-closed inner port l n d =
    let back : all is_digit (reverse port) ≡ true = all-reverse is_digit port ∙ d in
    let opened : reverse (b'[' ∷ inner ++ b']' ∷ []) ≡ b']' ∷ (reverse inner ++ b'[' ∷ []) =
      reverse-append (b'[' ∷ inner) (b']' ∷ []) ∙ ap (λ x. b']' ∷ x) (reverse-cons b'[' inner) in
    let shut : reverse (reverse inner ++ b'[' ∷ []) ≡ b'[' ∷ inner =
      reverse-append (reverse inner) (b'[' ∷ []) ∙ ap (λ x. b'[' ∷ x) (reverse-reverse inner) in
    let e : span is_digit (reverse port ++ b':' ∷ reverse (b'[' ∷ inner ++ b']' ∷ []))
        ≡ (reverse port, b':' ∷ reverse (b'[' ∷ inner ++ b']' ∷ [])) =
      span-append is_digit (reverse port) _ back refl in
    rw (
      reverse_port (b'[' ∷ inner ++ b']' ∷ []) port b':',
      e,
      opened,
      shut,
      reverse-reverse port,
      l,
      reverse_nonempty port n,
    )
  where
    reverse_nonempty : (p : List ℕ) → is_empty p ≡ false → is_empty (reverse p) ≡ false
    reverse_nonempty [] h = h
    reverse_nonempty (x ∷ p) h = rw (reverse-cons x p) (snoc (reverse p))
      where
        snoc : (q : List ℕ) → is_empty (q ++ x ∷ []) ≡ false
        snoc [] = refl
        snoc (y ∷ q) = refl

pub check_service-digits :
    (port : List ℕ)
    → is_empty port ≡ false
    → all is_digit port ≡ true
    → value 0 port ≤ 65535
    → check_service port ≡ ok tt
unfolding check_service
check_service-digits [] n d b = cc
check_service-digits (c ∷ port) n d b =
    let nc : (c == b'-') ≡ false = ground arith in
    let big : ltb (2 ^ 63 - 1) (value 0 (c ∷ port)) ≡ false = ground arith in
    let small : ltb 65535 (value 0 (c ∷ port)) ≡ false = ground arith in rw (nc, big, small)

pub check_service-large :
    (port : List ℕ) → all is_digit port ≡ true → 65535 < value 0 port → ¬ check_service port ≡ ok tt
unfolding check_service
check_service-large [] d b = omega arith
check_service-large (c ∷ port) d b =
    let nc : (c == b'-') ≡ false = ground arith in
    let large : ltb 65535 (value 0 (c ∷ port)) ≡ true = ground arith in
    rw (nc, large) (ground arith)
