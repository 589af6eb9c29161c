-- ===== src/Address/Text/Roundtrip.antt =====
-- What src/address_impl.cpp prints of an address it also reads.
use sockpuppet.Base.{ℕ, ◌≤◌, ◌≡◌, ap, ◌∙◌, Bool, true, false, not, List, is_empty, ◌==◌, ok}
use sockpuppet.Address.Uri.{dissect, is_digit, value, all}
use sockpuppet.Address.Uri.Forms.{no_slash, no_colon, begins, is_open, on_line}
use sockpuppet.Address.Uri.Dissection.{dissect-host_port, dissect-bracket_port}
use sockpuppet.Address.Text.{NameInfo, named, to_string, then_ok}
use sockpuppet.Address.Text.Parts.{c_text}
use sockpuppet.Address.Text.Printed.{NameInfoLaws, join, joined, to_string-joined}

-- The digits of a port.
pub record IsPort (serv : List ℕ) : Type 0 where
  pub some_digit : is_empty serv ≡ false
  pub digits : all is_digit serv ≡ true
  pub small : value 0 serv ≤ 65535

-- A host as `getnameinfo` prints it in numbers: without a slash, and of the family AF_INET without a
-- colon or a bracket.
abbrev pub IsNumericHost : Bool → List ℕ → Type 0
IsNumericHost true host = (all no_slash host ≡ true) × (all on_line host ≡ true)
IsNumericHost false host =
    (is_empty host ≡ false)
    × (all no_slash host ≡ true)
    × (all no_colon host ≡ true)
    × (begins is_open host ≡ false)

dissect-join :
    (is_v6 : Bool) (host serv : List ℕ)
    → IsNumericHost is_v6 host
    → IsPort serv
    → dissect (join is_v6 host serv) ≡ ok (record { host = host; serv = serv; numericserv = true })
dissect-join true host serv (s, l) p =
    dissect-bracket_port host serv s l p.some_digit p.digits p.small
dissect-join false host serv (n, s, c, b) p =
    dissect-host_port host serv n s c b p.some_digit p.digits p.small

-- The text of an address, printed and taken apart again, gives the host and the service that
-- `getnameinfo` has named, with the numeric service flag, for IPv4 and for IPv6 addresses, if the host is a numeric one and
-- the service the digits of a port.
pub dissect-to_string :
    (info : NameInfo) (view h s : List ℕ)
    → NameInfoLaws info
    → info.getnameinfo view ≡ named h s
    → IsNumericHost (not (info.sa_family view == info.af_inet)) (c_text h)
    → IsPort (c_text s)
    → then_ok (to_string info view) dissect
      ≡ ok (record { host = c_text h; serv = c_text s; numericserv = true })
dissect-to_string info view h s laws e n p =
    let is_v6 = not (info.sa_family view == info.af_inet) in
    ap (λ r. then_ok r dissect) (to_string-joined info view laws ∙ ap (joined is_v6) e)
    ∙ dissect-join is_v6 (c_text h) (c_text s) n p
