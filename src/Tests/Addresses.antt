-- ===== src/Tests/Addresses.antt =====
-- Addresses, resolved and written.
use sockpuppet.Base.{ℕ, ◌≡◌, refl, ◌↔◌, ◌≤◌, false, List, [], ◌∷◌, ◌++◌, ok, is_empty}
use sockpuppet.Address.{Address, storage, AddrInfo, Platform}
use sockpuppet.Address.Uri.{dissect, check_service, value}
use sockpuppet.Address.Uri.Dissection.{dissect-scheme_host, check_service-port}

abbrev home : Address
home = storage 2 (127 ∷ 0 ∷ 0 ∷ 1 ∷ [])

abbrev away : Address
away = storage 2 (127 ∷ 0 ∷ 0 ∷ 9 ∷ [])

abbrev long : Address
long = storage 10 (1 ∷ 0 ∷ 0 ∷ 0 ∷ 9 ∷ [])

abbrev pub linux : Platform
linux = record {
  sock_stream = 1;
  sock_dgram = 2;
  ipproto_tcp = 6;
  ipproto_udp = 17;
  af_inet = 2;
  af_inet6 = 10;
}

abbrev pub stream_result : AddrInfo
stream_result = record { socktype = 1; protocol = 6; family = 2; addr = 127 ∷ 1 ∷ [] }

abbrev pub dgram_result : AddrInfo
dgram_result = record { socktype = 2; protocol = 17; family = 2; addr = 127 ∷ 2 ∷ [] }

abbrev local_host : List ℕ
local_host = b'h' ∷ b'o' ∷ b'm' ∷ b'e' ∷ []

abbrev http_port : List ℕ
http_port = b'8' ∷ b'0' ∷ b'8' ∷ b'0' ∷ []

abbrev loopback6 : List ℕ
loopback6 = b':' ∷ b':' ∷ b'1' ∷ []

abbrev http : List ℕ
http = b'h' ∷ b't' ∷ b't' ∷ b'p' ∷ []

dissect-scheme_host_example :
    dissect (http ++ b':' ∷ b'/' ∷ b'/' ∷ (local_host ++ b'/' ∷ b'x' ∷ []))
    ≡ ok (record { host = local_host; serv = http; numericserv = false })
dissect-scheme_host_example =
    dissect-scheme_host http local_host (b'x' ∷ []) refl refl refl refl refl

check_service-port_example :
    check_service http_port ≡ ok tt ↔ (is_empty http_port ≡ false) × (value 0 http_port ≤ 65535)
check_service-port_example = check_service-port http_port refl
