-- ===== src/Address.antt =====
-- src/address_impl.{h,cpp}, src/address.cpp and src/address_impl_unix.cpp: resolved and stored socket
-- addresses, their order, and their text. A socket address is its bytes, as many as `addrLen` says.
pub mod Order
pub mod Resolve
pub mod Uri
pub mod Text
use sockpuppet.Base.{
  ℕ, zero, suc, ◌+◌, ◌*◌, Bool, true, false, not, ◌&&◌, ◌||◌, List, [], ◌∷◌, length, Option, none,
  some, ltb, ◌==◌, if◌then◌else◌, Result, ok, err, logic_error, get_elem?, String,
}

-- The sign of the result of `std::memcmp` on the first `n` bytes.
pub data Sign : Type 0 where
  minus same plus : Sign

unfoldable pub memcmp : List ℕ → List ℕ → ℕ → Sign
memcmp a b zero = same
memcmp (x ∷ a) (y ∷ b) (suc n) = if ltb x y then minus else (if ltb y x then plus else memcmp a b n)
memcmp [] b (suc n) = same
memcmp (x ∷ a) [] (suc n) = same

abbrev is_minus : Sign → Bool
is_minus minus = true
is_minus _ = false

abbrev is_same : Sign → Bool
is_same same = true
is_same _ = false

-- The operators of `SockAddrView`, which those of `Address` pass on to.
unfoldable pub lt_view : List ℕ → List ℕ → Bool
unfolding memcmp
lt_view a b =
    if ltb (length a) (length b)
    then true
    else (if ltb (length b) (length a) then false else is_minus (memcmp a b (length a)))

unfoldable pub eq_view : List ℕ → List ℕ → Bool
unfolding memcmp
eq_view a b = (length a == length b) && is_same (memcmp a b (length a))

unfoldable pub ne_view : List ℕ → List ℕ → Bool
unfolding eq_view
ne_view a b = not (eq_view a b)

-- One result of `getaddrinfo`.
pub record AddrInfo : Type 0 where
  pub socktype : ℕ
  pub protocol : ℕ
  pub family : ℕ
  pub addr : List ℕ

-- `SockAddrInfo`, the results of a look-up of which there is at least one, or `SockAddrStorage`.
pub data Address : Type 0 where
  info : AddrInfo → List AddrInfo → Address
  storage : (family : ℕ) → List ℕ → Address

-- Constants of the platform.
pub record Platform : Type 0 where
  pub sock_stream : ℕ
  pub sock_dgram : ℕ
  pub ipproto_tcp : ℕ
  pub ipproto_udp : ℕ
  pub af_inet : ℕ
  pub af_inet6 : ℕ

abbrev pub suits : ℕ → ℕ → AddrInfo → Bool
suits type protocol it =
    (it.socktype == 0 || it.socktype == type) && (it.protocol == 0 || it.protocol == protocol)

unfoldable pub find : ℕ → ℕ → List AddrInfo → Option AddrInfo
find type protocol [] = none
find type protocol (it ∷ next) = if suits type protocol it then some it else find type protocol next

abbrev pub or_invalid : String → Option AddrInfo → Result (List ℕ)
or_invalid message none = err (logic_error message)
or_invalid message (some it) = ok it.addr

-- The local interfaces: their flags' loopback bit, and the family and the bytes behind `ifa_addr`,
-- if that is no null pointer.
pub record IfAddr : Type 0 where
  pub is_loopback : Bool
  pub addr : Option (ℕ × List ℕ)

module _ (platform : Platform) where
  open platform use {sock_stream, sock_dgram, ipproto_tcp, ipproto_udp, af_inet, af_inet6}

  unfoldable pub for_tcp : Address → Result (List ℕ)
  unfolding find
  for_tcp (info it next) =
      or_invalid "address is not valid for TCP" (find sock_stream ipproto_tcp (it ∷ next))
  for_tcp (storage family bytes) = ok bytes

  unfoldable pub for_udp : Address → Result (List ℕ)
  unfolding find
  for_udp (info it next) =
      or_invalid "address is not valid for UDP" (find sock_dgram ipproto_udp (it ∷ next))
  for_udp (storage family bytes) = ok bytes

  abbrev from_interface : Bool → Option (ℕ × List ℕ) → List Address → List Address
  from_interface loopback none rest = rest
  from_interface true (some a) rest = rest
  from_interface false (some (family, bytes)) rest =
      if family == af_inet
      then storage family (sockpuppet.Base.take 16 bytes) ∷ rest
      else (if family == af_inet6
          then storage family (sockpuppet.Base.take 28 bytes) ∷ rest
          else rest)

  -- `LocalAddresses`, with the sizes of `sockaddr_in` and `sockaddr_in6`.
  unfoldable pub local_addresses : List IfAddr → List Address
  local_addresses [] = []
  local_addresses (it ∷ next) = from_interface it.is_loopback it.addr (local_addresses next)

unfoldable pub for_any : Address → List ℕ
for_any (info it next) = it.addr
for_any (storage family bytes) = bytes

unfoldable pub family_of : Address → ℕ
family_of (info it next) = it.family
family_of (storage family bytes) = family

-- `ntohs` of the port in a `sockaddr_in` or `sockaddr_in6`, which stand at the same place.
abbrev byte_at : List ℕ → ℕ → ℕ
byte_at bytes i = elim (get_elem? bytes i) [ none ↦ 0 | some b ↦ b ]

unfoldable pub port : Address → ℕ
unfolding for_any
port a = byte_at (for_any a) 2 * 256 + byte_at (for_any a) 3

unfoldable pub lt_address : Address → Address → Bool
unfolding for_any lt_view
lt_address a b = lt_view (for_any a) (for_any b)

unfoldable pub eq_address : Address → Address → Bool
unfolding for_any eq_view
eq_address a b = eq_view (for_any a) (for_any b)

-- `std::hash` of the bytes, a parameter of the model.
unfoldable pub hash_address : (List ℕ → ℕ) → Address → ℕ
unfolding for_any
hash_address hash a = hash (for_any a)
