-- ===== src/Address/Text.antt =====
-- The printing of addresses in src/address_impl.cpp: `to_string`, which shifts parts about within one
-- buffer, `Host` and `Service`. Text is a list of bytes; `getnameinfo` is a parameter.
pub mod Parts
pub mod Printed
pub mod Roundtrip
use sockpuppet.Base.{
  ℕ, zero, suc, ◌+◌, ◌-◌, Bool, true, false, not, List, [], ◌∷◌, ◌++◌, length, take, drop,
  replicate, Option, none, some, ◌==◌, if◌then◌else◌, Result, ok, err, system_error, logic_error,
  String,
}
use sockpuppet.Address.{Address, for_any, family_of}

-- What `getnameinfo` answers: an error code, or what it has left in the two buffers given to it.
pub data Names : Type 0 where
  failed : (code : ℕ) → Names
  named : (host serv : List ℕ) → Names

-- `getnameinfo` with numeric host and service, the sizes of its buffers, and where the system keeps the
-- family of an address and the number of AF_INET and AF_INET6.
pub record NameInfo : Type 0 where
  pub ni_maxhost : ℕ
  pub ni_maxserv : ℕ
  pub af_inet : ℕ
  pub af_inet6 : ℕ
  pub sa_family : List ℕ → ℕ
  pub getnameinfo : List ℕ → Names

-- `std::string::find('\0', pos)` and the overloads of `erase` and `operator[]` on a string.
unfoldable pub find_nul : List ℕ → ℕ → Option ℕ
find_nul [] pos = none
find_nul (c ∷ cs) zero =
    let rest = find_nul cs zero in
    if c == 0 then some 0 else elim rest [ none ↦ none | some i ↦ some (suc i) ]
find_nul (c ∷ cs) (suc pos) = elim (find_nul cs pos) [ none ↦ none | some i ↦ some (suc i) ]

abbrev pub out_of_range : Result (List ℕ)
out_of_range = err (logic_error "basic_string::erase")

abbrev pub erase_from : List ℕ → Option ℕ → Result (List ℕ)
erase_from str none = out_of_range
erase_from str (some pos) = ok (take pos str)

-- `str.erase(pos, end - pos)`
abbrev pub erase_to : List ℕ → Option ℕ → ℕ → Result (List ℕ)
erase_to str none end_pos = out_of_range
erase_to str (some pos) end_pos = ok (take pos str ++ drop (pos + (end_pos - pos)) str)

abbrev pub set_at : List ℕ → ℕ → ℕ → List ℕ
set_at [] i c = []
set_at (x ∷ xs) zero c = c ∷ xs
set_at (x ∷ xs) (suc i) c = x ∷ set_at xs i c

-- A call fills the buffer at `pos` with `bytes`.
abbrev pub overlay : List ℕ → ℕ → List ℕ → List ℕ
overlay str pos bytes = take pos str ++ bytes ++ drop (pos + length bytes) str

abbrev pub then_ok : {A B : Type 0} → Result A → (A → Result B) → Result B
then_ok (ok a) f = f a
then_ok (err e) f = err e

module _ (info : NameInfo) where
  open info use {ni_maxhost, ni_maxserv, af_inet, af_inet6, sa_family, getnameinfo}

  -- The buffer after the call, with the host at `host` and the service at `serv`.
  abbrev pub shift_parts : Bool → ℕ → ℕ → List ℕ → Result (List ℕ)
  shift_parts is_v6 host serv str = then_ok (erase_from str (find_nul str serv)) λ cut.
      let colon = set_at cut (serv - 1) b':' in
      let serv' = if is_v6 then serv - 2 else serv - 1 in
      let closed = if is_v6 then set_at colon (serv - 2) b']' else colon in
      erase_to closed (find_nul closed host) serv'

  abbrev pub fill_parts : Bool → Names → Result (List ℕ)
  fill_parts is_v6 (failed code) = err (system_error code "failed to print address")
  fill_parts is_v6 (named host serv) =
      let blank = replicate (ni_maxhost + ni_maxserv + 3) 0 in
      let host_pos = if is_v6 then 1 else 0 in
      let serv_pos = if is_v6 then ni_maxhost + 3 else ni_maxhost + 1 in
      let opened = if is_v6 then set_at blank 0 b'[' else blank in
      shift_parts is_v6 host_pos serv_pos (overlay (overlay opened host_pos host) serv_pos serv)

  -- `to_string(SockAddrView const &)`
  unfoldable pub to_string : List ℕ → Result (List ℕ)
  unfolding find_nul
  to_string view = fill_parts (not (sa_family view == af_inet)) (getnameinfo view)

  -- `Host` and `Service`
  abbrev pub cut_host : Names → Result (List ℕ)
  cut_host (failed code) = err (system_error code "failed to print host")
  cut_host (named host serv) =
      let str = overlay (replicate ni_maxhost 0) 0 host in erase_from str (find_nul str 0)

  abbrev pub cut_service : Names → Result (List ℕ)
  cut_service (failed code) = err (system_error code "failed to print service")
  cut_service (named host serv) =
      let str = overlay (replicate ni_maxserv 0) 0 serv in erase_from str (find_nul str 0)

  unfoldable pub host_of : Address → Result (List ℕ)
  unfolding find_nul for_any
  host_of address = cut_host (getnameinfo (for_any address))

  unfoldable pub service_of : Address → Result (List ℕ)
  unfolding find_nul for_any
  service_of address = cut_service (getnameinfo (for_any address))

  unfoldable pub is_v6_address : Address → Bool
  unfolding family_of
  is_v6_address address = family_of address == af_inet6

  -- `to_string(Address::AddressImpl const &)`
  unfoldable pub print_address : Address → Result (List ℕ)
  unfolding to_string for_any
  print_address address = to_string (for_any address)
