-- ===== src/Address/Resolve.antt =====
-- Which result of a look-up a socket uses, and which interface addresses are listed: `Find`, `ForTcp`,
-- `ForUdp` and `LocalAddresses` of src/address_impl.cpp and src/address_impl_unix.cpp.
use sockpuppet.Base.{
  ℕ, zero, suc, ◌≡◌, refl, ap, ◌⊎◌, inl, inr, Bool, true, false, List, [], ◌∷◌, ◌++◌, Option, none,
  some, ◌==◌, if◌then◌else◌, Result, ok, err, logic_error, arith, Bool-cases, length, ◌≤◌, take,
}
use sockpuppet.Address.{AddrInfo, info, Platform, suits, find, for_tcp, for_udp}

-- None of the entries suits the type and the protocol.
abbrev pub NoneSuits : ℕ → ℕ → List AddrInfo → Type 0
NoneSuits type protocol [] = Unit {0}
NoneSuits type protocol (it ∷ next) =
    (suits type protocol it ≡ false) × NoneSuits type protocol next

pub data Found (type protocol : ℕ) (l : List AddrInfo) (r : Option AddrInfo) : Type 0 where
  absent : NoneSuits type protocol l → r ≡ none → Found type protocol l r
  present :
      (before after : List AddrInfo) (it : AddrInfo)
      → l ≡ before ++ it ∷ after
      → NoneSuits type protocol before
      → suits type protocol it ≡ true
      → r ≡ some it
      → Found type protocol l r

find-Found : (type protocol : ℕ) (l : List AddrInfo) → Found type protocol l (find type protocol l)
unfolding find
find-Found type protocol [] = absent tt refl
find-Found type protocol (it ∷ next) = elim (Bool-cases (suits type protocol it)) [
  | inl e ↦ rw e (present [] next it refl tt e refl)
  | inr e ↦ rw e (elim (find-Found type protocol next) [
    | absent n r ↦ absent (e, n) r
    | present before after x l n s r ↦ present (it ∷ before) after x (ap (◌∷◌ it) l) (e, n) s r
  ])
]

-- What `ForTcp` makes of a resolved address: the bytes of the first result of the look-up that suits
-- TCP, or the exception, if none does.
pub data Chosen (type protocol : ℕ) (l : List AddrInfo) (message : sockpuppet.Base.String)
    (r : Result (List ℕ)) : Type 0 where
  invalid :
      NoneSuits type protocol l → r ≡ err (logic_error message) → Chosen type protocol l message r
  chosen :
      (before after : List AddrInfo) (it : AddrInfo)
      → l ≡ before ++ it ∷ after
      → NoneSuits type protocol before
      → suits type protocol it ≡ true
      → r ≡ ok it.addr
      → Chosen type protocol l message r

-- A resolved address serves TCP by the first result of the look-up that suits TCP and UDP by the
-- first that suits UDP, where a type or protocol of zero suits any; with none it is an exception.
pub for_tcp_udp-Chosen :
    (p : Platform) (it : AddrInfo) (next : List AddrInfo)
    → Chosen p.sock_stream p.ipproto_tcp
        (it ∷ next)
        "address is not valid for TCP"
        (for_tcp p (info it next))
      × Chosen p.sock_dgram p.ipproto_udp
          (it ∷ next)
          "address is not valid for UDP"
          (for_udp p (info it next))
unfolding for_tcp for_udp
for_tcp_udp-Chosen p it next = (
  elim (find-Found p.sock_stream p.ipproto_tcp (it ∷ next)) [
    | absent n r ↦ rw r (invalid n refl)
    | present before after x l n s r ↦ rw r (chosen before after x l n s refl)
  ],
  elim (find-Found p.sock_dgram p.ipproto_udp (it ∷ next)) [
    | absent n r ↦ rw r (invalid n refl)
    | present before after x l n s r ↦ rw r (chosen before after x l n s refl)
  ],
)
