-- ===== src/Driver/Registry.antt =====
-- The two lists of src/driver_impl.cpp, sockets and poll entries, stay aligned, and an event goes to
-- the socket that it belongs to.
use sockpuppet.Base.{
  ℕ, zero, suc, ◌≡◌, refl, ap, ◌∙◌, Bool, true, List, [], ◌∷◌, ◌++◌, map, ◌==◌, arith, Bool-cases,
  inl, inr, ◌≢◌,
}
use sockpuppet.Base.Sequence.{
  find_if, modify, any, remove_first, erase-find_if, find_if-end, remove_first-absent,
}
use sockpuppet.Os.{Pollfd}
use sockpuppet.Driver.{
  State, async_register, async_unregister, async_want_send, erase_found, set_pollout,
}

abbrev pub fds : List Pollfd → List ℕ
fds = map (λ (p : Pollfd). p.fd)

-- Behind the signalling pipe the poll entries belong to the sockets, in the same order.
abbrev pub IsAligned : {W : Type 0} → (ℕ → ℕ) → State W → Type 0
IsAligned get_fd s = fds s.pfds ≡ s.pipe_to ∷ map get_fd s.sockets

map_append {ℓ κ} :
    {A : Type ℓ} {B : Type κ} (f : A → B) (xs ys : List A) → map f (xs ++ ys) ≡ map f xs ++ map f ys
map_append f [] ys = refl
map_append f (x ∷ xs) ys = ap (◌∷◌ (f x)) (map_append f xs ys)

pub erase_found_lem {ℓ} :
    {A : Type ℓ} (p : A → Bool) (xs : List A) → erase_found p xs ≡ remove_first p xs
unfolding erase_found
erase_found_lem p xs = elim (Bool-cases (any p xs)) [
  | inl e ↦ rw (find_if-end p xs, e, erase-find_if p xs)
  | inr e ↦ rw (find_if-end p xs, e, remove_first-absent p xs e)
]

map-remove_first :
    {A : Type 0} (f : A → ℕ) (a : ℕ) (xs : List A)
    → map f (remove_first (λ x. f x == a) xs) ≡ remove_first (λ y. y == a) (map f xs)
map-remove_first f a [] = refl
map-remove_first f a (x ∷ xs) = ground (arith, map-remove_first f a xs)

pub fds-modify :
    (xs : List Pollfd) (i : ℕ) (f : Pollfd → Pollfd)
    → ((p : Pollfd) → (f p).fd ≡ p.fd)
    → fds (modify xs i f) ≡ fds xs
fds-modify [] i f h = refl
fds-modify (x ∷ xs) zero f h = rw (h x)
fds-modify (x ∷ xs) (suc i) f h = ap (◌∷◌ x.fd) (fds-modify xs i f h)

module _ {W : Type 0} (get_fd : ℕ → ℕ) where
  -- Attaching a socket keeps the socket list and the poll entries aligned.
  pub async_register-IsAligned :
      (sock : ℕ) (s : State W)
      → IsAligned get_fd s
      → IsAligned get_fd (async_register get_fd sock s).1
  unfolding async_register
  async_register-IsAligned sock s a =
      rw (map_append (λ (p : Pollfd). p.fd) s.pfds, map_append get_fd s.sockets, a)

  -- Detaching a socket keeps the lists aligned, also if no attached socket has the descriptor,
  -- provided that it is not the descriptor of the driver's own pipe.
  pub async_unregister-IsAligned :
      (fd : ℕ) (s : State W)
      → s.pipe_to ≢ fd
      → IsAligned get_fd s
      → IsAligned get_fd (async_unregister get_fd fd s).1
  unfolding async_unregister
  async_unregister-IsAligned fd s ne a =
      rw
        (
          erase_found_lem (λ (p : Pollfd). p.fd == fd) s.pfds,
          erase_found_lem (λ k. get_fd k == fd) s.sockets,
        )
        (map-remove_first (λ (p : Pollfd). p.fd) fd s.pfds
          ∙ (ap (remove_first (λ y. y == fd)) a
              ∙ ground (arith, map-remove_first get_fd fd s.sockets)))

  -- A request to send keeps the lists aligned, also if it fails.
  pub async_want_send-IsAligned :
      (fd : ℕ) (s : State W) → IsAligned get_fd s → IsAligned get_fd (async_want_send fd s).1
  unfolding async_want_send
  async_want_send-IsAligned fd s a = ground (
    arith,
    fds-modify s.pfds (find_if (λ (p : Pollfd). p.fd == fd) s.pfds) (set_pollout true) (λ p. refl),
  )
