-- ===== src/Driver/Dispatch.antt =====
-- `DoOneSocketTask` of src/driver_impl.cpp serves the first socket that `poll` has marked, and what a
-- request to send does to the poll entries.
use sockpuppet.Base.{
  ℕ, suc, ◌+◌, ◌≤◌, ◌≡◌, refl, ap, ◌∙◌, Bool, true, false, List, [], ◌∷◌, map, length, drop, take,
  get_elem?, ◌==◌, if◌then◌else◌, some, Result, ok, err, logic_error, assertion_failed, arith,
  Bool-cases, inl, inr,
}
use sockpuppet.Base.Sequence.{find_if, modify, any, remove_first, find_if-end, count}
use sockpuppet.Os.{Sys, Pollfd}
use sockpuppet.Driver.{State, Handlers, async_unregister, async_want_send, set_pollout}
use sockpuppet.Driver.Loop.{is_ready, serve, do_one_from, do_one_socket_task}
use sockpuppet.Driver.Registry.{IsAligned, fds, erase_found_lem}

length-map : {A : Type 0} (f : A → ℕ) (xs : List A) → length (map f xs) ≡ length xs
length-map f [] = refl
length-map f (x ∷ xs) = ap suc (length-map f xs)

fds_tail : (ps : List Pollfd) (a : ℕ) (as' : List ℕ) → fds ps ≡ a ∷ as' → fds (drop 1 ps) ≡ as'
fds_tail [] a as' e = cc
fds_tail (p ∷ ps) a as' e = cc

abbrev pub NoneReady : List Pollfd → Type 0
NoneReady [] = Unit {0}
NoneReady (p ∷ ps) = (is_ready p.revents ≡ false) × NoneReady ps

module _ (sys : Sys) (h : Handlers sys.World) where
  -- What came of the scan over `socks` and their entries `ps`, which stand from index `k` on.
  pub data Scanned (k : ℕ) (socks : List ℕ) (ps : List Pollfd) (s : State sys.World)
      (r : Result (Unit {0}) × State sys.World) : Type 0 where
    none_ready :
        NoneReady ps → r ≡ (err (logic_error "unhandled poll event"), s) → Scanned k socks ps s r
    first_ready :
        (i sock : ℕ) (pfd : Pollfd)
        → get_elem? socks i ≡ some sock
        → get_elem? ps i ≡ some pfd
        → pfd.fd ≡ h.get_fd sock
        → is_ready pfd.revents ≡ true
        → NoneReady (take i ps)
        → r ≡ serve sys h (k + i) sock pfd.revents s
        → Scanned k socks ps s r

  Scanned-skip :
      {k sock : ℕ} {pfd : Pollfd} {socks : List ℕ} {ps : List Pollfd} {s : State sys.World}
      {r : Result (Unit {0}) × State sys.World}
      → is_ready pfd.revents ≡ false
      → Scanned (suc k) socks ps s r
      → Scanned k (sock ∷ socks) (pfd ∷ ps) s r
  Scanned-skip idle (none_ready n e) = none_ready (idle, n) e
  Scanned-skip {k} {s = s} idle (first_ready i sock pfd gs gp same rdy n e) =
      first_ready (suc i) sock pfd gs gp same rdy (idle, n)
        (e ∙ ap (λ j. serve sys h j sock pfd.revents s) (omega arith))

  do_one_from-Scanned :
      (k : ℕ) (socks : List ℕ) (ps : List Pollfd) (s : State sys.World)
      → fds ps ≡ map h.get_fd socks
      → Scanned k socks ps s (do_one_from sys h k socks ps s)
  unfolding do_one_from
  do_one_from-Scanned k [] [] s a = none_ready tt refl
  do_one_from-Scanned k [] (p ∷ ps) s a = cc
  do_one_from-Scanned k (x ∷ socks) [] s a = cc
  do_one_from-Scanned k (x ∷ socks) (p ∷ ps) s a =
      let same : (p.fd == h.get_fd x) ≡ true = ground arith in
      elim (Bool-cases (is_ready p.revents)) [
        | inl e ↦
            rw (same, e)
              (first_ready 0 x p refl refl (ground arith) e tt
                (ap (λ j. serve sys h j x p.revents s) (omega arith)))
        | inr e ↦
            rw (same, e) (Scanned-skip e (do_one_from-Scanned (suc k) socks ps s (ground arith)))
      ]

  abbrev pub Served : State sys.World → Result (Unit {0}) × State sys.World → Type 0
  Served s r = Scanned 0 s.sockets (drop 1 s.pfds) s r

  -- With the lists aligned no assertion fails. The first attached socket whose own entry is marked
  -- with an event that the loop knows is served, alone and by that entry's events; the exception
  -- for an unhandled event comes only if there is none.
  pub do_one_socket_task-Served :
      (s : State sys.World) → IsAligned h.get_fd s → Served s (do_one_socket_task sys h s)
  unfolding do_one_socket_task
  do_one_socket_task-Served s a =
      let counted : (length s.sockets + 1 == length s.pfds) ≡ true = ground (
        arith,
        ap length a,
        length-map (λ (p : Pollfd). p.fd) s.pfds,
        length-map h.get_fd s.sockets,
      ) in
      rw counted (do_one_from-Scanned 0 s.sockets (drop 1 s.pfds) s (fds_tail s.pfds s.pipe_to _ a))

-- Whether the driver polls a descriptor for writing.
abbrev pub polls_out : ℕ → List Pollfd → Bool
polls_out fd [] = false
polls_out fd (p ∷ ps) = if p.fd == fd then p.events.pollout else polls_out fd ps

abbrev pub has_fd : ℕ → Pollfd → Bool
has_fd fd p = p.fd == fd

polls_out-modify :
    (fd g : ℕ) (ps : List Pollfd)
    → any (has_fd fd) ps ≡ true
    → polls_out g (modify ps (find_if (has_fd fd) ps) (set_pollout true))
      ≡ (if fd == g then true else polls_out g ps)
unfolding find_if
polls_out-modify fd g [] m = cc
polls_out-modify fd g (p ∷ ps) m = elim (Bool-cases (p.fd == fd)) [
  | inl e ↦ rw e (ground arith)
  | inr e ↦ rw e (ground (arith, polls_out-modify fd g ps))
]

pub any-remove_first :
    (fd : ℕ) (ps : List Pollfd)
    → count fd (fds ps) ≤ 1
    → any (has_fd fd) (remove_first (has_fd fd) ps) ≡ false
any-remove_first fd [] c = refl
any-remove_first fd (p ∷ ps) c = ground (arith, any-remove_first fd ps, none_left fd ps)
  where
    none_left : (fd : ℕ) (qs : List Pollfd) → count fd (fds qs) ≡ 0 → any (has_fd fd) qs ≡ false
    none_left fd [] z = refl
    none_left fd (q ∷ qs) z = ground (arith, none_left fd qs)

module _ {W : Type 0} where
  -- For a descriptor that has an entry, a request to send makes the driver poll it for writing and
  -- leaves the other descriptors' polling alone; for one that has none the code's assertion fails.
  pub async_want_send-polls_out :
      (fd g : ℕ) (s : State W)
      → let r = async_want_send fd s in
        (r.0 ≡ (if any (has_fd fd) s.pfds then ok tt else err assertion_failed))
        × (polls_out g r.1.pfds ≡ (
            if any (has_fd fd) s.pfds
            then (if fd == g then true else polls_out g s.pfds)
            else polls_out g s.pfds))
  unfolding async_want_send
  async_want_send-polls_out fd g s = elim (Bool-cases (any (has_fd fd) s.pfds)) [
    | inl e ↦ rw (find_if-end (has_fd fd) s.pfds, e) (refl, polls_out-modify fd g s.pfds e)
    | inr e ↦ rw (find_if-end (has_fd fd) s.pfds, e) (refl, refl)
  ]

  -- Once a socket is detached, as its disconnect handler is called, a request to send on it fails
  -- the assertion, if its descriptor had no more than one entry.
  pub async_want_send-async_unregister :
      (get_fd : ℕ → ℕ) (fd : ℕ) (s : State W)
      → count fd (fds s.pfds) ≤ 1
      → (async_want_send fd (async_unregister get_fd fd s).1).0 ≡ err assertion_failed
  unfolding async_unregister
  async_want_send-async_unregister get_fd fd s c = rw (
    (async_want_send-polls_out fd fd (async_unregister get_fd fd s).1).0,
    erase_found_lem (has_fd fd) s.pfds,
    any-remove_first fd s.pfds c,
  )
