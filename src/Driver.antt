-- ===== src/Driver.antt =====
-- `Driver::DriverImpl` of src/driver_impl.{h,cpp}: the state that `stepMtx` guards and the methods
-- that work on it. Each method holds that mutex for its whole body, so it is one step here.
pub mod Loop
pub mod Registry
pub mod Dispatch
pub mod Timeout
pub mod Schedule
pub mod Rounds
pub mod Soundness
pub mod Guards
pub mod Tasks
pub mod Pipe
use sockpuppet.Base.{
  ℕ, suc, ◌+◌, Bool, true, false, List, [], ◌∷◌, ◌++◌, length, ◌==◌, if◌then◌else◌, Result, ok, err,
  Action, pure, throw, and_then, ◌>>=◌, ◌>>◌, assertion_failed, String,
}
use sockpuppet.Base.Int.{ℤ}
use sockpuppet.Base.Sequence.{find_if, erase, modify}
use sockpuppet.Os.{Sys, Events, Revents, Pollfd}
use sockpuppet.Wait.{wants_in, no_revents}
use sockpuppet.Todo.{ToDos, insert, remove, move}
use sockpuppet.Socket.{send_to, receive_from_now, no_timeout}

pub record State (W : Type 0) : Type 0 where
  pub todos : ToDos
  -- References to the attached `SocketAsyncImpl` objects, by identity.
  pub sockets : List ℕ
  -- The front element belongs to the signalling pipe.
  pub pfds : List Pollfd
  pub should_stop : Bool
  pub pipe_from : ℕ
  pub pipe_to : ℕ
  pub pipe_to_addr : List ℕ
  pub world : W

-- What the driver calls back: the tasks of the user, and the attached sockets. These are functions on
-- the whole state, since a task may schedule tasks and attach or detach sockets.
pub record Handlers (W : Type 0) : Type 0 where
  pub what : ℕ → Action (State W) (Unit {0})
  pub get_fd : ℕ → ℕ
  pub query : ℕ → Events → Action (State W) Events
  pub on_readable : ℕ → Action (State W) (Unit {0})
  pub on_writable : ℕ → Action (State W) Bool
  pub on_error : ℕ → String → Action (State W) (Unit {0})

-- A call on the world from a method of the driver.
abbrev pub lift : {W A : Type 0} → Action W A → Action (State W) A
lift m s = let (r, w) = m s.world in (r, record s { world = w })

module _ {W : Type 0} where
  unfoldable pub to_do_insert : ℕ → Action (State W) (Unit {0})
  to_do_insert todo s = (ok tt, record s { todos = insert s.todos todo })

  unfoldable pub to_do_remove : ℕ → Action (State W) (Unit {0})
  to_do_remove todo s = (ok tt, record s { todos = remove s.todos todo })

  unfoldable pub to_do_move : ℕ → ℤ → Action (State W) (Unit {0})
  to_do_move todo t s = (ok tt, record s { todos = move s.todos todo t })

-- The erasure at the iterator that `find_if` returns, unless it is `end()`.
unfoldable pub erase_found {ℓ} : {A : Type ℓ} → (A → Bool) → List A → List A
unfolding find_if
erase_found p xs = let it = find_if p xs in if it == length xs then xs else erase xs it

module _ {W : Type 0} (get_fd : ℕ → ℕ) where
  unfoldable pub async_register : ℕ → Action (State W) (Unit {0})
  async_register sock s = (
    ok tt,
    record s {
      sockets = s.sockets ++ sock ∷ [];
      pfds = s.pfds ++ record { fd = get_fd sock; events = wants_in; revents = no_revents } ∷ [];
    },
  )

  unfoldable pub async_unregister : ℕ → Action (State W) (Unit {0})
  unfolding erase_found
  async_unregister fd s = (
    ok tt,
    record s {
      sockets = erase_found (λ async. get_fd async == fd) s.sockets;
      pfds = erase_found (λ (pfd : Pollfd). pfd.fd == fd) s.pfds;
    },
  )

abbrev pub set_pollout : Bool → Pollfd → Pollfd
set_pollout b pfd = record pfd { events = record { pollin = pfd.events.pollin; pollout = b } }

module _ {W : Type 0} where
  unfoldable pub async_want_send : ℕ → Action (State W) (Unit {0})
  unfolding find_if
  async_want_send fd s =
      let it = find_if (λ (pfd : Pollfd). pfd.fd == fd) s.pfds in
      if it == length s.pfds
      then throw assertion_failed s
      else pure tt (record s { pfds = modify s.pfds it (set_pollout true) })

module _ (sys : Sys) where
  unfoldable pub bump : Action (State sys.World) (Unit {0})
  unfolding send_to
  bump s =
      and_then (lift (send_to sys s.pipe_from (b'1' ∷ []) s.pipe_to_addr no_timeout) s)
        λ sent. if sent == 1 then pure tt else throw assertion_failed

  unfoldable pub unbump : Action (State sys.World) (Unit {0})
  unfolding receive_from_now
  unbump s = and_then (lift (receive_from_now sys s.pipe_to 256) s) (λ _. pure tt)
