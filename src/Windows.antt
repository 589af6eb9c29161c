-- ===== src/Windows.antt =====
-- The code for Windows alone: the count of instances in src/winsock_guard.cpp, and the local addresses of
-- src/address_impl_win.cpp.
pub mod Guard
use sockpuppet.Base.{
  ℕ, zero, suc, ◌+◌, ◌==◌, Bool, true, false, ◌&&◌, List, [], ◌∷◌, if◌then◌else◌, Result, ok, err,
  Action, pure, throw, and_then, system_error,
}
use sockpuppet.Base.Int.{ℤ, pos, negsuc, ◌+ℤ◌}
use sockpuppet.Address.{Address, AddrInfo, storage}

-- WSAStartup, which returns zero or an error, and WSACleanup: parameters.
pub record Winsock : Type 1 where
  pub World : Type 0
  pub startup : World → ℕ × World
  pub cleanup : World → World

-- The static count of `UpdateInstanceCount`, and the world.
pub record Process (W : Type 0) : Type 0 where
  pub curr : ℤ
  pub world : W

abbrev is_at : ℕ → ℤ → Bool
is_at n (pos m) = n == m
is_at n (negsuc m) = false

module _ (winsock : Winsock) where
  open winsock use {World}

  abbrev pub started : ℤ → ℕ × World → Result (Unit {0}) × Process World
  started curr (zero, w) = (ok tt, record { curr = curr; world = w })
  started curr (suc e, w) = (
    err (system_error (suc e) "failed to intitialize socket subsystem"),
    record { curr = curr; world = w },
  )

  -- The count has changed by the time that WSAStartup fails.
  unfoldable pub update_instance_count : ℤ → Action (Process World) (Unit {0})
  update_instance_count modifier s =
      let prev = s.curr in
      let curr = prev +ℤ modifier in
      if is_at 0 prev && is_at 1 curr then started curr (winsock.startup s.world) else (
        ok tt,
        record {
          curr = curr;
          world = if is_at 1 prev && is_at 0 curr then winsock.cleanup s.world else s.world;
        },
      )

  -- `WinSockGuard` and its destructor.
  abbrev pub construct_guard : Action (Process World) (Unit {0})
  construct_guard = update_instance_count (pos 1)

  abbrev pub destroy_guard : Process World → Process World
  destroy_guard s = (update_instance_count (negsuc 0) s).1

-- `LocalAddresses`: a copy of each result of the look-up of the special host name.
unfoldable pub local_addresses : List AddrInfo → List Address
local_addresses [] = []
local_addresses (it ∷ next) = storage it.family it.addr ∷ local_addresses next
