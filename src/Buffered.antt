-- ===== src/Buffered.antt =====
-- src/socket_buffered_impl.cpp: a socket with a pool of receive buffers. A handle on a buffer gives it
-- back to the pool when it is destroyed, also while an exception or an early return unwinds.
pub mod Receipt
use sockpuppet.Base.{
  ℕ, suc, ◌+◌, ◌==◌, Bool, true, false, List, [], ◌∷◌, length, take, replicate, ◌++◌, ◌-◌, Option,
  none, some, if◌then◌else◌, Result, ok, err, Error, Action, pure, throw, and_then, logic_error,
}
use sockpuppet.Base.Int.{ℤ, pos, negsuc}
use sockpuppet.Os.{Sys}
use sockpuppet.Wait.{wait_readable}
use sockpuppet.Pool.{Pool, get, recycle, assign, create}

pub record Buffered (W : Type 0) : Type 0 where
  pub fd : ℕ
  pub rx_buf_size : ℕ
  pub pool : Pool
  pub world : W

-- `std::string::resize`: cut off, or filled up with null characters.
abbrev pub resize : ℕ → List ℕ → List ℕ
resize n bytes = take n (bytes ++ replicate (n - length bytes) 0)

-- The virtual `SocketImpl::Receive`, with a timeout and without, and `ReceiveFrom`.
pub record Receiver (W : Type 0) : Type 0 where
  pub receive : ℕ → ℕ → ℤ → Action W (Option (ℕ × List ℕ))
  pub receive_now : ℕ → ℕ → Action W (ℕ × List ℕ)
  pub receive_from_now : ℕ → ℕ → Action W (ℕ × List ℕ × List ℕ)

module _ {W : Type 0} where
  abbrev pub on_pool : {A : Type 0} → Action Pool A → Action (Buffered W) A
  on_pool m s = let (r, p) = m s.pool in (r, record s { pool = p })

  abbrev pub on_world : {A : Type 0} → Action W A → Action (Buffered W) A
  on_world m s = let (r, w) = m s.world in (r, record s { world = w })

  abbrev set_content : ℕ → List ℕ → Buffered W → Buffered W
  set_content buf bytes s = record s {
    pool = record s.pool { content = assign s.pool.content buf bytes };
  }

  unfoldable pub get_buffer : Action (Buffered W) ℕ
  get_buffer s =
      and_then (on_pool get s)
        λ buf s'. pure buf (set_content buf (resize s'.rx_buf_size (s'.pool.content buf)) s')

  -- The handle is destroyed: an exception on its way is passed on.
  abbrev pub drop_buffer : {A : Type 0} → ℕ → Result A → Action (Buffered W) A
  drop_buffer buf r s = and_then (on_pool (recycle buf) s) (λ _ s'. (r, s'))

  -- The bytes received stand at the front of the buffer, which is cut to their number.
  abbrev filled : ℕ → ℕ → List ℕ → Buffered W → Buffered W
  filled buf size bytes s = set_content buf (resize size bytes) s

module _ {W : Type 0} (rx : Receiver W) where
  abbrev finish : ℕ → Result (Option (ℕ × List ℕ)) → Action (Buffered W) (Option ℕ)
  finish buf (ok none) s = drop_buffer buf (ok none) s
  finish buf (ok (some r)) s = pure (some buf) (filled buf r.0 r.1 s)
  finish buf (err e) s = drop_buffer buf (err e) s

  unfoldable pub receive : ℤ → Action (Buffered W) (Option ℕ)
  unfolding get_buffer
  receive timeout s =
      and_then (get_buffer s) λ buf s1.
        let r = on_world (rx.receive s1.fd s1.rx_buf_size timeout) s1 in finish buf r.0 r.1

  abbrev pub finish_now : ℕ → Result (ℕ × List ℕ) → Action (Buffered W) ℕ
  finish_now buf (ok r) s = pure buf (filled buf r.0 r.1 s)
  finish_now buf (err e) s = drop_buffer buf (err e) s

  unfoldable pub receive_now : Action (Buffered W) ℕ
  unfolding get_buffer
  receive_now s =
      and_then (get_buffer s) λ buf s1.
        let r = on_world (rx.receive_now s1.fd s1.rx_buf_size) s1 in finish_now buf r.0 r.1

  abbrev finish_from : ℕ → Result (ℕ × List ℕ × List ℕ) → Action (Buffered W) (ℕ × List ℕ)
  finish_from buf (ok r) s = pure (buf, r.2) (filled buf r.0 r.1 s)
  finish_from buf (err e) s = drop_buffer buf (err e) s

  unfoldable pub receive_from_now : Action (Buffered W) (ℕ × List ℕ)
  unfolding get_buffer
  receive_from_now s = and_then (get_buffer s) λ buf s1.
      let r = on_world (rx.receive_from_now s1.fd s1.rx_buf_size) s1 in finish_from buf r.0 r.1

module _ (sys : Sys) (rx : Receiver sys.World) where
  unfoldable pub receive_from : ℤ → Action (Buffered sys.World) (Option (ℕ × List ℕ))
  unfolding receive_from_now
  receive_from timeout s = and_then (on_world (wait_readable sys s.fd timeout) s) λ readable s1.
      if readable then and_then (receive_from_now rx s1) (λ r. pure (some r)) else pure none s1
