-- ===== src/Os.antt =====
-- The operating system as a parameter: the calls that the library makes of the clock, `poll` and the
-- sockets, and what their documentation promises of the bytes of a stream. Nothing here is code of
-- the repository.
use sockpuppet.Base.{ℕ, ◌≡◌, ◌≢◌, ◌≤◌, Bool, Option, List, [], ◌∷◌, ◌++◌, length, take, map}
use sockpuppet.Base.Int.{ℤ, pos, negsuc, pos_part}

-- The bits POLLIN and POLLOUT of `pollfd::events`.
pub record Events : Type 0 where
  pub pollin : Bool
  pub pollout : Bool

-- The bits of `pollfd::revents`; `other` stands for all that the library does not name.
pub record Revents : Type 0 where
  pub pollin : Bool
  pub pollout : Bool
  pub pollhup : Bool
  pub pollerr : Bool
  pub other : Bool

pub record Pollfd : Type 0 where
  pub fd : ℕ
  pub events : Events
  pub revents : Revents

pub data SockOpt : Type 0 where
  reuse_addr broadcast no_sig_pipe : SockOpt

-- A call takes the world and returns its result with the next one. Buffers are lists of bytes, and
-- socket addresses the bytes that the address pointer and length enclose. A call that reads returns
-- what it put into the buffer. Calls with only success and failure return `true` for success.
pub record Sys : Type 1 where
  pub World : Type 0
  pub errno : World → ℕ
  pub now : World → ℤ × World
  pub poll : List Pollfd → ℤ → World → ℤ × List Pollfd × World
  pub send : ℕ → List ℕ → World → ℤ × World
  pub recv : ℕ → ℕ → World → ℤ × List ℕ × World
  pub sendto : ℕ → List ℕ → List ℕ → World → ℤ × World
  pub recvfrom : ℕ → ℕ → World → ℤ × List ℕ × List ℕ × World
  pub socket : ℕ → ℕ → ℕ → World → Option ℕ × World
  pub close : ℕ → World → World
  pub connect : ℕ → List ℕ → World → Bool × World
  pub bind : ℕ → List ℕ → World → Bool × World
  pub listen : ℕ → ℕ → World → Bool × World
  pub accept : ℕ → World → Option ℕ × List ℕ × World
  pub get_flags : ℕ → World → Option ℕ × World
  pub set_flags : ℕ → ℕ → World → Bool × World
  pub setsockopt : ℕ → SockOpt → ℕ → World → Bool × World
  pub get_rcvbuf : ℕ → World → Option ℤ × World
  pub getsockname : ℕ → World → Option (List ℕ) × World
  pub getpeername : ℕ → World → Option (List ℕ) × World

-- The bytes that a stream socket has accepted for sending so far: `send` appends as many bytes from
-- the front of its buffer as it reports, none if it fails; reading the clock and polling send nothing.
pub record StreamLaws (sys : Sys) : Type 0 where
  pub wire : sys.World → ℕ → List ℕ
  pub send_le : (fd : ℕ) (d : List ℕ) (w : sys.World) → pos_part (sys.send fd d w).0 ≤ length d
  pub send_wire :
      (fd : ℕ) (d : List ℕ) (w : sys.World)
      → wire (sys.send fd d w).1 fd ≡ wire w fd ++ take (pos_part (sys.send fd d w).0) d
  pub poll_wire :
      (p : List Pollfd) (t : ℤ) (w : sys.World) (fd : ℕ) → wire (sys.poll p t w).2 fd ≡ wire w fd
  pub now_wire : (w : sys.World) (fd : ℕ) → wire (sys.now w).1 fd ≡ wire w fd

-- `poll` fills in `revents` and nothing else of its array.
pub record PollLaws (sys : Sys) : Type 0 where
  pub poll_fds :
      (p : List Pollfd) (t : ℤ) (w : sys.World)
      → map (λ (q : Pollfd). q.fd) (sys.poll p t w).1 ≡ map (λ (q : Pollfd). q.fd) p

-- With a negative timeout `poll` waits until a descriptor is ready or it fails.
pub record BlockingLaws (sys : Sys) : Type 0 where
  pub poll_blocks :
      (q : Pollfd) (p : List Pollfd) (k : ℕ) (w : sys.World)
      → (sys.poll (q ∷ p) (negsuc k) w).0 ≢ pos 0

-- The datagrams that a socket has sent so far, with their addresses: `sendto` sends the whole buffer as
-- one datagram, or fails and sends none; polling sends none.
pub record DatagramLaws (sys : Sys) : Type 0 where
  pub sent : sys.World → ℕ → List (List ℕ × List ℕ)
  pub sendto_whole :
      (fd : ℕ) (d a : List ℕ) (w : sys.World) (n : ℕ)
      → (sys.sendto fd d a w).0 ≡ pos n
      → (n ≡ length d) × (sent (sys.sendto fd d a w).1 fd ≡ sent w fd ++ (a, d) ∷ [])
  pub sendto_failed :
      (fd : ℕ) (d a : List ℕ) (w : sys.World) (n : ℕ)
      → (sys.sendto fd d a w).0 ≡ negsuc n
      → sent (sys.sendto fd d a w).1 fd ≡ sent w fd
  pub poll_sent :
      (p : List Pollfd) (t : ℤ) (w : sys.World) (fd : ℕ) → sent (sys.poll p t w).2 fd ≡ sent w fd
