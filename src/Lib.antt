-- ===== src/Lib.antt =====
-- sockpuppet: a library of sockets, with and without TLS, and of an event loop that drives
-- them. This development models its implementation and proves what makes each part correct.
--
-- The parts, from the bottom up:
--   Os          the operating system as a parameter: clock, poll and the socket calls, and the
--               documented laws of the bytes of a stream, of datagrams and of poll that proofs
--               rely on.
--   Wait        src/wait.{h,cpp}: deadlines, and waiting for one descriptor with poll.
--   Socket      src/socket_impl.cpp: the loops that send and receive on one descriptor. They
--               wait by Wait and take a deadline.
--   Pool        `BufferPool` of src/socket_buffered.cpp; Buffered is `SocketBufferedImpl`, which
--               receives into buffers of a pool, by way of a virtual socket. Pool/Lending says what
--               a pool promises, without its lists.
--   Todo        src/todo_impl.{h,cpp}: the list of scheduled tasks.
--   Driver      src/driver_impl.{h,cpp}: the event loop. `Step` runs the due tasks of Todo,
--               polls for the time that Wait leaves, and calls back one attached socket.
--               Driver/Guards has the threads that step it or change its lists, with the two
--               mutexes, and Driver/Tasks the handle `ToDo` of src/socket_async.cpp.
--   Async       src/socket_async_impl.{h,cpp}: the send queue of an attached socket, filled by
--               the user's threads and emptied by the driver; Async/Wakeup has both threads, and
--               Async/Bytes follows the bytes of a TCP socket through its queue.
--               Async/Handlers is what the driver calls back, as the callbacks that Driver
--               takes, Async/Plain runs the driver's loop over it, and Async/Api is the
--               constructors of src/socket_async.cpp.
--   Address     src/address_impl.{h,cpp}, src/address_impl_unix.cpp: addresses; Address/Uri reads
--               their text, and Address/Text prints it.
--   Endpoint    src/socket_impl.cpp and src/socket.cpp: the construction of sockets and their end,
--               accepting included, and in Endpoint/Datagrams `SendTo` of a UDP socket.
--   Tls         src/socket_tls_impl.{h,cpp}: a TLS session on a socket; the TLS library is a
--               parameter that calls back for bytes to read and write. Tls/Construct makes the
--               session, with the count of instances of src/ssl_guard.cpp, and Tls/Public the
--               sockets with certificates of src/socket.cpp, in the world of both libraries.
--   ErrorCode   src/error_code*.cpp: error codes, their categories and texts.
--   Windows     src/winsock_guard.cpp and src/address_impl_win.cpp: what there is for Windows alone.
--   Base        what these share: exceptions as values, postconditions, integers, sequences.
--   Tests       the theorems at concrete data.
--
-- How state corresponds. An object becomes a record of its members and a method a function from
-- the record to a result and the next record (`Action`), in which what was done before an
-- exception stays done. Names are those of the source in snake case. Shared objects (tasks,
-- buffers, promises) are numbers that stand for their identity. A failed `assert` is an outcome
-- of its own. A method that holds a mutex throughout is one step. Durations and points in time
-- are integers without a bound; the sizes and counts that can wrap around are written `% 2 ^ w`.
--
-- Fuel. `send_all` and `send_some` run their loops with one round more than there are bytes,
-- since every round but one for an empty buffer sends a byte or throws. `step_todos` takes its
-- fuel as an argument, for tasks may schedule tasks for ever: the theorem about it asks for a
-- budget that every task lowers. `run_loop` has fuel for its rounds, as `Run` has no end of its own.
--
-- A TLS read, write or shutdown has at most ten steps, as in the source.
--
-- Not modelled: the callbacks that OpenSSL takes for its locks and its BIOs, beyond the bytes that
-- they pass on; the Windows branches of the calls of sockets; the address that messages of errors
-- end with; the other methods of
-- the classes of the public headers, which pass calls on; the examples and tests. Third-party code
-- (`getaddrinfo`, `getnameinfo`, the system, the TLS library) is a parameter throughout, and regular
-- expressions are the functions that decide them. In Driver/Guards one thread steps the driver, a
-- call of `Bump` does not fail, and mutexes are as fair as a step relation is: not at all.
mod Base
pub mod Todo
pub mod Os
pub mod Wait
pub mod Socket
pub mod Pool
pub mod Buffered
pub mod Driver
pub mod Async
pub mod Address
pub mod Endpoint
pub mod Tls
pub mod Windows
pub mod ErrorCode
mod Tests
