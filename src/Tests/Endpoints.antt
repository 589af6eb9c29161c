-- ===== src/Tests/Endpoints.antt =====
-- Sockets made, with and without an address that suits them.
use sockpuppet.Base.{◌≡◌, refl, true, [], Action, pure, Ensures}
use sockpuppet.Address.{Address, info}
use sockpuppet.Endpoint.{socket_udp, socket_tcp, acceptor}
use sockpuppet.Driver.Pipe.{Constructed, construct_driver, construct_driver-Constructed}
use sockpuppet.Endpoint.Setup.{DescriptorLaws, Owns}
use sockpuppet.Endpoint.Descriptors.{constructors-Owns}
use sockpuppet.Tests.World.{TestWorld, test_sys, start}
use sockpuppet.Tests.Addresses.{linux, stream_result, dgram_result}

abbrev pub test_descriptors : DescriptorLaws test_sys
test_descriptors = record {
  opened = λ w. w.opened;
  socket_opened = λ f t p w. refl;
  accept_opened = λ fd w. refl;
  close_opened = λ fd w. refl;
  connect_opened = λ fd a w. refl;
  bind_opened = λ fd a w. refl;
  listen_opened = λ fd n w. refl;
  get_flags_opened = λ fd w. refl;
  set_flags_opened = λ fd n w. refl;
  setsockopt_opened = λ fd o n w. refl;
  getsockname_opened = λ fd w. refl;
  poll_opened = λ p t w. refl;
}

-- The address suits TCP only, so the constructor of a UDP socket throws.
abbrev pub tcp_only : Address
tcp_only = info stream_result []

constructors-Owns_example :
    Owns test_sys test_descriptors start
      (socket_udp test_sys linux (λ flags. flags) true tcp_only start)
    × Owns test_sys test_descriptors start
        (socket_tcp test_sys linux (λ flags. flags) true tcp_only start)
    × Owns test_sys test_descriptors start
        (acceptor test_sys linux (λ flags. flags) true tcp_only start)
constructors-Owns_example =
    constructors-Owns test_sys test_descriptors linux (λ flags. flags) true tcp_only start

abbrev loopback : Action TestWorld Address
loopback w = pure (info dgram_result []) w

construct_driver-Constructed_example :
    Ensures
      (Constructed test_sys test_descriptors linux
        (λ flags. flags)
        true
        loopback
        (λ w. refl)
        (λ k. k)
        start)
      (λ w1. w1.opened ≡ [])
      (construct_driver test_sys linux (λ flags. flags) true loopback start)
construct_driver-Constructed_example =
    construct_driver-Constructed test_sys test_descriptors linux (λ flags. flags) true loopback
      (λ w. refl) (λ k. k) start
