-- ===== src/Tests/Buffers.antt =====
-- The buffer pool and receiving into it.
use sockpuppet.Base.{
  ◌≡◌, refl, runtime_error, logic_error, List, ◌^◌, ◌<◌, [], ◌∷◌, length, arith, some, ok, pure,
}
use sockpuppet.Base.Int.{pos}
use sockpuppet.Pool.{Pool, create, get}
use sockpuppet.Pool.Ownership.{IsPool, create-IsPool, get-IsPool}
use sockpuppet.Pool.Lending.{
  Op, take_buffer, write, give_back, Lending, outcomes, taken, thrown, finished, create-Lending,
}
use sockpuppet.Buffered.{Buffered, Receiver, receive}
use sockpuppet.Buffered.Receipt.{Receipt, receive-Receipt}
use sockpuppet.Tests.World.{TestWorld, start}

pub few_lent : length (create 2 100).busy < 2 ^ 64
unfolding create
few_lent = omega arith

abbrev lending : List Op
lending =
    take_buffer ∷ write 0 (b'x' ∷ []) ∷ take_buffer ∷ give_back 0 ∷ give_back 0 ∷ take_buffer ∷ []

create-Lending_example : Lending 1 (λ a. 0) 0 lending (outcomes lending (create 1 100))
create-Lending_example = create-Lending 1 (omega arith) 100 lending (omega arith)

-- The second request finds the pool of one empty, the second return is refused, and the buffer that
-- was written to is lent again, empty.
lent_again :
    outcomes lending (create 1 100)
    ≡ taken 0 []
      ∷ finished
      ∷ thrown (runtime_error "out of buffers")
      ∷ finished
      ∷ thrown (logic_error "returned invalid buffer")
      ∷ taken 0 []
      ∷ []
unfolding outcomes create
lent_again = refl

-- A pool of two whose buffer 1 is lent.
abbrev one_lent : Pool
one_lent = (get (create 2 100)).1

one_lent-IsPool : IsPool 2 one_lent
one_lent-IsPool = get-IsPool 2 (omega arith) (create 2 100) (create-IsPool 2 100)

abbrev test_receiver : Receiver TestWorld
test_receiver = record {
  receive = λ fd size timeout. pure (some (3, b'a' ∷ b'b' ∷ b'c' ∷ []));
  receive_now = λ fd size. pure (1, b'a' ∷ []);
  receive_from_now = λ fd size. pure (1, b'a' ∷ [], []);
}

abbrev buffered : Buffered TestWorld
buffered = record { fd = 7; rx_buf_size = 100; pool = create 2 100; world = start }

receive-Receipt_example :
    Receipt buffered
      (ok (some (3, b'a' ∷ b'b' ∷ b'c' ∷ [])))
      (receive test_receiver (pos 5) buffered)
receive-Receipt_example =
    receive-Receipt test_receiver 2 (pos 5) buffered (omega arith) few_lent (create-IsPool 2 100)
