-- ===== src/Pool.antt =====
-- `BufferPool` of src/socket_buffered.cpp. A buffer is an object with an identity; `content` is what
-- the strings hold. The mutex makes each operation one step.
pub mod Ownership
pub mod Lending
use sockpuppet.Base.{
  ℕ, zero, suc, ◌+◌, ◌-◌, ◌%◌, ◌^◌, Bool, List, [], ◌∷◌, ◌++◌, length, leb, ◌==◌, if◌then◌else◌,
  Result, ok, err, Action, runtime_error, logic_error, arith,
}
use sockpuppet.Base.Sequence.{find_if, erase}

pub record Pool : Type 0 where
  pub max_count : ℕ
  -- The top of the stack is the head.
  pub idle : List ℕ
  pub busy : List ℕ
  pub content : ℕ → List ℕ
  -- The storage set aside for each buffer.
  pub reserved : ℕ → ℕ
  -- The next identity that an allocation returns.
  pub next : ℕ

abbrev pub assign {ℓ} : {A : Type ℓ} → (ℕ → A) → ℕ → A → ℕ → A
assign f i a j = if i == j then a else f j

-- The loop of the constructor, which pre-allocates.
unfoldable pub preallocate : ℕ → ℕ → Pool → Pool
preallocate zero reserve_size p = p
preallocate (suc n) reserve_size p = preallocate n reserve_size (record p {
  idle = p.next ∷ p.idle;
  content = assign p.content p.next [];
  reserved = assign p.reserved p.next reserve_size;
  next = suc p.next;
})

-- `maxCount - 1U` wraps: no limit is the greatest `size_t`.
unfoldable pub create : ℕ → ℕ → Pool
unfolding preallocate
create max_count reserve_size = preallocate max_count reserve_size (record {
  max_count = (max_count + 2 ^ 64 - 1) % 2 ^ 64;
  idle = [];
  busy = [];
  content = λ _. [];
  reserved = λ _. 0;
  next = 0;
})

allocate : Pool → Result ℕ × Pool
allocate p =
    if leb (length p.busy) p.max_count
    then (
      ok p.next,
      record p {
        busy = p.busy ++ p.next ∷ [];
        content = assign p.content p.next [];
        reserved = assign p.reserved p.next 0;
        next = suc p.next;
      },
    )
    else (err (runtime_error "out of buffers"), p)

take_idle : List ℕ → Pool → Result ℕ × Pool
unfolding allocate
take_idle [] p = allocate p
take_idle (buf ∷ rest) p =
    (ok buf, record p { idle = rest; busy = p.busy ++ buf ∷ []; content = assign p.content buf [] })

unfoldable pub get : Action Pool ℕ
unfolding take_idle
get p = take_idle p.idle p

-- The handle's deleter gives the buffer back.
unfoldable pub recycle : ℕ → Action Pool (Unit {0})
unfolding find_if
recycle buf p =
    let it = find_if (λ storage. storage == buf) p.busy in
    if it == length p.busy
    then (err (logic_error "returned invalid buffer"), p)
    else (ok tt, record p { idle = buf ∷ p.idle; busy = erase p.busy it })
