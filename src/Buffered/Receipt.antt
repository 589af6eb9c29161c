-- ===== src/Buffered/Receipt.antt =====
-- No receive of src/socket_buffered_impl.cpp loses a buffer of the pool, however it ends.
use sockpuppet.Base.{
  ℕ, ◌^◌, ◌<◌, ◌≡◌, refl, ◌⊎◌, inl, inr, ◌==◌, true, List, [], ◌∷◌, ◌++◌, length, Option, none,
  some, Result, ok, err, Error, runtime_error, arith,
}
use sockpuppet.Base.Int.{ℤ}
use sockpuppet.Base.Sequence.{mem, count, count-append, remove_first, count-remove_first}
use sockpuppet.Pool.{Pool}
use sockpuppet.Pool.Ownership.{IsPool, lent, exhausted, get-Got, recycle_lem}
use sockpuppet.Buffered.{
  Buffered, Receiver, resize, drop_buffer, finish, receive, finish_now, receive_now,
}

pub mem_last : (b : ℕ) (xs : List ℕ) → mem b (xs ++ b ∷ []) ≡ true
mem_last b [] = ground arith
mem_last b (x ∷ xs) = ground (arith, mem_last b xs)

-- The buffers that are lent are the same, whatever their order.
abbrev pub SameLent : Pool → Pool → Type 0
SameLent p q = (a : ℕ) → count a q.busy ≡ count a p.busy

-- What a receive did: it throws, or has nothing, and every buffer is where it was; or it lends one
-- more buffer, which holds the bytes that the socket returned, cut to their number.
pub data Receipt {W : Type 0} (s : Buffered W) (m : Result (Option (ℕ × List ℕ)))
    (r : Result (Option ℕ) × Buffered W) : Type 0 where
  failed : (e : Error) → r.0 ≡ err e → SameLent s.pool r.1.pool → Receipt s m r
  nothing : m ≡ ok none → r.0 ≡ ok none → SameLent s.pool r.1.pool → Receipt s m r
  received :
      (b n : ℕ) (bytes : List ℕ)
      → m ≡ ok (some (n, bytes))
      → r.0 ≡ ok (some b)
      → count b s.pool.busy ≡ 0
      → r.1.pool.busy ≡ s.pool.busy ++ b ∷ []
      → r.1.pool.content b ≡ resize n bytes
      → Receipt s m r

pub returned :
    (b : ℕ) (xs ys : List ℕ) (a : ℕ)
    → ys ≡ xs ++ b ∷ []
    → count a (remove_first (λ x. x == b) ys) ≡ count a xs
returned b xs ys a e = rw e (
    omega
      (arith, count-remove_first a b (xs ++ b ∷ []) (mem_last b xs), count-append a xs (b ∷ [])))

module _ {W : Type 0} where
  pub drop_buffer_lem :
      {A : Type 0} (b : ℕ) (r : Result A) (s : Buffered W)
      → mem b s.pool.busy ≡ true
      → drop_buffer b r s ≡ (
        r,
        record s {
          pool = record s.pool {
            idle = b ∷ s.pool.idle;
            busy = remove_first (λ x. x == b) s.pool.busy;
          };
        },
      )
  drop_buffer_lem b r s m = rw (recycle_lem b s.pool, m)

module _ {W : Type 0} (rx : Receiver W) (limit : ℕ) (timeout : ℤ) (s : Buffered W)
    (small : limit < 2 ^ 64) (few : length s.pool.busy < 2 ^ 64) (v : IsPool limit s.pool) where
  abbrev answer : Result (Option (ℕ × List ℕ))
  answer = (rx.receive s.fd s.rx_buf_size timeout s.world).0

  finish-Receipt :
      (b : ℕ) (m : Result (Option (ℕ × List ℕ))) (t : Buffered W)
      → count b s.pool.busy ≡ 0
      → t.pool.busy ≡ s.pool.busy ++ b ∷ []
      → Receipt s m (finish rx b m t)
  finish-Receipt b (ok none) t z e =
      let lent_now : mem b t.pool.busy ≡ true = rw e (mem_last b s.pool.busy) in
      rw (drop_buffer_lem {A = Option ℕ} b (ok none) t lent_now)
        (nothing refl refl (λ a. returned b s.pool.busy t.pool.busy a e))
  finish-Receipt b (ok (some (n, bytes))) t z e = received b n bytes refl refl z e (ground arith)
  finish-Receipt b (err x) t z e =
      let lent_now : mem b t.pool.busy ≡ true = rw e (mem_last b s.pool.busy) in
      rw (drop_buffer_lem {A = Option ℕ} b (err x) t lent_now)
        (failed x refl (λ a. returned b s.pool.busy t.pool.busy a e))

  -- `Receive` on a pool in order, whose limit and lent buffers fit a `size_t`, throws or has nothing
  -- and leaves no buffer lent that was not, or lends one more buffer that holds the bytes received.
  pub receive-Receipt : Receipt s answer (receive rx timeout s)
  unfolding receive
  receive-Receipt = elim (get-Got limit s.pool small few v) [
    | lent b e z busy clean ↦ rw e (finish-Receipt b answer _ z busy)
    | exhausted e some_limit full ↦ rw e (failed (runtime_error "out of buffers") refl (λ a. refl))
  ]

-- The same for a receive without a timeout: it throws and every buffer is where it was, or it lends
-- one more buffer, which holds the bytes that the socket returned.
pub data ReceiptNow {W : Type 0} (s : Buffered W) (m : Result (ℕ × List ℕ))
    (r : Result ℕ × Buffered W) : Type 0 where
  failed_now :
      (e : Error)
      → (m ≡ err e) ⊎ (e ≡ runtime_error "out of buffers")
      → r.0 ≡ err e
      → SameLent s.pool r.1.pool
      → ReceiptNow s m r
  received_now :
      (b n : ℕ) (bytes : List ℕ)
      → m ≡ ok (n, bytes)
      → r.0 ≡ ok b
      → count b s.pool.busy ≡ 0
      → r.1.pool.busy ≡ s.pool.busy ++ b ∷ []
      → r.1.pool.content b ≡ resize n bytes
      → ReceiptNow s m r

-- What the socket answers to a receive without a timeout.
abbrev pub answer_now : {W : Type 0} → Receiver W → Buffered W → Result (ℕ × List ℕ)
answer_now rx s = (rx.receive_now s.fd s.rx_buf_size s.world).0

module _ {W : Type 0} (rx : Receiver W) (limit : ℕ) (s : Buffered W) (small : limit < 2 ^ 64)
    (few : length s.pool.busy < 2 ^ 64) (v : IsPool limit s.pool) where
  finish_now-ReceiptNow :
      (b : ℕ) (m : Result (ℕ × List ℕ)) (t : Buffered W)
      → count b s.pool.busy ≡ 0
      → t.pool.busy ≡ s.pool.busy ++ b ∷ []
      → ReceiptNow s m (finish_now rx b m t)
  finish_now-ReceiptNow b (ok (n, bytes)) t z e =
      received_now b n bytes refl refl z e (ground arith)
  finish_now-ReceiptNow b (err x) t z e =
      let lent_now : mem b t.pool.busy ≡ true = rw e (mem_last b s.pool.busy) in
      rw (drop_buffer_lem {A = ℕ} b (err x) t lent_now)
        (failed_now x (inl refl) refl (λ a. returned b s.pool.busy t.pool.busy a e))

  pub receive_now-ReceiptNow : ReceiptNow s (answer_now rx s) (receive_now rx s)
  unfolding receive_now
  receive_now-ReceiptNow = elim (get-Got limit s.pool small few v) [
    | lent b e z busy clean ↦ rw e (finish_now-ReceiptNow b (answer_now rx s) _ z busy)
    | exhausted e some_limit full ↦
        rw e (failed_now (runtime_error "out of buffers") (inr refl) refl (λ a. refl))
  ]
