-- ===== src/Pool/Lending.antt =====
-- What `BufferPool` of src/socket_buffered.cpp promises its users, without its lists: which buffers are
-- lent, and that no more are than the limit.
use sockpuppet.Base.{
  ℕ, zero, suc, ◌+◌, ◌^◌, ◌<◌, ◌≡◌, refl, sym, subst, ap, ◌∙◌, Bool-cases, inl, inr, true, List, [],
  ◌∷◌, ◌++◌, length, length-append, ◌==◌, if◌then◌else◌, Result, ok, err, Error, runtime_error,
  logic_error, arith,
}
use sockpuppet.Base.Sequence.{
  mem, count, count-append, remove_first, any-mem, length-remove_first, count-remove_first,
  count-mem, count-absent,
}
use sockpuppet.Pool.{Pool, assign, preallocate, create, get, recycle}
use sockpuppet.Pool.Ownership.{
  IsPool, create-IsPool, get-IsPool, recycle-IsPool, recycle_lem, returned, recycle-lent, Got, lent,
  exhausted, get-Got,
}

-- What users do: take a buffer, write into one, give one back.
pub data Op : Type 0 where
  take_buffer : Op
  write : ℕ → List ℕ → Op
  give_back : ℕ → Op

-- What they see: the buffer with what it holds, that all went well, or an exception.
pub data Outcome : Type 0 where
  taken : ℕ → List ℕ → Outcome
  finished : Outcome
  thrown : Error → Outcome

abbrev pub taken_from : Result ℕ → Pool → Outcome
taken_from (ok b) p = taken b (p.content b)
taken_from (err e) p = thrown e

abbrev pub given : Result (Unit {0}) → Outcome
given (ok _) = finished
given (err e) = thrown e

unfoldable pub outcomes : List Op → Pool → List Outcome
unfolding get recycle
outcomes [] p = []
outcomes (take_buffer ∷ ops) p = let (r, p1) = get p in taken_from r p1 ∷ outcomes ops p1
outcomes (write b bytes ∷ ops) p =
    finished ∷ outcomes ops (record p { content = assign p.content b bytes })
outcomes (give_back b ∷ ops) p = let (r, p1) = recycle b p in given r ∷ outcomes ops p1

abbrev pub one_if : ℕ → ℕ → ℕ
one_if b a = if b == a then 1 else 0

-- The promise. `out` tells how often each buffer is lent, and `n` how many are.
pub data Lending (limit : ℕ) : (ℕ → ℕ) → ℕ → List Op → List Outcome → Type 0 where
  ends : (out : ℕ → ℕ) (n : ℕ) → Lending limit out n [] []
  takes :
      (out out' : ℕ → ℕ) (n b : ℕ) {ops : List Op} {os : List Outcome}
      → out b ≡ 0
      → ((0 < limit) → n < limit)
      → ((a : ℕ) → out' a ≡ out a + one_if b a)
      → Lending limit out' (suc n) ops os
      → Lending limit out n (take_buffer ∷ ops) (taken b [] ∷ os)
  all_lent :
      (out : ℕ → ℕ) (n : ℕ) {ops : List Op} {os : List Outcome}
      → 0 < limit
      → n ≡ limit
      → Lending limit out n ops os
      → Lending limit out n (take_buffer ∷ ops) (thrown (runtime_error "out of buffers") ∷ os)
  writes :
      (out : ℕ → ℕ) (n b : ℕ) (bytes : List ℕ) {ops : List Op} {os : List Outcome}
      → Lending limit out n ops os
      → Lending limit out n (write b bytes ∷ ops) (finished ∷ os)
  returns :
      (out out' : ℕ → ℕ) (n n' b : ℕ) {ops : List Op} {os : List Outcome}
      → out b ≡ 1
      → n ≡ suc n'
      → ((a : ℕ) → out a ≡ out' a + one_if b a)
      → Lending limit out' n' ops os
      → Lending limit out n (give_back b ∷ ops) (finished ∷ os)
  refused :
      (out : ℕ → ℕ) (n b : ℕ) {ops : List Op} {os : List Outcome}
      → out b ≡ 0
      → Lending limit out n ops os
      → Lending limit out n
          (give_back b ∷ ops)
          (thrown (logic_error "returned invalid buffer") ∷ os)

module _ (limit : ℕ) (small : limit < 2 ^ 64) where
  -- The rest of a run from any pool in order, with as many steps as still fit a `size_t`.
  abbrev Rest : List Op → Type 0
  Rest ops =
      (p : Pool)
      → IsPool limit p
      → length p.busy + length ops < 2 ^ 64
      → Lending limit (λ a. count a p.busy) (length p.busy) ops (outcomes ops p)

  snoc-count : (a b : ℕ) (xs : List ℕ) → count a (xs ++ b ∷ []) ≡ count a xs + one_if b a
  snoc-count a b xs = ground (arith, count-append a xs (b ∷ []))

  take_lent :
      (ops : List Op) (p q : Pool) (b : ℕ)
      → Rest ops
      → length p.busy + suc (length ops) < 2 ^ 64
      → IsPool limit q
      → count b p.busy ≡ 0
      → q.busy ≡ p.busy ++ b ∷ []
      → q.content b ≡ []
      → Lending limit
          (λ a. count a p.busy)
          (length p.busy)
          (take_buffer ∷ ops)
          (taken b (q.content b) ∷ outcomes ops q)
  take_lent ops p q b ih few u free e empty =
      let grown : length q.busy ≡ suc (length p.busy) =
        omega (arith, ap length e, length-append p.busy (b ∷ [])) in
      subst
        (λ l.
          Lending limit (λ a. count a p.busy) (length p.busy) (take_buffer ∷ ops)
            (taken b l ∷ outcomes ops q))
        (sym empty)
        (takes (λ a. count a p.busy) (λ a. count a q.busy) (length p.busy) b free
          (λ h. omega (arith, u.limited h, grown)) (λ a. ap (count a) e ∙ snoc-count a b p.busy)
          (subst (λ n. Lending limit (λ a. count a q.busy) n ops (outcomes ops q)) grown
            (ih q u (omega (arith, few, grown)))))

  take-Lending :
      (ops : List Op) (p : Pool) (r : Result ℕ × Pool)
      → Rest ops
      → IsPool limit p
      → length p.busy + suc (length ops) < 2 ^ 64
      → IsPool limit r.1
      → Got limit p r
      → Lending limit
          (λ a. count a p.busy)
          (length p.busy)
          (take_buffer ∷ ops)
          (taken_from r.0 r.1 ∷ outcomes ops r.1)
  take-Lending ops p r ih v few u (lent b e free busy empty) =
      subst
        (λ (m : Result ℕ).
          Lending limit (λ a. count a p.busy) (length p.busy) (take_buffer ∷ ops)
            (taken_from m r.1 ∷ outcomes ops r.1))
        (sym e) (take_lent ops p r.1 b ih few u free busy empty)
  take-Lending ops p r ih v few u (exhausted e pos_limit full) =
      subst
        (λ (m : Result ℕ × Pool).
          Lending limit (λ a. count a p.busy) (length p.busy) (take_buffer ∷ ops)
            (taken_from m.0 m.1 ∷ outcomes ops m.1))
        (sym e)
        (all_lent (λ a. count a p.busy) (length p.busy) pos_limit full
          (ih p v (omega (arith, few))))

  give_lent :
      (ops : List Op) (p : Pool) (b : ℕ)
      → Rest ops
      → (v : IsPool limit p) → length p.busy + suc (length ops) < 2 ^ 64
      → (m : mem b p.busy ≡ true)
      → Lending limit
          (λ a. count a p.busy)
          (length p.busy)
          (give_back b ∷ ops)
          (finished ∷ outcomes ops (returned limit b p v m))
  give_lent ops p b ih v few m =
      let shrunk = length-remove_first (λ x. x == b) p.busy (any-mem b p.busy ∙ m) in
      returns (λ a. count a p.busy) (λ a. count a (remove_first (λ x. x == b) p.busy))
        (length p.busy) _ b (omega (arith, v.once b, count-mem b p.busy m)) (omega (arith, shrunk))
        (λ a. sym (count-remove_first a b p.busy m))
        (ih (returned limit b p v m)
          (subst (IsPool limit)
            (ap (λ (r : Result (Unit {0}) × Pool). r.1) (recycle-lent limit b p v m))
            (recycle-IsPool limit b p v))
          (omega (arith, few, shrunk)))

  give-Lending :
      (ops : List Op) (p : Pool) (b : ℕ)
      → Rest ops
      → IsPool limit p
      → length p.busy + suc (length ops) < 2 ^ 64
      → Lending limit
          (λ a. count a p.busy)
          (length p.busy)
          (give_back b ∷ ops)
          (given (recycle b p).0 ∷ outcomes ops (recycle b p).1)
  give-Lending ops p b ih v few = elim (Bool-cases (mem b p.busy)) [
    | inl m ↦ rw (recycle-lent limit b p v m) (give_lent ops p b ih v few m)
    | inr m ↦
        rw (recycle_lem b p, m)
          (refused (λ a. count a p.busy) (length p.busy) b (count-absent b p.busy m)
            (ih p v (omega (arith, few))))
  ]

  written-IsPool :
      (b : ℕ) (bytes : List ℕ) (p : Pool)
      → IsPool limit p
      → IsPool limit (record p { content = assign p.content b bytes })
  written-IsPool b bytes p v = record {
    once = v.once;
    fresh = v.fresh;
    limited = v.limited;
    max_count_lem = v.max_count_lem;
  }

  outcomes-Lending : (ops : List Op) → Rest ops
  unfolding outcomes
  outcomes-Lending [] p v few = ends (λ a. count a p.busy) (length p.busy)
  outcomes-Lending (take_buffer ∷ ops) p v few =
      take-Lending ops p (get p) (outcomes-Lending ops) v few (get-IsPool limit small p v)
        (get-Got limit p small (omega (arith, few)) v)
  outcomes-Lending (write b bytes ∷ ops) p v few =
      writes (λ a. count a p.busy) (length p.busy) b bytes
        (outcomes-Lending ops (record p { content = assign p.content b bytes })
          (written-IsPool b bytes p v) (omega (arith, few)))
  outcomes-Lending (give_back b ∷ ops) p v few = give-Lending ops p b (outcomes-Lending ops) v few

  none_lent : (n reserve : ℕ) (p : Pool) → (preallocate n reserve p).busy ≡ p.busy
  unfolding preallocate
  none_lent zero reserve p = refl
  none_lent (suc n) reserve p = none_lent n reserve _

  -- Whatever users do with a new pool whose limit fits a `size_t`, in less than 2^64 steps: each buffer
  -- that they get is empty and not lent already, and no more are ever lent than a limit allows; they get
  -- none, with an exception, just if a limited pool has lent all; a buffer that is lent is taken back,
  -- and any other is refused with an exception, after which all goes on as before.
  pub create-Lending :
      (reserve : ℕ) (ops : List Op)
      → length ops < 2 ^ 64
      → Lending limit (λ a. 0) 0 ops (outcomes ops (create limit reserve))
  unfolding create
  create-Lending reserve ops few =
      subst
        (λ l. Lending limit (λ a. count a l) (length l) ops (outcomes ops (create limit reserve)))
        (none_lent limit reserve _)
        (outcomes-Lending ops (create limit reserve) (create-IsPool limit reserve)
          (omega (arith, few, ap length (none_lent limit reserve _))))
