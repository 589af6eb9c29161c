-- ===== src/Pool/Ownership.antt =====
-- Who owns the buffers of the pool in src/socket_buffered.cpp: each is idle or lent once, and a limit
-- on their number holds.
use sockpuppet.Base.{
  ℕ, zero, suc, ◌+◌, ◌-◌, ◌%◌, ◌^◌, ◌≤◌, ◌<◌, ◌≡◌, refl, ap, ◌∙◌, inl, inr, true, false, List, [],
  ◌∷◌, ◌++◌, length, length-append, leb, ◌==◌, if◌then◌else◌, Result, ok, err, runtime_error,
  logic_error, arith, Bool-cases, le_refl,
}
use sockpuppet.Base.Sequence.{
  mem, count, count-append, remove_first, erase-find_if, find_if-end, any-mem, length-remove_first,
  count-remove_first, count-mem,
}
use sockpuppet.Pool.{Pool, preallocate, create, get, take_idle, allocate, recycle}

abbrev pub owned : ℕ → Pool → ℕ
owned a p = count a p.idle + count a p.busy

-- A pool created for `limit` buffers (0: without a limit).
pub record IsPool (limit : ℕ) (p : Pool) : Type 0 where
  pub once : (a : ℕ) → owned a p ≤ 1
  pub fresh : (a : ℕ) → p.next ≤ a → owned a p ≡ 0
  pub limited : (0 < limit) → length p.idle + length p.busy ≡ limit
  pub max_count_lem : p.max_count ≡ (limit + 2 ^ 64 - 1) % 2 ^ 64

preallocate-IsPool :
    (n limit reserve : ℕ) (p : Pool)
    → ((a : ℕ) → owned a p ≤ 1)
    → ((a : ℕ) → p.next ≤ a → owned a p ≡ 0)
    → length p.idle + length p.busy + n ≡ limit
    → p.max_count ≡ (limit + 2 ^ 64 - 1) % 2 ^ 64
    → IsPool limit (preallocate n reserve p)
unfolding preallocate
preallocate-IsPool zero limit reserve p o f l m = record {
  once = o;
  fresh = f;
  limited = λ _. omega arith;
  max_count_lem = m;
}
preallocate-IsPool (suc n) limit reserve p o f l m =
    preallocate-IsPool n limit reserve _ (λ a. ground (arith, o a, f p.next, f a))
      (λ a h. ground (arith, f a)) (omega arith) m

-- A new pool owns its buffers: as many as its limit, all idle, none twice.
pub create-IsPool : (limit reserve : ℕ) → IsPool limit (create limit reserve)
unfolding create
create-IsPool limit reserve =
    preallocate-IsPool limit limit reserve _ (λ a. omega arith) (λ a h. refl) (omega arith) refl

module _ (limit : ℕ) (small : limit < 2 ^ 64) where
  take_idle-IsPool :
      (idle : List ℕ) (p : Pool)
      → p.idle ≡ idle
      → IsPool limit p
      → IsPool limit (take_idle idle p).1
  unfolding take_idle
  take_idle-IsPool [] p e v = record {
    once = λ a.
        ground (arith, v.once a, v.fresh p.next, v.fresh a, count-append a p.busy (p.next ∷ []));
    fresh = λ a h. ground (arith, v.fresh a, count-append a p.busy (p.next ∷ []));
    limited = λ h. ground (arith, v.limited h, v.max_count_lem, ap length e);
    max_count_lem = ground (arith, v.max_count_lem);
  }
  take_idle-IsPool (b ∷ rest) p e v = record {
    once = λ a. ground (arith, v.once a, ap (count a) e, count-append a p.busy (b ∷ []));
    fresh = λ a h. ground (arith, v.fresh a, ap (count a) e, count-append a p.busy (b ∷ []));
    limited = λ h. omega (arith, v.limited h, ap length e, length-append p.busy (b ∷ []));
    max_count_lem = v.max_count_lem;
  }

  -- Lending a buffer, or failing to, keeps a pool in order whose limit fits a `size_t`.
  pub get-IsPool : (p : Pool) → IsPool limit p → IsPool limit (get p).1
  unfolding get
  get-IsPool p v = take_idle-IsPool p.idle p refl v

pub recycle_lem :
    (b : ℕ) (p : Pool)
    → recycle b p ≡ (
        if mem b p.busy
        then (ok tt, record p { idle = b ∷ p.idle; busy = remove_first (λ x. x == b) p.busy })
        else (err (logic_error "returned invalid buffer"), p))
unfolding recycle
recycle_lem b p =
    ground (
      arith,
      find_if-end (λ x. x == b) p.busy,
      any-mem b p.busy,
      erase-find_if (λ x. x == b) p.busy,
    )

-- Giving a buffer back, be it one of the pool's or not, keeps the pool in order.
pub recycle-IsPool : (limit b : ℕ) (p : Pool) → IsPool limit p → IsPool limit (recycle b p).1
recycle-IsPool limit b p v = rw (recycle_lem b p) (elim (Bool-cases (mem b p.busy)) [
  | inr e ↦ rw e v
  | inl e ↦ rw e (record {
    once = λ a. omega (arith, v.once a, count-remove_first a b p.busy e);
    fresh = λ a h. omega (arith, v.fresh a h, count-remove_first a b p.busy e);
    limited = λ h.
        omega (arith, v.limited h, length-remove_first (λ x. x == b) p.busy (any-mem b p.busy ∙ e));
    max_count_lem = v.max_count_lem;
  })
])

count_one : (b : ℕ) → count b (b ∷ []) ≡ 1
count_one b = ground arith

-- What `get` does: it lends a buffer that is empty, is not lent already and is lent from then on,
-- or throws because all the buffers of a limited pool are lent.
pub data Got (limit : ℕ) (p : Pool) (r : Result ℕ × Pool) : Type 0 where
  lent :
      (b : ℕ)
      → r.0 ≡ ok b
      → count b p.busy ≡ 0
      → r.1.busy ≡ p.busy ++ b ∷ []
      → r.1.content b ≡ []
      → Got limit p r
  exhausted :
      r ≡ (err (runtime_error "out of buffers"), p)
      → 0 < limit
      → length p.busy ≡ limit
      → Got limit p r

take_idle-Got :
    (limit : ℕ) (idle : List ℕ) (p : Pool)
    → limit < 2 ^ 64
    → length p.busy < 2 ^ 64
    → p.idle ≡ idle
    → IsPool limit p
    → Got limit p (take_idle idle p)
unfolding take_idle
take_idle-Got limit (b ∷ rest) p small few e v =
    lent b refl (ground (arith, v.once b, ap (count b) e)) refl (ground arith)
take_idle-Got limit [] p small few e v = elim (Bool-cases (leb (length p.busy) p.max_count)) [
  | inl t ↦
      rw (t, allocate)
        (lent p.next refl (omega (arith, v.fresh p.next (le_refl p.next))) refl (ground arith))
  | inr f ↦
      let some_limit : 0 < limit = ground (arith, v.max_count_lem) in
      rw (f, allocate)
        (exhausted refl some_limit (omega (arith, v.limited some_limit, ap length e)))
]

-- On a pool in order whose limit and lent buffers fit a `size_t`, `get` lends an empty buffer that is
-- not lent already, or throws, which it does only if all the buffers of a limited pool are lent.
pub get-Got :
    (limit : ℕ) (p : Pool)
    → limit < 2 ^ 64
    → length p.busy < 2 ^ 64
    → IsPool limit p
    → Got limit p (get p)
unfolding get
get-Got limit p small few v = take_idle-Got limit p.idle p small few refl v

module _ (limit b : ℕ) (p : Pool) (v : IsPool limit p) (m : mem b p.busy ≡ true) where
  abbrev rest : List ℕ
  rest = remove_first (λ x. x == b) p.busy

  abbrev pub returned : Pool
  returned = record p { idle = b ∷ p.idle; busy = rest }

  pub recycle-lent : recycle b p ≡ (ok tt, returned)
  recycle-lent = recycle_lem b p ∙ rw m

  rest-absent : mem b rest ≡ false
  rest-absent = elim (Bool-cases (mem b rest)) [
    | inr e ↦ e
    | inl e ↦
        absurd (
          omega (arith, v.once b, count-mem b rest e, count-remove_first b b p.busy m, count_one b))
  ]

-- A pool in order takes a lent buffer back once: giving it back a second time is an error that
-- changes nothing.
pub recycle-recycle :
    (limit b : ℕ) (p : Pool)
    → IsPool limit p
    → mem b p.busy ≡ true
    → let q = (recycle b p).1 in
      ((recycle b p).0 ≡ ok tt) × (recycle b q ≡ (err (logic_error "returned invalid buffer"), q))
recycle-recycle limit b p v m =
    rw (recycle-lent limit b p v m)
      (refl, recycle_lem b (returned limit b p v m) ∙ rw (rest-absent limit b p v m))

-- In a pool in order, the lent buffer given back last is the one lent next, emptied, and the other buffers are lent as before.
pub get-recycle :
    (limit b : ℕ) (p : Pool)
    → IsPool limit p
    → mem b p.busy ≡ true
    → let r = get (recycle b p).1 in
      (r.0 ≡ ok b)
      × (r.1.content b ≡ [])
      × (r.1.idle ≡ p.idle)
      × ((a : ℕ) → count a r.1.busy ≡ count a p.busy)
unfolding get
get-recycle limit b p v m = rw (recycle-lent limit b p v m) (
  refl,
  ground arith,
  refl,
  λ a.
      ground (arith, count-append a (rest limit b p v m) (b ∷ []), count-remove_first a b p.busy m),
)
