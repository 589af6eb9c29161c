-- ===== src/Wait/Time.antt =====
-- What the deadlines of src/wait.h and the conversions of src/wait.cpp keep of a timeout.
use sockpuppet.Base.{
  ℕ, zero, suc, ap, refl, ◌-◌, ◌/◌, ◌+◌, ◌*◌, ◌^◌, ◌≤◌, ◌<◌, ◌≡◌, ◌⊎◌, inl, inr, Bool-cases, true,
  arith, Bool-cases,
}
use sockpuppet.Base.Int.{
  ℤ, pos, negsuc, ◌+ℤ◌, ◌-ℤ◌, ◌≤ℤ◌, ◌<ℤ◌, ltb_ℤ, pos_part, +ℤ_parts, -ℤ_parts, sign_parts,
  ltb_ℤ-false,
}
use sockpuppet.Wait.{
  ns_per_ms, to_ns, negate, duration_cast, clip, limited, limited_at, time_left, remaining, tick_at,
  to_msec,
}

clip-negate : (k : ℕ) → clip (negate k) ≡ pos 0
clip-negate zero = ground arith
clip-negate (suc k) = ground arith

clip-duration_cast : (z : ℤ) → clip (duration_cast z) ≡ pos (pos_part z / ns_per_ms)
unfolding duration_cast
clip-duration_cast (pos n) = ground arith
clip-duration_cast (negsuc n) = clip-negate ((n + 1) / ns_per_ms)

-- `remaining` of a limited deadline, by the nanoseconds left.
pub remaining_limited :
    (now deadline : ℤ)
    → remaining (limited now deadline) ≡ pos (pos_part (deadline -ℤ now) / ns_per_ms)
unfolding remaining
remaining_limited now deadline = clip-duration_cast (deadline -ℤ now)

-- The time that is left of a limited deadline is never negative, so it never reads as unlimited, and
-- it is zero once the deadline has passed.
pub remaining_nonneg :
    (now deadline : ℤ)
    → (pos 0 ≤ℤ remaining (limited now deadline))
      × ((time_left (limited now deadline) ≡ true) ⊎ (remaining (limited now deadline) ≡ pos 0))
unfolding time_left
remaining_nonneg now deadline = rw (remaining_limited now deadline) (
  omega arith,
  elim (Bool-cases (ltb_ℤ now deadline)) [
    | inl early ↦ inl early
    | inr late ↦ inr (
        ap pos (
          omega (
            arith,
            ltb_ℤ-false now deadline late,
            -ℤ_parts deadline now,
            sign_parts (deadline -ℤ now),
          )))
  ],
)

-- At any time from its start on, what a deadline of `n` milliseconds reports as left is neither
-- negative nor more than `n`. Until the deadline it is the whole milliseconds up to it: sleeping for
-- them does not pass it, and for one more does. Behind it there is nothing left, and just then or at
-- the deadline itself there is no time left.
pub remaining_bounds :
    (start now : ℤ) (n : ℕ)
    → start ≤ℤ now
    → let d = tick_at now (limited_at start (pos n)) in
      let end = start +ℤ to_ns (pos n) in
      (pos 0 ≤ℤ remaining d)
      × (remaining d ≤ℤ pos n)
      × (now ≤ℤ end
          → (now +ℤ to_ns (remaining d) ≤ℤ end)
            × (end <ℤ now +ℤ to_ns (remaining d) +ℤ to_ns (pos 1)))
      × (end <ℤ now → remaining d ≡ pos 0)
      × (time_left d ≡ ltb_ℤ now end)
unfolding limited_at tick_at time_left
remaining_bounds start now n h =
    let deadline = start +ℤ pos (n * ns_per_ms) in
    rw (remaining_limited now deadline) (
      omega arith,
      omega (arith, +ℤ_parts, -ℤ_parts, sign_parts (deadline -ℤ now)),
      λ early. (
        omega (arith, +ℤ_parts, -ℤ_parts, sign_parts (deadline -ℤ now)),
        omega (arith, +ℤ_parts, -ℤ_parts, sign_parts (deadline -ℤ now)),
      ),
      λ late. ap pos (omega (arith, +ℤ_parts, -ℤ_parts, sign_parts (deadline -ℤ now))),
      refl,
    )

-- A timeout that fits an `int` reaches `poll` unchanged.
pub to_msec_exact :
    (n : ℕ) → n < 2 ^ 31 → (to_msec (pos n) ≡ pos n) × (to_msec (negsuc n) ≡ negsuc n)
unfolding to_msec
to_msec_exact n h = ground arith

-- A timeout between 2^31 and 2^32 milliseconds is a negative one as an `int`.
pub to_msec-negative : (n : ℕ) → 2 ^ 31 ≤ n → n < 2 ^ 32 → (k : ℕ) × (to_msec (pos n) ≡ negsuc k)
unfolding to_msec
to_msec-negative n h k = (2 ^ 32 - 1 - n, ground arith)
