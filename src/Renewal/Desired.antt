-- ===== src/Renewal/Desired.antt =====
-- desiredRenewalTime of pkg/util/pki/renewaltime.go and what RenewalTime makes of it where there are
-- no renewal windows.
use cert_manager.Common.{
  ℕ, zero, suc, ◌+◌, ◌-◌, ◌*◌, ◌/◌, ◌%◌, ◌^◌, ◌≤◌, ◌<◌, ◌≡◌, ◌&&◌, Option, none, some, ltb,
  if◌then◌else◌, arith, Option-cases, inl, inr,
}
use cert_manager.Common.Int.{ℤ, pos, negsuc, ◌-ℤ◌, ◌≤ℤ◌, ltb_ℤ, quot}
use cert_manager.Renewal.Time.{second, time_sub, mul64, truncate}

-- `renewBeforePercentage != nil && *p > 0 && *p < 100`, with the number.
unfoldable pub valid_percentage : Option ℤ → Option ℕ
valid_percentage none = none
valid_percentage (some (negsuc _)) = none
valid_percentage (some (pos p)) = if ltb 0 p && ltb p 100 then some p else none

-- `renewBefore != nil && renewBefore.Duration > 0 && renewBefore.Duration < actualDuration`.
unfoldable pub valid_renew_before : ℤ → Option ℤ → Option ℤ
valid_renew_before actual none = none
valid_renew_before actual (some rb) = if ltb_ℤ (pos 0) rb && ltb_ℤ rb actual then some rb else none

unfoldable pub desired_renewal_time :
    (actual_duration : ℤ) → (renew_before renew_before_percentage : Option ℤ) → ℤ
unfolding valid_percentage valid_renew_before
desired_renewal_time actual renew_before percentage =
    elim (valid_renew_before actual renew_before) [
      | some rb ↦ rb
      | none ↦ elim (valid_percentage percentage) [
        | some p ↦ quot (mul64 actual p) 100
        | none ↦ quot actual 3
      ]
    ]

-- The time that RenewalTime computes before it looks at the renewal policy.
unfoldable pub planned_renewal :
    (not_before not_after : ℤ) → (renew_before renew_before_percentage : Option ℤ) → ℤ
unfolding ◌-ℤ◌ time_sub desired_renewal_time truncate
planned_renewal not_before not_after renew_before percentage =
    truncate
      (not_after -ℤ desired_renewal_time (time_sub not_after not_before) renew_before percentage)

-- A duration that is positive and, multiplied by a percentage, stays an int64.
mul_small : (n p : ℕ) → n * 100 < 2 ^ 63 → p < 100 → mul64 (pos n) p ≡ pos (n * p)
mul_small n p h k = let small : n * p ≤ n * 100 = grind arith in ground arith

portion-lt : (n p : ℕ) → 0 < n → p < 100 → n * p / 100 < n
portion-lt n p h k = let below : n * p + n ≤ n * 100 = grind arith in omega arith

valid_renew_before-lt :
    (n : ℕ) (rb : Option ℤ) {r : ℤ}
    → valid_renew_before (pos n) rb ≡ some r
    → (d : ℕ) × (r ≡ pos d) × (d < n)
unfolding valid_renew_before
valid_renew_before-lt n none e = cc
valid_renew_before-lt n (some (pos m)) e = (m, ground arith, ground arith)
valid_renew_before-lt n (some (negsuc m)) e = absurd (ground arith)

valid_percentage-lt : (pct : Option ℤ) {p : ℕ} → valid_percentage pct ≡ some p → p < 100
unfolding valid_percentage
valid_percentage-lt none e = cc
valid_percentage-lt (some (negsuc m)) e = cc
valid_percentage-lt (some (pos m)) e = ground arith

-- For a lifetime that is positive and stays below 2^63 ns when multiplied by 100, the time before
-- expiry is not negative and below the lifetime, whatever renewBefore and renewBeforePercentage are.
pub desired_renewal_time_bounds :
    (n : ℕ) (renew_before percentage : Option ℤ)
    → 0 < n
    → n * 100 < 2 ^ 63
    → (d : ℕ) × (desired_renewal_time (pos n) renew_before percentage ≡ pos d) × (d < n)
unfolding desired_renewal_time
desired_renewal_time_bounds n rb pct h k = elim (Option-cases (valid_renew_before (pos n) rb)) [
  | inr (r, e) ↦
      let (d, is, lt) = valid_renew_before-lt n rb e in (d, rw (e, desired_renewal_time) is, lt)
  | inl e ↦ elim (Option-cases (valid_percentage pct)) [
    | inr (p, f) ↦
        let p_lt = valid_percentage-lt pct f in
        (
          n * p / 100,
          rw (e, desired_renewal_time) (rw (f, desired_renewal_time) (rw (mul_small n p k p_lt))),
          portion-lt n p h p_lt,
        )
    | inl f ↦ (n / 3, rw (e, desired_renewal_time) (rw (f, desired_renewal_time)), omega arith)
  ]
]

time_sub_small : (t n : ℕ) → n * 100 < 2 ^ 63 → time_sub (pos (t + n)) (pos t) ≡ pos n
unfolding time_sub ◌-ℤ◌
time_sub_small t n h = ground arith

whole : (a b : ℕ) → a % second ≡ 0 → a ≤ b → a ≤ b - b % second
whole a b h k = omega arith

-- A certificate that is valid from a whole second t on, for a time that is positive and stays below
-- 2^63 ns when multiplied by 100, is planned to be renewed within its validity: at a whole second
-- that is not before t and not after the expiry.
pub planned_renewal_within :
    (t n : ℕ) (renew_before percentage : Option ℤ)
    → t % second ≡ 0
    → 0 < n
    → n * 100 < 2 ^ 63
    → (r : ℕ) × (planned_renewal (pos t) (pos (t + n)) renew_before percentage ≡ pos r)
      × (t ≤ r)
      × (r ≤ t + n)
      × (r % second ≡ 0)
unfolding planned_renewal truncate ◌-ℤ◌
planned_renewal_within t n rb pct w h k =
    let (d, is, lt) = desired_renewal_time_bounds n rb pct h k in
    let left = t + n - d in
    (
      left - left % second,
      rw (time_sub_small t n k, is) (ground arith),
      omega (arith, whole t left w (omega arith)),
      omega arith,
      omega arith,
    )

-- A time before expiry that is not positive puts the renewal at the expiry or later.
late : (m : ℕ) (d : ℤ) → d ≤ℤ pos 0 → truncate (pos m) ≤ℤ truncate (pos m -ℤ d)
unfolding truncate ◌-ℤ◌
late m (pos zero) h = ground arith
late m (pos (suc k)) h = absurd (omega arith)
late m (negsuc k) h = ground arith

time_sub_exact : (t n : ℕ) → n < 2 ^ 63 → time_sub (pos (t + n)) (pos t) ≡ pos n
unfolding time_sub ◌-ℤ◌
time_sub_exact t n h = ground arith

overflow_negative :
    (n p : ℕ)
    → 0 < p
    → p < 100
    → 2 ^ 63 ≤ n * p
    → n * p < 2 ^ 64
    → desired_renewal_time (pos n) none (some (pos p)) ≤ℤ pos 0
unfolding desired_renewal_time
overflow_negative n p a b d e = ground arith

-- Without renewBefore, for a lifetime n and a percentage p between 1 and 99 whose product n * p is at
-- least 2^63 and below 2^64, the product does not fit an int64 and the renewal is planned at or
-- after the second of the expiry.
pub percentage_overflow :
    (t n p : ℕ)
    → 0 < p
    → p < 100
    → n < 2 ^ 63
    → 2 ^ 63 ≤ n * p
    → n * p < 2 ^ 64
    → truncate (pos (t + n)) ≤ℤ planned_renewal (pos t) (pos (t + n)) none (some (pos p))
percentage_overflow t n p a b c d e = rw (planned_renewal_lem t n p c) (
    late (t + n) (desired_renewal_time (pos n) none (some (pos p))) (overflow_negative n p a b d e))
  where
    planned_renewal_lem :
        (t n p : ℕ)
        → n < 2 ^ 63
        → planned_renewal (pos t) (pos (t + n)) none (some (pos p))
          ≡ truncate (pos (t + n) -ℤ desired_renewal_time (pos n) none (some (pos p)))
    planned_renewal_lem t n p c = unfold planned_renewal in rw (time_sub_exact t n c)
