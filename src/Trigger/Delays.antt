-- ===== src/Trigger/Delays.antt =====
-- The delays of shouldBackoffReissuingOnFailure in
-- pkg/controller/certificates/trigger/trigger_controller.go.
use cert_manager.Common.{
  ℕ, zero, suc, ◌+◌, ◌-◌, ◌*◌, ◌^◌, ◌≤◌, ◌<◌, ◌≡◌, refl, Bool, true, false, Option, none, some, ltb,
  leb, eqb, max, if◌then◌else◌, arith, ◌∙◌, ap, Bool-cases, inl, inr, ◌⊎◌,
}
use cert_manager.Common.Int.{ℤ, pos, leb_ℤ, ◌-ℤ◌, to_int64, ◌<ℤ◌}
use cert_manager.Renewal.Time.{time_sub, wrap64}
use cert_manager.Trigger.Backoff.{
  stop_increase_backoff, hour, max_delay, power, backoff_delay, skips_backoff, remaining_backoff,
  should_backoff_reissuing_on_failure,
}

-- The backoff period in plain numbers: doubled with each failure up to six, 32 hours from then on,
-- and never below the configured delay.
abbrev pub period : ℕ → Option ℕ → ℕ
period n none = n
period n (some a) = max n (if ltb stop_increase_backoff a then max_delay else n * power a)

power-le : (a : ℕ) → a ≤ 6 → power a ≤ 32
power-le zero h = omega arith
power-le (suc zero) h = omega arith
power-le (suc (suc zero)) h = omega arith
power-le (suc (suc (suc zero))) h = omega arith
power-le (suc (suc (suc (suc zero)))) h = omega arith
power-le (suc (suc (suc (suc (suc zero))))) h = omega arith
power-le (suc (suc (suc (suc (suc (suc zero)))))) h = omega arith
power-le (suc (suc (suc (suc (suc (suc (suc a))))))) h = absurd (omega arith)

to_int64_small : (m : ℕ) → m < 2 ^ 63 → to_int64 m ≡ pos m
to_int64_small m h = ground arith

product-le : (n m k : ℕ) → m ≤ k → n * m ≤ n * k
product-le n m k h = grind arith

backoff_delay-eq-period :
    (n : ℕ) (attempts : Option ℕ)
    → n * 32 < 2 ^ 63
    → backoff_delay n attempts ≡ pos (period n attempts)
unfolding backoff_delay
backoff_delay-eq-period n none h = ground arith
backoff_delay-eq-period n (some a) h = elim (Bool-cases (ltb stop_increase_backoff a)) [
  | inl over ↦ rw over (ground arith)
  | inr under ↦
      let small : n * power a < 2 ^ 63 =
        omega (arith, product-le n (power a) 32 (power-le a (ground arith))) in
      rw (under, to_int64_small (n * power a) small) (ground arith)
]

-- What is left of a period p that began at `last`.
time_left :
    (now last p : ℕ)
    → last + p < now + 2 ^ 63
    → p < 2 ^ 63
    → ◌≡◌ {A = Bool × ℤ}
        (if leb_ℤ (pos p) (time_sub (pos now) (pos last))
          then (false, pos 0)
          else (true, wrap64 (pos p -ℤ time_sub (pos now) (pos last))))
        (if leb (last + p) now then (false, pos 0) else (true, pos (last + p - now)))
unfolding time_sub ◌-ℤ◌
time_left now last p h k = ground arith

period-small : (n : ℕ) (attempts : Option ℕ) → n * 32 < 2 ^ 63 → period n attempts < 2 ^ 63
period-small n none h = omega arith
period-small n (some a) h = elim (Bool-cases (ltb stop_increase_backoff a)) [
  | inl over ↦ rw over (omega arith)
  | inr under ↦ rw under (omega (arith, product-le n (power a) 32 (power-le a (ground arith))))
]

remaining_eq :
    (now last n : ℕ) (attempts : Option ℕ)
    → 0 < n
    → n * 32 < 2 ^ 63
    → last + period n attempts < now + 2 ^ 63
    → remaining_backoff now last (pos n) attempts ≡ (
        if leb (last + period n attempts) now
        then (false, pos 0)
        else (true, pos (last + period n attempts - now)))
unfolding remaining_backoff
remaining_eq now last n attempts h k soon =
    let some_delay : eqb n 0 ≡ false = ground arith in
    rw (backoff_delay-eq-period n attempts k, some_delay, remaining_backoff)
      (time_left now last (period n attempts) soon (period-small n attempts k))

-- The next request cannot be decoded or differs from the spec.
abbrev pub IsOutdated {ℓ} : {R : Type ℓ} → (R → Option ℕ) → R → Type 0
IsOutdated matches r = (matches r ≡ none) ⊎ ((k : ℕ) × (matches r ≡ some (suc k)))

skips-outdated {ℓ} :
    {R : Type ℓ} (matches : R → Option ℕ) (r : R)
    → IsOutdated matches r
    → skips_backoff matches (some r) ≡ true
unfolding skips_backoff
skips-outdated matches r (inl e) = rw (e, skips_backoff) refl
skips-outdated matches r (inr (k, e)) = rw (e, skips_backoff) (ground arith)

skips-current {ℓ} :
    {R : Type ℓ} (matches : R → Option ℕ) (next : Option R)
    → ((r : R) → next ≡ some r → matches r ≡ some 0)
    → skips_backoff matches next ≡ false
unfolding skips_backoff
skips-current matches none h = refl
skips-current matches (some r) h = rw (h r refl, skips_backoff) refl

-- For a positive configured delay that stays below 2^63 ns when multiplied by 32, a certificate with no
-- recorded failure is not held back, nor is one whose next request cannot be decoded or differs from the
-- spec. One that failed, without a next request or with one that matches the spec, is held back exactly
-- until the period has passed since its last failure, and the answer comes with the time that is left,
-- provided that this time is below 2^63 ns.
pub should_backoff-exact {ℓ} :
    {R : Type ℓ} (matches : R → Option ℕ) (now last n : ℕ) (attempts : Option ℕ) (next : Option R)
    → 0 < n
    → n * 32 < 2 ^ 63
    → last + period n attempts < now + 2 ^ 63
    → (should_backoff_reissuing_on_failure matches now none attempts next (pos n) ≡ (false, pos 0))
      × ((r : R)
          → IsOutdated matches r
          → should_backoff_reissuing_on_failure matches now (some last) attempts (some r) (pos n)
            ≡ (false, pos 0))
      × (((r : R) → next ≡ some r → matches r ≡ some 0)
          → should_backoff_reissuing_on_failure matches now (some last) attempts next (pos n) ≡ (
              if leb (last + period n attempts) now
              then (false, pos 0)
              else (true, pos (last + period n attempts - now))))
unfolding should_backoff_reissuing_on_failure
should_backoff-exact matches now last n attempts next h k soon = (
  refl,
  λ r o. rw (skips-outdated matches r o) refl,
  λ same. rw (skips-current matches next same) (remaining_eq now last n attempts h k soon),
)

period_le : (n a : ℕ) → period n (some a) ≤ max (32 * n) max_delay
period_le n a = elim (Bool-cases (ltb stop_increase_backoff a)) [
  | inl over ↦ rw over (omega arith)
  | inr under ↦ rw under (omega (arith, product-le n (power a) 32 (power-le a (ground arith))))
]

period_double : (n a : ℕ) → 0 < a → a < 6 → period n (some (suc a)) ≡ 2 * period n (some a)
period_double n zero h k = absurd (omega arith)
period_double n (suc zero) h k = omega arith
period_double n (suc (suc zero)) h k = omega arith
period_double n (suc (suc (suc zero))) h k = omega arith
period_double n (suc (suc (suc (suc zero)))) h k = omega arith
period_double n (suc (suc (suc (suc (suc zero))))) h k = omega arith
period_double n (suc (suc (suc (suc (suc (suc a)))))) h k = absurd (omega arith)

-- For a configured delay that stays below 2^63 ns when multiplied by 32, the backoff delay is at
-- least the configured delay and at most 32 times it or 32 hours, whichever is more, and it doubles
-- with each failure from the first to the sixth.
pub backoff_delay_bounds :
    (n a : ℕ)
    → n * 32 < 2 ^ 63
    → (d : ℕ) × (backoff_delay n (some a) ≡ pos d)
      × (n ≤ d)
      × (d ≤ max (32 * n) max_delay)
      × (0 < a → a < 6 → backoff_delay n (some (suc a)) ≡ pos (2 * d))
backoff_delay_bounds n a h = (
  period n (some a),
  backoff_delay-eq-period n (some a) h,
  ground arith,
  period_le n a,
  λ p q. backoff_delay-eq-period n (some (suc a)) h ∙ ap pos (period_double n a p q),
)

-- With a configured delay above one hour (and below 2^63 ns when multiplied by 32) the delay after
-- the sixth failure is above the 32 hours that are meant to be the maximum, and the delay after the
-- seventh is shorter than it.
pub cap_exceeded :
    (n : ℕ)
    → hour < n
    → n * 32 < 2 ^ 63
    → (pos max_delay <ℤ backoff_delay n (some 6))
      × (backoff_delay n (some 7) <ℤ backoff_delay n (some 6))
cap_exceeded n h k =
    rw (backoff_delay-eq-period n (some 6) k, backoff_delay-eq-period n (some 7) k)
      (omega arith, omega arith)
