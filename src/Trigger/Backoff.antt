-- ===== src/Trigger/Backoff.antt =====
-- shouldBackoffReissuingOnFailure of pkg/controller/certificates/trigger/trigger_controller.go.
-- Times and durations are nanoseconds. The request and its comparison with the certificate's spec,
-- pki.RequestMatchesSpec, are parameters: `none` is an error, `some` the number of mismatches.
use cert_manager.Common.{
  ℕ, zero, suc, ◌*◌, ◌^◌, Bool, true, false, Option, none, some, ltb, eqb, if◌then◌else◌,
}
use cert_manager.Common.Int.{ℤ, pos, negsuc, ltb_ℤ, leb_ℤ, ◌-ℤ◌, to_int64}
use cert_manager.Renewal.Time.{time_sub, wrap64}

abbrev pub stop_increase_backoff : ℕ
stop_increase_backoff = 6

abbrev pub hour : ℕ
hour = 3600000000000

abbrev pub max_delay : ℕ
max_delay = 32 * hour

-- `time.Duration(math.Pow(2, float64(attempts-1)))`: one half is truncated to 0.
abbrev pub power : ℕ → ℕ
power zero = 0
power (suc k) = 2 ^ k

-- The delay before its two bounds; the product is an int64. Above `stop_increase_backoff` the source
-- computes a product whose conversion Go leaves open, and does not use it.
unfoldable pub base_delay : (initial_delay : ℕ) → Option ℕ → ℤ
base_delay initial_delay none = pos initial_delay
base_delay initial_delay (some attempts) =
    if ltb stop_increase_backoff attempts
    then pos max_delay
    else to_int64 (initial_delay * power attempts)

unfoldable pub backoff_delay : (initial_delay : ℕ) → Option ℕ → ℤ
unfolding base_delay
backoff_delay initial_delay attempts =
    let delay = base_delay initial_delay attempts in
    if ltb_ℤ delay (pos initial_delay) then pos initial_delay else delay

-- Whether the comparison with the next request rules a backoff out.
unfoldable pub skips_backoff {ℓ} : {R : Type ℓ} → (R → Option ℕ) → Option R → Bool
skips_backoff matches none = false
skips_backoff matches (some r) = elim (matches r) [ none ↦ true | some n ↦ ltb 0 n ]

-- The part after the comparison.
unfoldable pub remaining_backoff :
    (now last_failure : ℕ) → (initial_delay : ℤ) → Option ℕ → Bool × ℤ
unfolding backoff_delay ◌-ℤ◌ time_sub
remaining_backoff now last_failure (negsuc _) attempts = (false, pos 0)
remaining_backoff now last_failure (pos n) attempts =
    let since_failure = time_sub (pos now) (pos last_failure) in
    let delay = backoff_delay n attempts in
    if eqb n 0
    then (false, pos 0)
    else if leb_ℤ delay since_failure
    then (false, pos 0)
    else (true, wrap64 (delay -ℤ since_failure))

unfoldable pub should_backoff_reissuing_on_failure {ℓ} :
    {R : Type ℓ}
    → (request_matches_spec : R → Option ℕ) → (now : ℕ) → (last_failure_time : Option ℕ)
    → (failed_issuance_attempts : Option ℕ) → (next_request : Option R) → (initial_delay : ℤ)
    → Bool × ℤ
unfolding skips_backoff remaining_backoff
should_backoff_reissuing_on_failure matches now none attempts next initial_delay = (false, pos 0)
should_backoff_reissuing_on_failure matches now (some last) attempts next initial_delay =
    if skips_backoff matches next
    then (false, pos 0)
    else remaining_backoff now last initial_delay attempts
