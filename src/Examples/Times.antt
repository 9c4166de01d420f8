-- ===== src/Examples/Times.antt =====
-- Runs of the renewal time and of the backoff.
use cert_manager.Common.{
  ℕ, ◌+◌, ◌-◌, String, ◌≡◌, refl, true, false, Option, none, some, [], ◌∷◌, leb, if◌then◌else◌,
  arith,
}
use cert_manager.Common.Int.{ℤ, pos, ◌≤ℤ◌, ◌<ℤ◌, ◌+ℤ◌}
use cert_manager.Renewal.Time.{truncate}
use cert_manager.Renewal.Desired.{planned_renewal, percentage_overflow}
use cert_manager.Renewal.Windows.{
  Renewal, renewal_time, search_loop, read_window, find_before_desired, find_latest_window,
  find_after_desired,
}
use cert_manager.Renewal.Windows.Placement.{IsPlaced, renewal_time-IsPlaced}
use cert_manager.Renewal.Windows.Search.{search_loop-stops}
use cert_manager.Trigger.Backoff.{max_delay, backoff_delay, should_backoff_reissuing_on_failure}
use cert_manager.Trigger.Delays.{period, IsOutdated, should_backoff-exact, cap_exceeded}

-- Ninety days, from an hour after the zero time.
abbrev lifetime : ℕ
lifetime = 7776000000000000

abbrev start : ℕ
start = 3600000000000

-- Ten years, renewed at 30 percent.
percentage_overflow_example :
    truncate (pos (0 + 315360000000000000))
    ≤ℤ planned_renewal (pos 0) (pos (0 + 315360000000000000)) none (some (pos 30))
percentage_overflow_example =
    percentage_overflow 0 315360000000000000 30 (omega arith) (omega arith) (omega arith)
      (omega arith) (omega arith)

-- A schedule with one start, between the planned time and the expiry.
abbrev one_start : ℤ → ℤ
one_start t = pos 6000000000000000

abbrev in_window : Renewal
in_window = record {
  policy = "RenewBefore";
  windows =
      record { cron = "@monthly"; timezone = ""; window_duration = some (pos 60000000000) } ∷ [];
}

abbrev location : String → Option String
location name = some name

abbrev cron_parse : String → String → Option (ℤ → ℤ)
cron_parse cron zone = some one_start

renewal_time_run :
    (renewal_time location cron_parse (pos 0) (pos lifetime) none none (some in_window)).0
    ≡ some (pos 6000000000000000)
unfolding renewal_time read_window find_before_desired planned_renewal find_latest_window ◌+ℤ◌
    find_after_desired
renewal_time_run = refl

renewal_time-IsPlaced_example :
    IsPlaced location cron_parse in_window.windows
      (pos lifetime)
      (planned_renewal (pos 0) (pos lifetime) none none)
      (pos 6000000000000000)
    × (planned_renewal (pos 0) (pos lifetime) none none ≤ℤ pos 6000000000000000)
renewal_time-IsPlaced_example =
    renewal_time-IsPlaced location cron_parse (pos 0) (pos lifetime) none none (some in_window)
      (pos 6000000000000000) renewal_time_run

search_loop-stops_example :
    (r : ℤ) × ((k : ℕ)
      → search_loop one_start (pos lifetime) (k + 63) (pos 0) (pos 0 +ℤ pos lifetime) ≡ some r)
search_loop-stops_example =
    search_loop-stops one_start (pos lifetime) (pos 0) lifetime (omega arith)

should_backoff-exact_example :
    (should_backoff_reissuing_on_failure (λ (m : ℕ). some m) 4500 none (some 2) (some 0) (pos 1000)
      ≡ (false, pos 0))
    × ((r : ℕ)
        → IsOutdated (λ (m : ℕ). some m) r
        → should_backoff_reissuing_on_failure
            (λ (m : ℕ). some m)
            4500
            (some 4000)
            (some 2)
            (some r)
            (pos 1000)
          ≡ (false, pos 0))
    × (((r : ℕ) → ◌≡◌ {A = Option ℕ} (some 0) (some r) → ◌≡◌ {A = Option ℕ} (some r) (some 0))
        → should_backoff_reissuing_on_failure
            (λ (m : ℕ). some m)
            4500
            (some 4000)
            (some 2)
            (some 0)
            (pos 1000)
          ≡ (if leb (4000 + period 1000 (some 2)) 4500
              then (false, pos 0)
              else (true, pos (4000 + period 1000 (some 2) - 4500))))
should_backoff-exact_example =
    should_backoff-exact (λ (m : ℕ). some m) 4500 4000 1000 (some 2) (some 0) (omega arith)
      (omega arith) (omega arith)

-- Two hours.
cap_exceeded_example :
    (pos max_delay <ℤ backoff_delay 7200000000000 (some 6))
    × (backoff_delay 7200000000000 (some 7) <ℤ backoff_delay 7200000000000 (some 6))
cap_exceeded_example = cap_exceeded 7200000000000 (omega arith) (omega arith)
