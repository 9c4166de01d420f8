-- ===== src/Renewal/Windows.antt =====
-- RenewalTime of pkg/util/pki/renewaltime.go with its renewal windows. The location of a time zone
-- (`time.LoadLocation` and `String`) and a parsed cron expression's `Next` (util.CronParse) are
-- parameters. The error texts are constructors.
pub mod Bounds
pub mod Placement
pub mod Search
use cert_manager.Common.{
  ℕ, zero, suc, String, Bool, true, false, not, ◌&&◌, Option, none, some, List, [], ◌∷◌, ◌==◌,
  if◌then◌else◌,
}
use cert_manager.Common.Int.{ℤ, pos, ltb_ℤ, leb_ℤ, quot, ◌+ℤ◌, ◌-ℤ◌}
use cert_manager.Renewal.Time.{second, time_sub, truncate}
use cert_manager.Renewal.Desired.{planned_renewal}

pub record Window : Type 0 where
  pub cron : String
  pub timezone : String
  pub window_duration : Option ℤ

pub record Renewal : Type 0 where
  pub policy : String
  pub windows : List Window

pub data RenewalError : Type 0 where
  bad_timezone bad_cron bad_duration no_time unsupported_policy : RenewalError

-- The two results of the Go functions; the first is `none` for a nil pointer.
abbrev pub Outcome : Type 0
Outcome = Option ℤ × Option RenewalError

abbrev pub zero_time : ℤ
zero_time = pos 0

abbrev pub minus_second : ℤ → ℤ
minus_second t = t -ℤ pos second

-- The loop of bsFindLatestWindowBeforeDesired on fuel: the lower end when it stops, `none` when the fuel is
-- used up before.
unfoldable pub search_loop :
    (next : ℤ → ℤ) → (max_time : ℤ) → (fuel : ℕ) → (low high : ℤ) → Option ℤ
search_loop next max_time zero low high = none
search_loop next max_time (suc fuel) low high =
    let mid = low +ℤ quot (time_sub high low) 2 in
    elim (ltb_ℤ (pos second) (time_sub high low)) [
      | false ↦ some low
      | true ↦ elim (ltb_ℤ max_time (next mid)) [
        | true ↦ search_loop next max_time fuel low mid
        | false ↦ search_loop next max_time fuel mid high
      ]
    ]

-- A difference is at most 2^63, so 64 halvings bring one that is not clamped below a second; times
-- further apart than that need one more round for each 146 years.
abbrev pub search_fuel : ℕ
search_fuel = 256

-- The last start before the lower end that the search has found.
unfoldable pub last_start : (next : ℤ → ℤ) → (max_time : ℤ) → (low : Option ℤ) → Option ℤ
last_start next max_time none = none
last_start next max_time (some low) =
    let last = next (minus_second low) in if ltb_ℤ max_time last then none else some last

unfoldable pub find_latest_window : (next : ℤ → ℤ) → (min_time max_time : ℤ) → Option ℤ
unfolding search_loop last_start
find_latest_window next min_time max_time =
    let found =
      last_start next max_time (search_loop next max_time search_fuel min_time max_time) in
    if not (ltb_ℤ min_time max_time)
    then none
    else if ltb_ℤ max_time (next (minus_second min_time))
    then none
    else found

-- `!t.Before(start) && t.Before(end)`
abbrev pub lies_in : ℤ → ℤ → ℤ → Bool
lies_in start end t = not (ltb_ℤ t start) && ltb_ℤ t end

-- The later of the candidate and what was there; the earlier.
unfoldable pub later_of : ℤ → Option ℤ → Option ℤ
later_of c none = some c
later_of c (some b) = if ltb_ℤ b c then some c else some b

unfoldable pub earlier_of : ℤ → Option ℤ → Option ℤ
earlier_of c none = some c
earlier_of c (some b) = if ltb_ℤ c b then some c else some b

-- What findBeforeDesired does with the last start.
unfoldable pub add_before : (desired : ℤ) → Option ℤ → (duration : ℤ) → (best : Option ℤ) → Option ℤ
unfolding later_of
add_before desired none duration best = best
add_before desired (some start) duration best =
    let end = start +ℤ duration in
    let candidate = if lies_in start end desired then desired else end in
    if not (ltb_ℤ candidate desired) then later_of candidate best else best

unfoldable pub find_before_desired :
    (next : ℤ → ℤ) → (search_min search_max desired : ℤ) → Option ℤ → (duration : ℤ) → Option ℤ
unfolding add_before
find_before_desired next search_min search_max desired best duration =
    let before_max = if ltb_ℤ desired search_max then desired else search_max in
    if ltb_ℤ desired search_min
    then none
    else add_before desired (find_latest_window next search_min before_max) duration best

unfoldable pub find_after_desired :
    (next : ℤ → ℤ) → (search_min search_max desired : ℤ) → Option ℤ → (duration : ℤ) → Option ℤ
unfolding earlier_of
find_after_desired next search_min search_max desired best duration =
    let after_min = if ltb_ℤ search_min desired then desired else search_min in
    let start = next (minus_second after_min) in
    let candidate =
      if lies_in start (start +ℤ duration) desired
      then desired
      else if ltb_ℤ desired start
      then start
      else zero_time in
    let is_zero = leb_ℤ candidate zero_time && leb_ℤ zero_time candidate in
    if ltb_ℤ search_max start
    then none
    else if not is_zero && not (ltb_ℤ candidate desired)
    then earlier_of candidate best
    else best

-- The end of applyRenewBeforeWithWindows.
unfoldable pub choose_time : (desired : ℤ) → (best_before best_after : Option ℤ) → Outcome
choose_time desired (some b) best_after = (some b, none)
choose_time desired none (some a) = (some a, none)
choose_time desired none none = (some desired, some RenewalError.no_time)

module _ (location : String → Option String) (cron_parse : String → String → Option (ℤ → ℤ)) where
  -- The name of the window's time zone, UTC by default.
  unfoldable pub window_location : Window → Option String
  window_location w = if w.timezone == "" then some "UTC" else location w.timezone

  -- What one round takes from a window: its schedule and its duration, or an error.
  pub data Reading : Type 0 where
    usable : (ℤ → ℤ) → ℤ → Reading
    unusable : RenewalError → Reading

  unfoldable pub read_window : Window → Reading
  unfolding window_location
  read_window w = elim (window_location w) [
    | none ↦ unusable RenewalError.bad_timezone
    | some loc ↦ elim (cron_parse w.cron loc) [
      | none ↦ unusable RenewalError.bad_cron
      | some next ↦ elim w.window_duration [
        | none ↦ unusable RenewalError.bad_duration
        | some d ↦ if leb_ℤ d (pos 0) then unusable RenewalError.bad_duration else usable next d
      ]
    ]
  ]

  -- The loop of applyRenewBeforeWithWindows.
  unfoldable pub windows_loop :
      (not_before not_after desired : ℤ)
      → (best_before best_after : Option ℤ) → List Window
      → Outcome
  unfolding choose_time
  windows_loop not_before not_after desired before after [] = choose_time desired before after
  windows_loop not_before not_after desired before after (w ∷ ws) = elim (read_window w) [
    | unusable e ↦ (none, some e)
    | usable next d ↦
        windows_loop not_before not_after desired
          (find_before_desired next (not_before -ℤ d) (not_after +ℤ d) desired before d)
          (find_after_desired next (not_before -ℤ d) (not_after +ℤ d) desired after d) ws
  ]

  unfoldable pub apply_renew_before_with_windows :
      (not_before not_after desired : ℤ) → List Window → Outcome
  unfolding windows_loop
  apply_renew_before_with_windows not_before not_after desired [] = (some desired, none)
  apply_renew_before_with_windows not_before not_after desired (w ∷ ws) =
      windows_loop not_before not_after desired none none (w ∷ ws)

  unfoldable pub renewal_time :
      (not_before not_after : ℤ)
      → (renew_before renew_before_percentage : Option ℤ) → Option Renewal
      → Outcome
  unfolding apply_renew_before_with_windows
  renewal_time not_before not_after rb pct none =
      (some (planned_renewal not_before not_after rb pct), none)
  renewal_time not_before not_after rb pct (some spec) =
      if spec.policy == "Disabled"
      then (none, none)
      else if spec.policy == "RenewBefore"
      then apply_renew_before_with_windows not_before not_after
          (planned_renewal not_before not_after rb pct) spec.windows
      else (none, some RenewalError.unsupported_policy)
