-- ===== src/Renewal/Windows/Placement.antt =====
-- What RenewalTime of pkg/util/pki/renewaltime.go returns.
use cert_manager.Common.{
  ◌≡◌, refl, subst, String, Option, none, some, List, [], ◌∷◌, ◌==◌, arith, Bool-cases, inl, inr,
  ◌⊎◌,
}
use mathlib.Core.List.{Memᴰ}
use cert_manager.Common.Int.{ℤ, ◌+ℤ◌, ◌-ℤ◌, ◌≤ℤ◌, ◌<ℤ◌}
use cert_manager.Renewal.Desired.{planned_renewal}
use cert_manager.Renewal.Windows.{
  Window, Renewal, find_before_desired, find_after_desired, choose_time, read_window, Reading,
  usable, unusable, windows_loop, apply_renew_before_with_windows, renewal_time,
}
use cert_manager.Renewal.Windows.Bounds.{Holds, find_before-Holds, find_after-Holds}

module _ (location : String → Option String) (cron_parse : String → String → Option (ℤ → ℤ)) where
  -- A time that a schedule of one of the windows gives, after the planned time, and not after the
  -- expiry by more than the window's duration.
  pub record IsStart (windows : List Window) (not_after planned t : ℤ) : Type 0 where
    pub window : Window
    pub member : Memᴰ window windows
    pub next : ℤ → ℤ
    pub duration : ℤ
    pub reading : read_window location cron_parse window ≡ usable next duration
    pub from : ℤ
    pub is_start : t ≡ next from
    pub after_planned : planned <ℤ t
    pub in_reach : t ≤ℤ not_after +ℤ duration

  abbrev pub IsPlaced : List Window → (not_after planned : ℤ) → ℤ → Type 0
  IsPlaced windows not_after planned t = (t ≡ planned) ⊎ IsStart windows not_after planned t

  choose-IsPlaced :
      (P : ℤ → Type 0) (desired : ℤ) (before after : Option ℤ)
      → P desired
      → Holds P before
      → Holds P after
      → Holds P (choose_time desired before after).0
  unfolding choose_time
  choose-IsPlaced P desired none none p h k = p
  choose-IsPlaced P desired none (some a) p h k = k
  choose-IsPlaced P desired (some b) after p h k = h

  loop-IsPlaced :
      (all : List Window) (not_before not_after desired : ℤ) (before after : Option ℤ)
      (ws : List Window)
      → ((w : Window) → Memᴰ w ws → Memᴰ w all)
      → Holds (IsPlaced all not_after desired) before
      → Holds (IsPlaced all not_after desired) after
      → Holds
          (IsPlaced all not_after desired)
          (windows_loop location cron_parse not_before not_after desired before after ws).0
  unfolding windows_loop
  loop-IsPlaced all nb na desired before after [] inc h k =
      choose-IsPlaced (IsPlaced all na desired) desired before after (inl refl) h k
  loop-IsPlaced all nb na desired before after (w ∷ ws) inc h k =
      by_reading (read_window location cron_parse w) refl (λ before' after' h' k'.
        loop-IsPlaced all nb na desired before' after' ws (λ v m. inc v (Memᴰ.tail m)) h' k')
    where
      by_reading :
          (r : Reading location cron_parse)
          → read_window location cron_parse w ≡ r
          → ((before' after' : Option ℤ)
              → Holds (IsPlaced all na desired) before'
              → Holds (IsPlaced all na desired) after'
              → Holds
                  (IsPlaced all na desired)
                  (windows_loop location cron_parse nb na desired before' after' ws).0)
          → Holds
              (IsPlaced all na desired)
              (windows_loop location cron_parse nb na desired before after (w ∷ ws)).0
      by_reading (unusable e) eq go = rw (eq, windows_loop) tt
      by_reading (usable next d) eq go =
          rw (eq, windows_loop)
            (go (find_before_desired next (nb -ℤ d) (na +ℤ d) desired before d)
              (find_after_desired next (nb -ℤ d) (na +ℤ d) desired after d)
              (find_before-Holds (IsPlaced all na desired) next (nb -ℤ d) (na +ℤ d) desired before d
                (inl refl) h)
              (find_after-Holds (IsPlaced all na desired) next (nb -ℤ d) (na +ℤ d) desired after d
                (inl refl)
                (λ x lt le. inr (record {
                  window = w;
                  member = inc w (Memᴰ.head refl);
                  next = next;
                  duration = d;
                  reading = eq;
                  from = x;
                  is_start = refl;
                  after_planned = lt;
                  in_reach = le;
                }))
                k))

  abbrev pub windows_of : Option Renewal → List Window
  windows_of none = []
  windows_of (some spec) = spec.windows

  apply-Holds :
      (nb na desired : ℤ) (ws : List Window)
      → Holds
          (IsPlaced ws na desired)
          (apply_renew_before_with_windows location cron_parse nb na desired ws).0
  unfolding apply_renew_before_with_windows
  apply-Holds nb na desired [] = inl refl
  apply-Holds nb na desired (w ∷ ws) =
      loop-IsPlaced (w ∷ ws) nb na desired none none (w ∷ ws) (λ v m. m) tt tt

  renewal-Holds :
      (nb na : ℤ) (rb pct : Option ℤ) (spec : Option Renewal)
      → Holds
          (IsPlaced (windows_of spec) na (planned_renewal nb na rb pct))
          (renewal_time location cron_parse nb na rb pct spec).0
  unfolding renewal_time
  renewal-Holds nb na rb pct none = inl refl
  renewal-Holds nb na rb pct (some spec) = elim (Bool-cases (spec.policy == "Disabled")) [
    | inl e ↦ simp e tt
    | inr e ↦ elim (Bool-cases (spec.policy == "RenewBefore")) [
      | inl f ↦ simp (e, f) (apply-Holds nb na (planned_renewal nb na rb pct) spec.windows)
      | inr f ↦ simp (e, f) tt
    ]
  ]

  -- A time that RenewalTime returns, with an error or without, is the time planned from renewBefore
  -- and renewBeforePercentage, or a later start of one of the renewal windows that is not after the
  -- expiry by more than that window's duration. So it is never before the planned time.
  pub renewal_time-IsPlaced :
      (not_before not_after : ℤ) (rb pct : Option ℤ) (spec : Option Renewal) (t : ℤ)
      → (renewal_time location cron_parse not_before not_after rb pct spec).0 ≡ some t
      → IsPlaced (windows_of spec) not_after (planned_renewal not_before not_after rb pct) t
        × (planned_renewal not_before not_after rb pct ≤ℤ t)
  renewal_time-IsPlaced nb na rb pct spec t e =
      let placed : IsPlaced (windows_of spec) na (planned_renewal nb na rb pct) t =
        subst (Holds (IsPlaced (windows_of spec) na (planned_renewal nb na rb pct))) e
          (renewal-Holds nb na rb pct spec) in
      (placed, not_early placed)
    where
      not_early : {ws : List Window} {na planned t : ℤ} → IsPlaced ws na planned t → planned ≤ℤ t
      not_early (inl p) = rw p (omega arith)
      not_early (inr s) = omega (arith, s.after_planned)
