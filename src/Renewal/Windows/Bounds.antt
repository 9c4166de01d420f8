-- ===== src/Renewal/Windows/Bounds.antt =====
-- Where RenewalTime of pkg/util/pki/renewaltime.go may put a renewal, given renewal windows.
use cert_manager.Common.{
  ◌≡◌, refl, Bool, true, false, not, ◌&&◌, Option, none, some, if◌then◌else◌, arith, Bool-cases,
  inl, inr, subst, sym,
}
use cert_manager.Common.Int.{ℤ, ltb_ℤ, leb_ℤ, ◌+ℤ◌, ◌≤ℤ◌, ◌<ℤ◌, eq_of_parts}
use cert_manager.Renewal.Windows.{
  search_loop, search_fuel, last_start, find_latest_window, later_of, earlier_of, add_before,
  lies_in, find_before_desired, find_after_desired, minus_second, zero_time,
}

-- A property of a time that may not be there.
abbrev pub Holds : (ℤ → Type 0) → Option ℤ → Type 0
Holds P none = Unit
Holds P (some t) = P t

Holds-later_of :
    (P : ℤ → Type 0) (c : ℤ) (best : Option ℤ) → P c → Holds P best → Holds P (later_of c best)
unfolding later_of
Holds-later_of P c none h k = h
Holds-later_of P c (some b) h k = elim (Bool-cases (ltb_ℤ b c)) [ inl e ↦ rw e h | inr e ↦ rw e k ]

Holds-earlier_of :
    (P : ℤ → Type 0) (c : ℤ) (best : Option ℤ) → P c → Holds P best → Holds P (earlier_of c best)
unfolding earlier_of
Holds-earlier_of P c none h k = h
Holds-earlier_of P c (some b) h k = elim (Bool-cases (ltb_ℤ c b)) [
  | inl e ↦ rw e h
  | inr e ↦ rw e k
]

Holds-if :
    (P : ℤ → Type 0) (b : Bool) (x y : Option ℤ)
    → (b ≡ true → Holds P x)
    → Holds P y
    → Holds P (if b then x else y)
Holds-if P true x y f h = f refl
Holds-if P false x y f h = h

le_of_not_lt : (a b : ℤ) → ltb_ℤ a b ≡ false → b ≤ℤ a
le_of_not_lt a b h = ground arith

last_start-le :
    (next : ℤ → ℤ) (hi : ℤ) (low : Option ℤ) → Holds (λ s. s ≤ℤ hi) (last_start next hi low)
unfolding last_start
last_start-le next hi none = tt
last_start-le next hi (some low) = elim (Bool-cases (ltb_ℤ hi (next (minus_second low)))) [
  | inl e ↦ rw e tt
  | inr e ↦ rw e (le_of_not_lt hi (next (minus_second low)) e)
]

-- The start that the search finds is not after the upper end.
latest-le : (next : ℤ → ℤ) (lo hi : ℤ) → Holds (λ s. s ≤ℤ hi) (find_latest_window next lo hi)
unfolding find_latest_window
latest-le next lo hi =
    guarded (not (ltb_ℤ lo hi)) (ltb_ℤ hi (next (minus_second lo))) _
      (last_start-le next hi (search_loop next hi search_fuel lo hi))
  where
    guarded :
        (a b : Bool) (o : Option ℤ)
        → Holds (λ s. s ≤ℤ hi) o
        → Holds (λ s. s ≤ℤ hi) (if a then none else if b then none else o)
    guarded true b o h = tt
    guarded false true o h = tt
    guarded false false o h = h

candidate-eq :
    (desired start end : ℤ)
    → start ≤ℤ desired
    → ltb_ℤ (if lies_in start end desired then desired else end) desired ≡ false
    → (if lies_in start end desired then desired else end) ≡ desired
candidate-eq desired start end h k = elim (Bool-cases (lies_in start end desired)) [
  | inl e ↦ rw e
  | inr e ↦
      let k' : ltb_ℤ end desired ≡ false = rw e at k in
      rw e (eq_of_parts end desired (ground arith))
]

add_before-Holds :
    (P : ℤ → Type 0) (desired : ℤ) (start : Option ℤ) (d : ℤ) (best : Option ℤ)
    → P desired
    → Holds (λ s. s ≤ℤ desired) start
    → Holds P best
    → Holds P (add_before desired start d best)
unfolding add_before
add_before-Holds P desired none d best p l h = h
add_before-Holds P desired (some start) d best p l h =
    let candidate = if lies_in start (start +ℤ d) desired then desired else start +ℤ d in
    Holds-if P (not (ltb_ℤ candidate desired)) (later_of candidate best) best
      (λ e.
        Holds-later_of P candidate best
          (subst P (sym (candidate-eq desired start (start +ℤ d) l (ground arith))) p) h)
      h

-- What findBeforeDesired finds is the desired time itself.
pub find_before-Holds :
    (P : ℤ → Type 0) (next : ℤ → ℤ) (lo hi desired : ℤ) (best : Option ℤ) (d : ℤ)
    → P desired
    → Holds P best
    → Holds P (find_before_desired next lo hi desired best d)
unfolding find_before_desired
find_before-Holds P next lo hi desired best d p h =
    Holds-if P (ltb_ℤ desired lo) none
      (add_before desired (find_latest_window next lo (if ltb_ℤ desired hi then desired else hi)) d
        best)
      (λ e. tt)
      (add_before-Holds P desired
        (find_latest_window next lo (if ltb_ℤ desired hi then desired else hi)) d best p
        (below (find_latest_window next lo (if ltb_ℤ desired hi then desired else hi))
          (latest-le next lo (if ltb_ℤ desired hi then desired else hi)))
        h)
  where
    below :
        (o : Option ℤ)
        → Holds (λ s. s ≤ℤ (if ltb_ℤ desired hi then desired else hi)) o
        → Holds (λ s. s ≤ℤ desired) o
    below none l = tt
    below (some s) l = ground arith

-- What findAfterDesired finds is the desired time, or a later start that is not after the upper end.
pub find_after-Holds :
    (P : ℤ → Type 0) (next : ℤ → ℤ) (lo hi desired : ℤ) (best : Option ℤ) (d : ℤ)
    → P desired
    → ((x : ℤ) → desired <ℤ next x → next x ≤ℤ hi → P (next x))
    → Holds P best
    → Holds P (find_after_desired next lo hi desired best d)
unfolding find_after_desired
find_after-Holds P next lo hi desired best d p f h =
    let from = minus_second (if ltb_ℤ lo desired then desired else lo) in
    let start = next from in
    elim (Bool-cases (ltb_ℤ hi start)) [
      | inl out ↦ rw out tt
      | inr within ↦ rw within (elim (Bool-cases (lies_in start (start +ℤ d) desired)) [
        | inl inside ↦ rw inside (take desired p)
        | inr outside ↦ rw outside (elim (Bool-cases (ltb_ℤ desired start)) [
          | inl ahead ↦ rw ahead (take start (f from (ground arith) (le_of_not_lt hi start within)))
          | inr behind ↦ rw behind (skip)
        ])
      ])
    ]
  where
    take :
        (c : ℤ)
        → P c
        → Holds P (
            if not (leb_ℤ c zero_time && leb_ℤ zero_time c) && not (ltb_ℤ c desired)
            then earlier_of c best
            else best)
    take c pc =
        Holds-if P (not (leb_ℤ c zero_time && leb_ℤ zero_time c) && not (ltb_ℤ c desired))
          (earlier_of c best) best (λ e. Holds-earlier_of P c best pc h) h

    skip : Holds P (
        if not (leb_ℤ zero_time zero_time && leb_ℤ zero_time zero_time)
          && not (ltb_ℤ zero_time desired)
        then earlier_of zero_time best
        else best)
    skip = h
