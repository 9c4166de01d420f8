-- ===== src/Renewal/Windows/Search.antt =====
-- The binary search of bsFindLatestWindowBeforeDesired in pkg/util/pki/renewaltime.go ends within the
-- fuel that the model gives it.
use cert_manager.Common.{
  ℕ, zero, suc, ◌+◌, ◌-◌, ◌*◌, ◌/◌, ◌^◌, ◌≤◌, ◌<◌, ◌≡◌, ap, ◌∙◌, true, false, some, arith,
  Bool-cases, inl, inr, ltb,
}
use cert_manager.Common.Int.{ℤ, pos, ltb_ℤ, quot, ◌+ℤ◌, ◌-ℤ◌, int_laws}
use cert_manager.Renewal.Time.{second, time_sub}
use cert_manager.Renewal.Windows.{search_loop}

distance : (low : ℤ) (n : ℕ) → n < 2 ^ 63 → time_sub (low +ℤ pos n) low ≡ pos n
unfolding time_sub
distance low n h = let e : low +ℤ pos n -ℤ low ≡ pos n = omega int_laws in rw e (ground arith)

regroup : (low : ℤ) (m k : ℕ) → low +ℤ pos m +ℤ pos k ≡ low +ℤ pos (m + k)
regroup low m k = omega int_laws

abbrev middle : ℤ → ℕ → ℤ
middle low n = low +ℤ pos (n / 2)

midpoint :
    (low : ℤ) (n : ℕ) → n < 2 ^ 63 → low +ℤ quot (time_sub (low +ℤ pos n) low) 2 ≡ middle low n
midpoint low n k = rw (distance low n k)

far_ends : (n : ℕ) → ltb second n ≡ true → ltb_ℤ (pos second) (pos n) ≡ true
far_ends n e = ground arith

-- One round, from ends at a distance n.
round_stop :
    (next : ℤ → ℤ) (m : ℤ) (f : ℕ) (low : ℤ) (n : ℕ)
    → n < 2 ^ 63
    → ltb second n ≡ false
    → search_loop next m (suc f) low (low +ℤ pos n) ≡ some low
unfolding search_loop
round_stop next m f low n k e =
    let near : ltb_ℤ (pos second) (pos n) ≡ false = ground arith in
    rw (distance low n k, near, search_loop)

round_down :
    (next : ℤ → ℤ) (m : ℤ) (f : ℕ) (low : ℤ) (n : ℕ)
    → n < 2 ^ 63
    → ltb second n ≡ true
    → ltb_ℤ m (next (middle low n)) ≡ true
    → search_loop next m (suc f) low (low +ℤ pos n) ≡ search_loop next m f low (middle low n)
unfolding search_loop
round_down next m f low n k e g =
    let far' : ltb_ℤ (pos second) (time_sub (low +ℤ pos n) low) ≡ true =
      rw (distance low n k) (far_ends n e) in
    let g' : ltb_ℤ m (next (low +ℤ quot (time_sub (low +ℤ pos n) low) 2)) ≡ true =
      rw (midpoint low n k) g in
    rw (far', search_loop) (rw (g', search_loop) (rw (midpoint low n k)))

round_up :
    (next : ℤ → ℤ) (m : ℤ) (f : ℕ) (low : ℤ) (n : ℕ)
    → n < 2 ^ 63
    → ltb second n ≡ true
    → ltb_ℤ m (next (middle low n)) ≡ false
    → search_loop next m (suc f) low (low +ℤ pos n)
      ≡ search_loop next m f (middle low n) (middle low n +ℤ pos (n - n / 2))
unfolding search_loop
round_up next m f low n k e g =
    let far' : ltb_ℤ (pos second) (time_sub (low +ℤ pos n) low) ≡ true =
      rw (distance low n k) (far_ends n e) in
    let g' : ltb_ℤ m (next (low +ℤ quot (time_sub (low +ℤ pos n) low) 2)) ≡ false =
      rw (midpoint low n k) g in
    let same : middle low n +ℤ pos (n - n / 2) ≡ low +ℤ pos n =
      regroup low (n / 2) (n - n / 2) ∙ ap (λ t. low +ℤ pos t) (omega arith) in
    rw same (rw (far', search_loop) (rw (g', search_loop) (rw (midpoint low n k))))

pow_double : (f : ℕ) → 2 ^ suc f ≡ 2 * 2 ^ f
pow_double f = ground arith

-- What the loop returns with any fuel from `fuel` on.
abbrev Stops : (ℤ → ℤ) → (m : ℤ) → (fuel : ℕ) → (low high : ℤ) → Type 0
Stops next m fuel low high = (r : ℤ) × ((k : ℕ) → search_loop next m (k + fuel) low high ≡ some r)

shift : (k f : ℕ) → k + suc f ≡ suc (k + f)
shift k f = omega arith

-- With one round more than the distance has halvings it stops.
search_loop-Stops :
    (next : ℤ → ℤ) (m : ℤ) (f : ℕ) (low : ℤ) (n : ℕ)
    → n ≤ 2 ^ suc f
    → n < 2 ^ 63
    → Stops next m (suc f) low (low +ℤ pos n)
search_loop-Stops next m zero low n h k =
    (low, λ j. rw (shift j 0) (round_stop next m (j + 0) low n k (ground arith)))
search_loop-Stops next m (suc f) low n h k = elim (Bool-cases (ltb second n)) [
  | inr near ↦ (low, λ j. rw (shift j (suc f)) (round_stop next m (j + suc f) low n k near))
  | inl far ↦ elim (Bool-cases (ltb_ℤ m (next (middle low n)))) [
    | inl down ↦
        let (r, e) =
          search_loop-Stops next m f low (n / 2) (omega (arith, pow_double (suc f)))
            (omega arith) in
        (r, λ j. rw (shift j (suc f)) (round_down next m (j + suc f) low n k far down ∙ e j))
    | inr up ↦
        let (r, e) =
          search_loop-Stops next m f (middle low n) (n - n / 2) (omega (arith, pow_double (suc f)))
            (omega arith) in
        (r, λ j. rw (shift j (suc f)) (round_up next m (j + suc f) low n k far up ∙ e j))
  ]
]

-- For ends less than 2^63 ns apart the binary search stops within 63 rounds, and what it returns is the same
-- for any more rounds that it may take.
pub search_loop-stops :
    (next : ℤ → ℤ) (m low : ℤ) (n : ℕ)
    → n < 2 ^ 63
    → (r : ℤ) × ((k : ℕ) → search_loop next m (k + 63) low (low +ℤ pos n) ≡ some r)
search_loop-stops next m low n h = search_loop-Stops next m 62 low n (omega arith) h
