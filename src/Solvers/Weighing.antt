-- ===== src/Solvers/Weighing.antt =====
-- How specific a solver's selector is for a domain, described without the loops of
-- pkg/controller/acmeorders/selectors.
use cert_manager.Common.{
  ℕ, ◌≤◌, ◌<◌, String, ◌≡◌, refl, sym, ap, subst, Bool, true, ◌&&◌, Option, none, some, List, [],
  ◌∷◌, some_injective, ltb, eqb, ◌==◌, arith, Bool-cases, Option-cases, ◌⊎◌, inl, inr, All, any,
  length,
}
use cert_manager.Solvers.Picker.{
  Selector, Solver, AcmeChallenge, DomainNames, labels_match, dns_names_match, dns_zones_match,
  max_zone_labels, challenge_for_solver,
}
use cert_manager.Solvers.Rounds
use cert_manager.Solvers.Rounds.{Weight, weigh, one_if}
use cert_manager.Solvers.Usable.{
  Any, Any-All, IsOffered, challenge_for_solver-IsOffered, IsOffered-challenge_for_solver,
  IsLabelled, labels_sound, labels_complete,
}

any-Any : {A : Type 0} (p : A → Bool) (xs : List A) → any p xs ≡ true → Any (λ x. p x ≡ true) xs
any-Any p [] h = absurd (ground arith)
any-Any p (x ∷ xs) h = elim (Bool-cases (p x)) [
  | inl e ↦ inl e
  | inr e ↦ inr (any-Any p xs (ground arith))
]

Any-any : {A : Type 0} (p : A → Bool) (xs : List A) → Any (λ x. p x ≡ true) xs → any p xs ≡ true
Any-any p [] h = absurd h
Any-any p (x ∷ xs) (inl e) = rw e refl
Any-any p (x ∷ xs) (inr h) = let ih = Any-any p xs h in ground arith

-- The names of a selector: none at all, or the domain is one of them.
abbrev pub IsNamed : (names : List String) → (domain : String) → (weight : ℕ) → Type 0
IsNamed names domain n =
    ((names ≡ []) × (n ≡ 0)) ⊎ (Any (λ name. (name == domain) ≡ true) names × (n ≡ 1))

dns_names_match-IsNamed :
    (names : List String) (domain : String)
    → (dns_names_match names domain).0 ≡ true
    → IsNamed names domain (dns_names_match names domain).1
unfolding dns_names_match
dns_names_match-IsNamed [] domain h = inl (refl, refl)
dns_names_match-IsNamed (x ∷ xs) domain h = elim (Bool-cases (any (λ a. a == domain) (x ∷ xs))) [
  | inl e ↦ inr (any-Any (λ a. a == domain) (x ∷ xs) e, ground arith)
  | inr e ↦ absurd (ground arith)
]

named_complete :
    (names : List String) (domain : String) (n : ℕ)
    → IsNamed names domain n
    → dns_names_match names domain ≡ (true, n)
unfolding dns_names_match
named_complete [] domain n (inl (e, h)) = ap (λ k. (true, k)) (sym h)
named_complete [] domain n (inr (a, h)) = absurd a
named_complete (x ∷ xs) domain n (inl (e, h)) = absurd (ground arith)
named_complete (x ∷ xs) domain n (inr (a, h)) =
    rw (Any-any (λ a. a == domain) (x ∷ xs) a) (ap (λ k. (true, k)) (sym h))

module _ (d : DomainNames) (domain : String) where
  -- All labels of the zone end the domain.
  abbrev pub IsZone : String → Type 0
  IsZone zone = d.compare_domain_name zone domain ≡ d.count_label zone

  -- The zones of a selector: none at all, or the number of labels of the longest zone of the domain.
  abbrev pub IsZoned : (zones : List String) → (weight : ℕ) → Type 0
  IsZoned zones n =
      ((zones ≡ []) × (n ≡ 0))
      ⊎ ((0 < n)
          × Any (λ z. IsZone z × (d.count_label z ≡ n)) zones
          × All (λ z. IsZone z → d.count_label z ≤ n) zones)

  -- The maximum that the loop returns from `most` on.
  record IsMax (most : ℕ) (zones : List String) (n : ℕ) : Type 0 where
    above : most ≤ n
    bound : All (λ z. IsZone z → d.count_label z ≤ n) zones
    attained : (n ≡ most) ⊎ Any (λ z. IsZone z × (d.count_label z ≡ n)) zones

  max_zone_labels-IsMax :
      (zones : List String) (most : ℕ) → IsMax most zones (max_zone_labels d domain most zones)
  unfolding max_zone_labels
  max_zone_labels-IsMax [] most = record { above = omega arith; bound = tt; attained = inl refl }
  max_zone_labels-IsMax (z ∷ zs) most =
      let m = d.compare_domain_name z domain in
      let passes = eqb m (d.count_label z) && ltb most m in
      elim (Bool-cases passes) [
        | inl e ↦
            let ih = max_zone_labels-IsMax zs m in
            let lower = ih.above in
            rw e (record {
              above = ground arith;
              bound = (λ h. ground arith, ih.bound);
              attained = elim ih.attained [
                | inl q ↦ inr (inl (ground arith, ground arith))
                | inr q ↦ inr (inr q)
              ];
            })
        | inr e ↦
            let ih = max_zone_labels-IsMax zs most in
            let lower = ih.above in
            rw e (record {
              above = lower;
              bound = (λ h. ground arith, ih.bound);
              attained = elim ih.attained [ inl q ↦ inl q | inr q ↦ inr (inr q) ];
            })
      ]

  dns_zones_match-IsZoned :
      (zones : List String)
      → (dns_zones_match d zones domain).0 ≡ true
      → IsZoned zones (dns_zones_match d zones domain).1
  unfolding dns_zones_match
  dns_zones_match-IsZoned [] h = inl (refl, refl)
  dns_zones_match-IsZoned (z ∷ zs) h =
      let m = max_zone_labels-IsMax (z ∷ zs) 0 in
      inr (ground arith, elim m.attained [ inl q ↦ absurd (ground arith) | inr q ↦ q ], m.bound)

  zoned_complete :
      (zones : List String) (n : ℕ) → IsZoned zones n → dns_zones_match d zones domain ≡ (true, n)
  unfolding dns_zones_match
  zoned_complete [] n (inl (e, h)) = ap (λ k. (true, k)) (sym h)
  zoned_complete [] n (inr (p, a, b)) = absurd a
  zoned_complete (z ∷ zs) n (inl (e, h)) = absurd (ground arith)
  zoned_complete (z ∷ zs) n (inr (p, a, b)) =
      let m = max_zone_labels-IsMax (z ∷ zs) 0 in
      let (y, is, most) = Any-All _ _ (z ∷ zs) a m.bound in
      let low : n ≤ max_zone_labels d domain 0 (z ∷ zs) =
        subst (λ k. k ≤ max_zone_labels d domain 0 (z ∷ zs)) is.1 (most is.0) in
      let high : max_zone_labels d domain 0 (z ∷ zs) ≤ n = elim m.attained [
        | inl q ↦ omega arith
        | inr q ↦
            let (x, it, below) = Any-All _ _ (z ∷ zs) q b in subst (λ k. k ≤ n) it.1 (below it.0)
      ] in
      let same : max_zone_labels d domain 0 (z ∷ zs) ≡ n = omega (arith, low, high) in
      rw same (ground arith)

  module _ (labels : String → Option String) where
    -- A selector that matches, with how specific it is: whether it names the domain, the number of labels of its
    -- longest zone, and the number of labels that it requires.
    pub record IsSelected (sel : Selector) (w : Weight) : Type 0 where
      pub labelled : All (IsLabelled labels) sel.match_labels
      pub count : w.labels ≡ length sel.match_labels
      pub named : IsNamed sel.dns_names domain w.names
      pub zoned : IsZoned sel.dns_zones w.zones

    -- A solver without a selector matches every domain, and is the least specific.
    pub data IsWeighed : Option Selector → Weight → Type 0 where
      by_default : IsWeighed none (record { names = 0; zones = 0; labels = 0 })
      by_selector : {sel : Selector} {w : Weight} → IsSelected sel w → IsWeighed (some sel) w

    -- A solver that supports a challenge, the first one that it does, and matches the domain.
    pub record IsUsable (challenges : List AcmeChallenge) (cfg : Solver) (ch : AcmeChallenge)
        (w : Weight) : Type 0 where
      pub offered : IsOffered cfg challenges ch
      pub weighed : IsWeighed cfg.selector w

    selector_match : Selector → Bool
    selector_match sel =
        (labels_match sel.match_labels labels).0
        && (dns_names_match sel.dns_names domain).0
        && (dns_zones_match d sel.dns_zones domain).0

    names-one_if : (names : List String) (n : ℕ) → IsNamed names domain n → one_if (ltb 0 n) ≡ n
    names-one_if names n (inl (e, h)) = rw h refl
    names-one_if names n (inr (a, h)) = rw h refl

    selector_weight_of : Selector → Weight
    selector_weight_of sel =
        weigh (labels_match sel.match_labels labels).1 (dns_names_match sel.dns_names domain).1
          (dns_zones_match d sel.dns_zones domain).1

    selector-IsSelected :
        (sel : Selector) → selector_match sel ≡ true → IsSelected sel (selector_weight_of sel)
    unfolding selector_match selector_weight_of labels_match
    selector-IsSelected sel h =
        let (all, count) = labels_sound labels sel.match_labels 0 (ground arith) in
        let named = dns_names_match-IsNamed sel.dns_names domain (ground arith) in
        record {
          labelled = all;
          count = omega (arith, count);
          named =
              subst (IsNamed sel.dns_names domain) (sym (names-one_if sel.dns_names _ named)) named;
          zoned = dns_zones_match-IsZoned sel.dns_zones (ground arith);
        }

    selected_complete :
        (sel : Selector) (w : Weight)
        → IsSelected sel w
        → (selector_match sel ≡ true) × (selector_weight_of sel ≡ w)
    unfolding selector_match selector_weight_of labels_match
    selected_complete sel w s =
        let l = labels_complete labels sel.match_labels 0 s.labelled in
        let n = named_complete sel.dns_names domain w.names s.named in
        let z = zoned_complete sel.dns_zones w.zones s.zoned in
        let one = names-one_if sel.dns_names w.names s.named in
        let count = s.count in
        (
          rw (l, n, z) refl,
          rw (l, n, z) (rw one (ap (λ k. record w { labels = k }) (omega (arith, count)))),
        )

    module _ (challenges : List AcmeChallenge) where
      weight-IsWeighed :
          (o : Option Selector) (w : Weight)
          → Rounds.selector_weight d labels domain challenges o ≡ some w
          → IsWeighed o w
      unfolding Rounds.selector_weight
      weight-IsWeighed none w h = subst (IsWeighed none) (some_injective h) by_default
      weight-IsWeighed (some sel) w h = elim (Bool-cases (selector_match sel)) [
        | inl e ↦
            let same : selector_weight_of sel ≡ w =
              unfold selector_match selector_weight_of in ground arith in
            by_selector (subst (IsSelected sel) same (selector-IsSelected sel e))
        | inr e ↦ absurd (unfold selector_match in ground arith)
      ]

      IsWeighed-weight :
          (o : Option Selector) (w : Weight)
          → IsWeighed o w
          → Rounds.selector_weight d labels domain challenges o ≡ some w
      unfolding Rounds.selector_weight
      IsWeighed-weight none w by_default = refl
      IsWeighed-weight (some sel) w (by_selector s) =
          let (m, same) = selected_complete sel w s in
          unfold selector_match selector_weight_of in ground arith

      pub usable-IsUsable :
          (cfg : Solver) (ch : AcmeChallenge) (w : Weight)
          → Rounds.usable d labels domain challenges cfg ≡ some (ch, w)
          → IsUsable challenges cfg ch w
      unfolding Rounds.usable
      usable-IsUsable cfg ch w h = elim (Option-cases (challenge_for_solver cfg challenges)) [
        | inl e ↦ absurd (ground arith)
        | inr (c, e) ↦
            elim (Option-cases (Rounds.selector_weight d labels domain challenges cfg.selector)) [
              | inl n ↦ absurd (ground arith)
              | inr (v, n) ↦
                  let same_challenge : c ≡ ch = ground arith in
                  let same_weight : v ≡ w = ground arith in
                  record {
                    offered =
                        subst (IsOffered cfg challenges) same_challenge
                          (challenge_for_solver-IsOffered cfg challenges c e);
                    weighed =
                        subst (IsWeighed cfg.selector) same_weight
                          (weight-IsWeighed cfg.selector v n);
                  }
            ]
      ]

      pub IsUsable-usable :
          (cfg : Solver) (ch : AcmeChallenge) (w : Weight)
          → IsUsable challenges cfg ch w
          → Rounds.usable d labels domain challenges cfg ≡ some (ch, w)
      unfolding Rounds.usable
      IsUsable-usable cfg ch w u =
          rw (IsOffered-challenge_for_solver cfg challenges ch u.offered, Rounds.usable)
            (rw (IsWeighed-weight cfg.selector w u.weighed) refl)
