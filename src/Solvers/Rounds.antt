-- ===== src/Solvers/Rounds.antt =====
-- One round of the loop of Pick in pkg/util/solverpicker/solverpicker.go, by the weight of the solver.
use cert_manager.Common.{
  ℕ, String, ◌≡◌, Bool, true, false, ◌&&◌, Option, none, some, List, ltb, arith, if◌then◌else◌,
  Bool-cases, Option-cases, ◌⊎◌, inl, inr,
}
use cert_manager.Solvers.Picker.{
  Selector, Solver, AcmeChallenge, DomainNames, Picked, labels_match, dns_names_match,
  dns_zones_match, challenge_for_solver, more_specific, consider_selector, consider_default,
  consider, pick_from,
}

-- How specific a solver's selector is for a domain: whether it names the domain, how many labels its
-- longest matching zone has, how many labels of the order it requires.
pub record Weight : Type 0 where
  pub names : ℕ
  pub zones : ℕ
  pub labels : ℕ

-- `w` is above `v`: by names, then zones, then labels.
abbrev pub above : Weight → Weight → Bool
above w v =
    if ltb v.names w.names
    then true
    else if ltb w.names v.names
    then false
    else if ltb v.zones w.zones
    then true
    else if ltb w.zones v.zones
    then false
    else ltb v.labels w.labels

pub above_trans : (u v w : Weight) → above u v ≡ true → above v w ≡ true → above u w ≡ true
above_trans u v w h k = ground arith

pub above_not_above : (u v w : Weight) → above u v ≡ true → above w v ≡ false → above u w ≡ true
above_not_above u v w h k = ground arith

abbrev pub one_if : Bool → ℕ
one_if true = 1
one_if false = 0

-- The weight of the counts that the loop keeps.
abbrev pub weigh : (labels names zones : ℕ) → Weight
weigh l n z = record { names = one_if (ltb 0 n); zones = z; labels = l }

abbrev pub weight : Picked → Weight
weight st = weigh st.labels st.names st.zones

-- The nested cases of the source are the lexicographic comparison.
more_specific-eq-above :
    (st : Picked) (l n z : ℕ) → more_specific st l n z ≡ above (weigh l n z) (weight st)
unfolding more_specific
more_specific-eq-above st l n z = ground arith

module _ (d : DomainNames) (labels : String → Option String) (domain : String)
    (challenges : List AcmeChallenge) where
  -- The weight of a selector, if it matches.
  unfoldable pub selector_weight : Option Selector → Option Weight
  selector_weight none = some (weigh 0 0 0)
  selector_weight (some sel) =
      let l = labels_match sel.match_labels labels in
      let n = dns_names_match sel.dns_names domain in
      let z = dns_zones_match d sel.dns_zones domain in
      if l.0 && n.0 && z.0 then some (weigh l.1 n.1 z.1) else none

  -- The challenge and the weight of a solver that can be used.
  unfoldable pub usable : Solver → Option (AcmeChallenge × Weight)
  usable cfg = elim (challenge_for_solver cfg challenges) [
    | none ↦ none
    | some ch ↦ elim (selector_weight cfg.selector) [ none ↦ none | some w ↦ some (ch, w) ]
  ]

  abbrev pub loop : List Solver → Picked → Picked
  loop = pick_from d labels domain challenges

  abbrev pub round : Solver → Picked → Picked
  round = consider d labels domain challenges

  -- One round, by whether the solver can be used and is above the previous choice.
  pub data Round (cfg : Solver) (st : Picked) : Type 0 where
    unusable : usable cfg ≡ none → round cfg st ≡ st → Round cfg st
    kept :
        (ch : AcmeChallenge) (w : Weight) (prev : Solver × AcmeChallenge)
        → usable cfg ≡ some (ch, w)
        → st.choice ≡ some prev
        → above w (weight st) ≡ false
        → round cfg st ≡ st
        → Round cfg st
    chosen :
        (ch : AcmeChallenge) (w : Weight)
        → usable cfg ≡ some (ch, w)
        → (st.choice ≡ none) ⊎ (above w (weight st) ≡ true)
        → (round cfg st).choice ≡ some (cfg, ch)
        → weight (round cfg st) ≡ w
        → Round cfg st

  -- Until something is chosen the counts are those of the start.
  pub record IsFresh (st : Picked) : Type 0 where
    pub no_labels : st.choice ≡ none → st.labels ≡ 0
    pub no_names : st.choice ≡ none → st.names ≡ 0
    pub no_zones : st.choice ≡ none → st.zones ≡ 0

  matches : Selector → Bool
  matches sel =
      (labels_match sel.match_labels labels).0
      && (dns_names_match sel.dns_names domain).0
      && (dns_zones_match d sel.dns_zones domain).0

  weight_of : Selector → Weight
  weight_of sel =
      weigh (labels_match sel.match_labels labels).1 (dns_names_match sel.dns_names domain).1
        (dns_zones_match d sel.dns_zones domain).1

  round_default :
      (cfg : Solver) (st : Picked) (ch : AcmeChallenge)
      → IsFresh st
      → challenge_for_solver cfg challenges ≡ some ch
      → cfg.selector ≡ none
      → Round cfg st
  round_default cfg st ch f e n = elim (Option-cases st.choice) [
    | inl s ↦
        chosen ch (weigh 0 0 0) (unfold usable selector_weight in ground arith) (inl s)
          (unfold consider consider_default in ground arith)
          (unfold consider consider_default in
            ground (arith, f.no_labels s, f.no_names s, f.no_zones s))
    | inr (prev, s) ↦
        kept ch (weigh 0 0 0) prev (unfold usable selector_weight in ground arith) s (ground arith)
          (unfold consider consider_default in ground arith)
  ]

  round_mismatch :
      (cfg : Solver) (st : Picked) (ch : AcmeChallenge) (sel : Selector)
      → challenge_for_solver cfg challenges ≡ some ch
      → cfg.selector ≡ some sel
      → matches sel ≡ false
      → Round cfg st
  unfolding matches
  round_mismatch cfg st ch sel e n m =
      unusable (unfold usable selector_weight in ground arith)
        (unfold consider consider_selector in ground arith)

  round_select :
      (cfg : Solver) (st : Picked) (ch : AcmeChallenge) (sel : Selector)
      → challenge_for_solver cfg challenges ≡ some ch
      → cfg.selector ≡ some sel
      → matches sel ≡ true
      → (st.choice ≡ none) ⊎ (above (weight_of sel) (weight st) ≡ true)
      → Round cfg st
  unfolding matches weight_of
  round_select cfg st ch sel e n m b =
      let cmp =
        more_specific-eq-above st (labels_match sel.match_labels labels).1
          (dns_names_match sel.dns_names domain).1 (dns_zones_match d sel.dns_zones domain).1 in
      chosen ch (weight_of sel) (unfold usable selector_weight weight_of in ground arith) b
        (unfold consider consider_selector in ground (arith, cmp))
        (unfold consider consider_selector weight_of in ground (arith, cmp))

  round_keep :
      (cfg : Solver) (st : Picked) (ch : AcmeChallenge) (sel : Selector)
      (prev : Solver × AcmeChallenge)
      → challenge_for_solver cfg challenges ≡ some ch
      → cfg.selector ≡ some sel
      → matches sel ≡ true
      → st.choice ≡ some prev
      → above (weight_of sel) (weight st) ≡ false
      → Round cfg st
  unfolding matches weight_of
  round_keep cfg st ch sel prev e n m s b =
      let cmp =
        more_specific-eq-above st (labels_match sel.match_labels labels).1
          (dns_names_match sel.dns_names domain).1 (dns_zones_match d sel.dns_zones domain).1 in
      kept ch (weight_of sel) prev (unfold usable selector_weight weight_of in ground arith) s b
        (unfold consider consider_selector in ground (arith, cmp))

  pub round_cases : (cfg : Solver) (st : Picked) → IsFresh st → Round cfg st
  round_cases cfg st f = elim (Option-cases (challenge_for_solver cfg challenges)) [
    | inl e ↦ unusable (unfold usable in ground arith) (unfold consider in ground arith)
    | inr (ch, e) ↦ elim (Option-cases cfg.selector) [
      | inl n ↦ round_default cfg st ch f e n
      | inr (sel, n) ↦ elim (Bool-cases (matches sel)) [
        | inr m ↦ round_mismatch cfg st ch sel e n m
        | inl m ↦ elim (Option-cases st.choice) [
          | inl s ↦ round_select cfg st ch sel e n m (inl s)
          | inr (prev, s) ↦ elim (Bool-cases (above (weight_of sel) (weight st))) [
            | inl b ↦ round_select cfg st ch sel e n m (inr b)
            | inr b ↦ round_keep cfg st ch sel prev e n m s b
          ]
        ]
      ]
    ]
  ]
