-- ===== src/Solvers/Best.antt =====
-- Pick of pkg/util/solverpicker/solverpicker.go against a description of the best solver.
use cert_manager.Common.{
  String, ◌≡◌, refl, sym, ap, subst, ◌∙◌, true, false, Option, none, some, List, [], ◌∷◌, ◌++◌,
  arith, All, Option-cases, ◌⊎◌, inl, inr,
}
use cert_manager.Common.Pairs.{All-map}
use cert_manager.Solvers.Picker.{
  Solver, AcmeChallenge, DomainNames, Picked, nothing, pick_from, pick,
}
use cert_manager.Solvers.Weighing.{IsUsable, usable-IsUsable, IsUsable-usable}
use cert_manager.Solvers.Rounds
use cert_manager.Solvers.Rounds.{
  Weight, above, above_trans, above_not_above, weight, Round, unusable, kept, chosen,
}

module _ (d : DomainNames) (labels : String → Option String) (domain : String)
    (challenges : List AcmeChallenge) where
  abbrev usable : Solver → Option (AcmeChallenge × Weight)
  usable = Rounds.usable d labels domain challenges

  abbrev loop : List Solver → Picked → Picked
  loop = Rounds.loop d labels domain challenges

  abbrev round : Solver → Picked → Picked
  round = Rounds.round d labels domain challenges

  abbrev IsFresh : Picked → Type 0
  IsFresh = Rounds.IsFresh d labels domain challenges

  abbrev round_cases :
      (cfg : Solver) (st : Picked) → IsFresh st → Round d labels domain challenges cfg st
  round_cases = Rounds.round_cases d labels domain challenges

  -- A solver that is strictly below a weight, and one that is not above it, if it can be used at all.
  abbrev IsBelow : Weight → Solver → Type 0
  IsBelow w c = (ch : AcmeChallenge) (v : Weight) → usable c ≡ some (ch, v) → above w v ≡ true

  abbrev IsNotAbove : Weight → Solver → Type 0
  IsNotAbove w c = (ch : AcmeChallenge) (v : Weight) → usable c ≡ some (ch, v) → above v w ≡ false

  -- The first of the solvers with the greatest weight.
  record IsChosen (solvers : List Solver) (cfg : Solver) (ch : AcmeChallenge) : Type 0 where
    before : List Solver
    after : List Solver
    weight : Weight
    split : solvers ≡ before ++ cfg ∷ after
    is_usable : usable cfg ≡ some (ch, weight)
    first : All (IsBelow weight) before
    greatest : All (IsNotAbove weight) after

  -- Passed over, with the choice that was there.
  abbrev Passed : Picked → Solver → Type 0
  Passed st c =
      (ch : AcmeChallenge) (v : Weight)
      → usable c ≡ some (ch, v)
      → (prev : Solver × AcmeChallenge) × (st.choice ≡ some prev) × (above v (weight st) ≡ false)

  data Outcome (solvers : List Solver) (st : Picked) : Type 0 where
    all_passed : (loop solvers st).choice ≡ st.choice → All (Passed st) solvers → Outcome solvers st
    found :
        (cfg : Solver) (ch : AcmeChallenge) (best : IsChosen solvers cfg ch)
        → (loop solvers st).choice ≡ some (cfg, ch)
        → (st.choice ≡ none) ⊎ (above best.weight (weight st) ≡ true)
        → Outcome solvers st

  below_best :
      (st : Picked) (w v : Weight) {prev : Solver × AcmeChallenge}
      → (st.choice ≡ none) ⊎ (above w (weight st) ≡ true)
      → st.choice ≡ some prev
      → above v (weight st) ≡ false
      → above w v ≡ true
  below_best st w v (inl n) s h = cc
  below_best st w v (inr a) s h = above_not_above w (weight st) v a h

  -- One more solver, in front, that was passed over.
  skip :
      (c : Solver) (solvers : List Solver) (st : Picked)
      → round c st ≡ st
      → Passed st c
      → Outcome solvers st
      → Outcome (c ∷ solvers) st
  unfolding pick_from
  skip c solvers st e p (all_passed same ps) =
      all_passed (ap (λ t. (loop solvers t).choice) e ∙ same) (p, ps)
  skip c solvers st e p (found cfg ch best is b) =
      found cfg ch
        (record {
          before = c ∷ best.before;
          after = best.after;
          weight = best.weight;
          split = ap (λ l. c ∷ l) best.split;
          is_usable = best.is_usable;
          first = (λ x v u. let q = p x v u in below_best st best.weight v b q.1 q.2, best.first);
          greatest = best.greatest;
        })
        (ap (λ t. (loop solvers t).choice) e ∙ is) b

  -- One more solver, in front, that became the choice.
  take_over :
      (c : Solver) (solvers : List Solver) (st : Picked) (ch : AcmeChallenge) (w : Weight)
      → usable c ≡ some (ch, w)
      → (st.choice ≡ none) ⊎ (above w (weight st) ≡ true)
      → (round c st).choice ≡ some (c, ch)
      → weight (round c st) ≡ w
      → Outcome solvers (round c st)
      → Outcome (c ∷ solvers) st
  unfolding pick_from
  take_over c solvers st ch w u b is eq (all_passed same ps) =
      found c ch
        (record {
          before = [];
          after = solvers;
          weight = w;
          split = refl;
          is_usable = u;
          first = tt;
          greatest =
              All-map solvers (λ x q y v used. subst (λ t. above v t ≡ false) eq (q y v used).2) ps;
        })
        (same ∙ is) b
  take_over c solvers st ch w u b is eq (found cfg ch' best is' b') =
      let over : above best.weight w ≡ true = elim b' [
        | inl n ↦ cc
        | inr a ↦ subst (λ t. above best.weight t ≡ true) eq a
      ] in
      found cfg ch'
        (record {
          before = c ∷ best.before;
          after = best.after;
          weight = best.weight;
          split = ap (λ l. c ∷ l) best.split;
          is_usable = best.is_usable;
          first = (
            λ x v used. subst (λ t. above best.weight t ≡ true) (same_weight (sym u ∙ used)) over,
            best.first,
          );
          greatest = best.greatest;
        })
        is' (elim b [ inl n ↦ inl n | inr a ↦ inr (above_trans best.weight w (weight st) over a) ])
    where
      same_weight :
          {x y : AcmeChallenge} {v t : Weight}
          → ◌≡◌ {A = Option (AcmeChallenge × Weight)} (some (x, v)) (some (y, t))
          → v ≡ t
      same_weight e = cc

  IsFresh-round : (c : Solver) (st : Picked) → IsFresh st → IsFresh (round c st)
  IsFresh-round c st f = elim (round_cases c st f) [
    | unusable u e ↦ rw e f
    | kept ch w prev u s b e ↦ rw e f
    | chosen ch w u b is eq ↦ record { no_labels = λ n. cc; no_names = λ n. cc; no_zones = λ n. cc }
  ]

  outcome : (solvers : List Solver) (st : Picked) → IsFresh st → Outcome solvers st
  outcome [] st f = all_passed (unfold pick_from in refl) tt
  outcome (c ∷ solvers) st f =
      let rest = outcome solvers (round c st) (IsFresh-round c st f) in
      elim (round_cases c st f) [
        | unusable u e ↦ skip c solvers st e (λ x v used. cc) (subst (Outcome solvers) e rest)
        | kept ch w prev u s b e ↦
            skip c solvers st e (λ x v used. (prev, s, ground (arith)))
              (subst (Outcome solvers) e rest)
        | chosen ch w u b is eq ↦ take_over c solvers st ch w u b is eq rest
      ]

  abbrev pub Uses : Solver → AcmeChallenge → Weight → Type 0
  Uses cfg ch w = IsUsable d domain labels challenges cfg ch w

  -- The first of the usable solvers with the greatest weight.
  pub record IsBest (solvers : List Solver) (cfg : Solver) (ch : AcmeChallenge) : Type 0 where
    pub before : List Solver
    pub after : List Solver
    pub weight : Weight
    pub split : solvers ≡ before ++ cfg ∷ after
    pub is_usable : Uses cfg ch weight
    pub first :
        All (λ c. (x : AcmeChallenge) (v : Weight) → Uses c x v → above weight v ≡ true) before
    pub greatest :
        All (λ c. (x : AcmeChallenge) (v : Weight) → Uses c x v → above v weight ≡ false) after

  chosen-IsBest :
      (solvers : List Solver) (cfg : Solver) (ch : AcmeChallenge)
      → IsChosen solvers cfg ch
      → IsBest solvers cfg ch
  chosen-IsBest solvers cfg ch b = record {
    before = b.before;
    after = b.after;
    weight = b.weight;
    split = b.split;
    is_usable = usable-IsUsable d domain labels challenges cfg ch b.weight b.is_usable;
    first =
        All-map b.before (λ c p x v u. p x v (IsUsable-usable d domain labels challenges c x v u))
          b.first;
    greatest =
        All-map b.after (λ c p x v u. p x v (IsUsable-usable d domain labels challenges c x v u))
          b.greatest;
  }

  not_usable : (c : Solver) → usable c ≡ none → (x : AcmeChallenge) (v : Weight) → ¬ Uses c x v
  not_usable c n x v u = let s = IsUsable-usable d domain labels challenges c x v u in absurd (cc)

  -- A solver can be used if it supports one of the challenges and has no selector, or one that requires only labels
  -- that the order has, names no domain or this one, and no zone or one of this domain. Pick returns no solver if
  -- none can be used. Otherwise it returns the first of the usable solvers with the greatest weight, with the first
  -- challenge that it supports: a selector that names the domain comes before one that does not, then the one with
  -- more labels in its longest zone of the domain, then the one that requires more labels of the order; a solver
  -- without a selector has the least weight.
  pub pick-IsBest :
      (solvers : List Solver)
      → ((pick d labels domain challenges solvers ≡ none)
          × All (λ c. (x : AcmeChallenge) (v : Weight) → ¬ Uses c x v) solvers)
        ⊎ ((cfg : Solver) × (ch : AcmeChallenge) × (pick d labels domain challenges solvers
              ≡ some (cfg, ch))
            × IsBest solvers cfg ch)
  unfolding pick
  pick-IsBest solvers =
      elim (outcome solvers nothing
        (record { no_labels = λ n. refl; no_names = λ n. refl; no_zones = λ n. refl })) [
          | all_passed same ps ↦ inl (
            same,
            All-map solvers
                (λ c p. elim (Option-cases (usable c)) [
                  | inl e ↦ not_usable c e
                  | inr (r, e) ↦ absurd (cc ((p r.0 r.1 e).1))
                ])
                ps,
          )
          | found cfg ch best is b ↦ inr (cfg, ch, is, chosen-IsBest solvers cfg ch best)
        ]
