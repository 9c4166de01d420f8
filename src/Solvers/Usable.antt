-- ===== src/Solvers/Usable.antt =====
-- Which solvers can be used for a domain, and how specific they are, described without the loops of
-- pkg/util/solverpicker/solverpicker.go and pkg/controller/acmeorders/selectors.
use cert_manager.Common.{
  ℕ, ◌+◌, String, ◌≡◌, refl, ap, ◌∙◌, subst, Bool, true, false, ◌&&◌, ◌||◌, Option, some, List, [],
  ◌∷◌, ◌++◌, ◌==◌, arith, if◌then◌else◌, Bool-cases, Option-cases, ◌⊎◌, inl, inr, All, length,
}
use cert_manager.Solvers.Picker.{
  Solver, AcmeChallenge, match_labels_from, has_label, challenge_for_solver, is_some,
}

-- Some member has the property.
abbrev pub Any : {A : Type 0} → (A → Type 0) → List A → Type 0
Any P [] = ⊥
Any P (x ∷ xs) = P x ⊎ Any P xs

pub Any-All :
    {A : Type 0} (P Q : A → Type 0) (xs : List A) → Any P xs → All Q xs → (x : A) × P x × Q x
Any-All P Q [] h k = absurd h
Any-All P Q (x ∷ xs) (inl p) k = (x, p, k.0)
Any-All P Q (x ∷ xs) (inr h) k = Any-All P Q xs h k.1

-- The solver is configured for the type of the challenge.
abbrev pub Supports : Solver → AcmeChallenge → Type 0
Supports cfg ch =
    (((ch.type == "http-01") ≡ true) × ((p : String) × (cfg.http01 ≡ some p)))
    ⊎ (((ch.type == "dns-01") ≡ true) × ((p : String) × (cfg.dns01 ≡ some p)))

supports : Solver → AcmeChallenge → Bool
supports cfg ch =
    (ch.type == "http-01" && is_some cfg.http01) || (ch.type == "dns-01" && is_some cfg.dns01)

supports-Supports : (cfg : Solver) (ch : AcmeChallenge) → supports cfg ch ≡ true → Supports cfg ch
unfolding supports is_some
supports-Supports cfg ch h = elim (Bool-cases (ch.type == "http-01" && is_some cfg.http01)) [
  | inl e ↦ elim (Option-cases cfg.http01) [
    | inl n ↦ absurd (ground arith)
    | inr (p, n) ↦ inl (ground arith, (p, n))
  ]
  | inr e ↦ elim (Option-cases cfg.dns01) [
    | inl n ↦ absurd (ground arith)
    | inr (p, n) ↦ inr (ground arith, (p, n))
  ]
]

Supports-supports : (cfg : Solver) (ch : AcmeChallenge) → Supports cfg ch → supports cfg ch ≡ true
unfolding supports is_some
Supports-supports cfg ch (inl (t, (p, e))) = ground arith
Supports-supports cfg ch (inr (t, (p, e))) = ground arith

-- The first of the challenges that the solver supports.
pub record IsOffered (cfg : Solver) (challenges : List AcmeChallenge) (ch : AcmeChallenge)
    : Type 0 where
  pub before : List AcmeChallenge
  pub after : List AcmeChallenge
  pub split : challenges ≡ before ++ ch ∷ after
  pub supported : Supports cfg ch
  pub first : All (λ c. ¬ Supports cfg c) before

offers_next :
    (cfg : Solver) (ch : AcmeChallenge) (chs : List AcmeChallenge)
    → challenge_for_solver cfg (ch ∷ chs)
      ≡ (if supports cfg ch then some ch else challenge_for_solver cfg chs)
unfolding challenge_for_solver supports
offers_next cfg ch chs = ground arith

pub challenge_for_solver-IsOffered :
    (cfg : Solver) (chs : List AcmeChallenge) (ch : AcmeChallenge)
    → challenge_for_solver cfg chs ≡ some ch
    → IsOffered cfg chs ch
challenge_for_solver-IsOffered cfg [] ch h = absurd (unfold challenge_for_solver in ground arith)
challenge_for_solver-IsOffered cfg (c ∷ chs) ch h = elim (Bool-cases (supports cfg c)) [
  | inl e ↦
      let same : c ≡ ch = ground (arith, offers_next cfg c chs) in
      record {
        before = [];
        after = chs;
        split = ap (λ x. x ∷ chs) same;
        supported = subst (Supports cfg) same (supports-Supports cfg c e);
        first = tt;
      }
  | inr e ↦
      let rest =
        challenge_for_solver-IsOffered cfg chs ch (ground (arith, offers_next cfg c chs)) in
      record {
        before = c ∷ rest.before;
        after = rest.after;
        split = ap (λ l. c ∷ l) rest.split;
        supported = rest.supported;
        first = (λ s. ground (arith, Supports-supports cfg c s), rest.first);
      }
]

not_supported : (cfg : Solver) (c : AcmeChallenge) → ¬ Supports cfg c → supports cfg c ≡ false
not_supported cfg c n = elim (Bool-cases (supports cfg c)) [
  | inl e ↦ absurd (n (supports-Supports cfg c e))
  | inr e ↦ e
]

offered_after :
    (cfg : Solver) (before after : List AcmeChallenge) (ch : AcmeChallenge)
    → Supports cfg ch
    → All (λ c. ¬ Supports cfg c) before
    → challenge_for_solver cfg (before ++ ch ∷ after) ≡ some ch
offered_after cfg [] after ch s f = offers_next cfg ch after ∙ rw (Supports-supports cfg ch s) refl
offered_after cfg (c ∷ before) after ch s f =
    offers_next cfg c (before ++ ch ∷ after)
    ∙ rw (not_supported cfg c f.0) (offered_after cfg before after ch s f.1)

pub IsOffered-challenge_for_solver :
    (cfg : Solver) (chs : List AcmeChallenge) (ch : AcmeChallenge)
    → IsOffered cfg chs ch
    → challenge_for_solver cfg chs ≡ some ch
IsOffered-challenge_for_solver cfg chs ch o =
    ap (challenge_for_solver cfg) o.split
    ∙ offered_after cfg o.before o.after ch o.supported o.first

module _ (labels : String → Option String) where
  -- The order has the label with its value.
  abbrev pub IsLabelled : String × String → Type 0
  IsLabelled kv = (v : String) × (labels kv.0 ≡ some v) × ((kv.1 == v) ≡ true)

  has_label-IsLabelled : (k v : String) → has_label (labels k) v ≡ true → IsLabelled (k, v)
  unfolding has_label
  has_label-IsLabelled k v h = elim (Option-cases (labels k)) [
    | inl e ↦ absurd (ground arith)
    | inr (x, e) ↦ (x, e, ground arith)
  ]

  IsLabelled-has_label : (k v : String) → IsLabelled (k, v) → has_label (labels k) v ≡ true
  unfolding has_label
  IsLabelled-has_label k v (x, e, h) = rw (e, has_label) h

  pub labels_sound :
      (ls : List (String × String)) (n : ℕ)
      → (match_labels_from labels n ls).0 ≡ true
      → All IsLabelled ls × ((match_labels_from labels n ls).1 ≡ n + length ls)
  unfolding match_labels_from
  labels_sound [] n h = (tt, omega arith)
  labels_sound ((k, v) ∷ ls) n h = elim (Bool-cases (has_label (labels k) v)) [
    | inl e ↦
        let (all, count) = labels_sound ls (n + 1) (rw e at h) in
        ((has_label-IsLabelled k v e, all), rw e (omega (arith, count)))
    | inr e ↦ absurd (ground arith)
  ]

  pub labels_complete :
      (ls : List (String × String)) (n : ℕ)
      → All IsLabelled ls
      → match_labels_from labels n ls ≡ (true, n + length ls)
  unfolding match_labels_from
  labels_complete [] n h = ap (λ k. (true, k)) (omega arith)
  labels_complete ((k, v) ∷ ls) n h =
      rw (IsLabelled-has_label k v h.0)
        (labels_complete ls (n + 1) h.1 ∙ ap (λ k. (true, k)) (omega arith))
