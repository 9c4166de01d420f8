-- ===== src/Issuing/Listing.antt =====
-- ListCertificateRequestsMatchingPredicates of pkg/controller/certificates/listers.go, with Evaluate of
-- pkg/util/predicate/predicate.go and CertificateRequestRevision of pkg/util/predicate/certificaterequest.go. The
-- text that `fmt.Sprintf` makes of a number is a parameter; it is not empty, so a request without the annotation does
-- not match.
use cert_manager.Common.{
  String, Bool, true, false, Option, none, some, List, [], ◌∷◌, ◌++◌, ◌==◌, if◌then◌else◌, not, ◌≡◌,
  sym, ◌∙◌, ap, All, Bool-cases, inl, inr, arith,
}
use cert_manager.Common.Int.{ℤ}

unfoldable pub evaluate : {A : Type 0} → (predicates : List (A → Bool)) → A → Bool
evaluate [] obj = true
evaluate (fn ∷ rest) obj = let more = evaluate rest obj in if not (fn obj) then false else more

unfoldable pub matching : {A : Type 0} → (predicates : List (A → Bool)) → List A → List A
matching predicates [] = []
matching predicates (req ∷ reqs) =
    let out = matching predicates reqs in if evaluate predicates req then req ∷ out else out

-- `none` where the lister fails.
unfoldable pub list_certificate_requests_matching_predicates :
    {A : Type 0} → (listed : Option (List A)) → (predicates : List (A → Bool)) → Option (List A)
unfolding matching
list_certificate_requests_matching_predicates none predicates = none
list_certificate_requests_matching_predicates (some reqs) predicates =
    some (matching predicates reqs)

-- `annotation` is the request's revision annotation, `none` where it has none.
unfoldable pub certificate_request_revision :
    (itoa : ℤ → String) → (revision : ℤ) → (annotation : Option String) → Bool
certificate_request_revision itoa revision none = false
certificate_request_revision itoa revision (some text) = text == itoa revision

module _ {A : Type 0} (predicates : List (A → Bool)) where
  -- Exactly one of the listed requests passes.
  pub record IsOnly (reqs : List A) (req : A) : Type 0 where
    pub before : List A
    pub after : List A
    pub split : reqs ≡ before ++ req ∷ after
    pub passes : evaluate predicates req ≡ true
    pub none_before : All (λ r. evaluate predicates r ≡ false) before
    pub none_after : All (λ r. evaluate predicates r ≡ false) after

  matching-nil :
      (reqs : List A)
      → matching predicates reqs ≡ []
      → All (λ r. evaluate predicates r ≡ false) reqs
  unfolding matching
  matching-nil [] h = tt
  matching-nil (r ∷ rs) h = elim (Bool-cases (evaluate predicates r)) [
    | inl e ↦ absurd (ground arith)
    | inr e ↦ (e, matching-nil rs (ground arith))
  ]

  pub matching-IsOnly :
      (reqs : List A) (req : A) → matching predicates reqs ≡ req ∷ [] → IsOnly reqs req
  unfolding matching
  matching-IsOnly [] req h = absurd (ground arith)
  matching-IsOnly (r ∷ rs) req h = elim (Bool-cases (evaluate predicates r)) [
    | inl e ↦
        let same : r ≡ req = ground arith in
        let nil : matching predicates rs ≡ [] = ground arith in
        record {
          before = [];
          after = rs;
          split = ap (λ x. x ∷ rs) same;
          passes = sym (ap (evaluate predicates) same) ∙ e;
          none_before = tt;
          none_after = matching-nil rs nil;
        }
    | inr e ↦
        let rest = matching-IsOnly rs req (ground arith) in
        record {
          before = r ∷ rest.before;
          after = rest.after;
          split = ap (λ l. r ∷ l) rest.split;
          passes = rest.passes;
          none_before = (e, rest.none_before);
          none_after = rest.none_after;
        }
  ]
