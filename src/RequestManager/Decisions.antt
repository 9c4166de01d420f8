-- ===== src/RequestManager/Decisions.antt =====
-- What the decisions of the deleting loops of pkg/controller/certificates/requestmanager come from.
use cert_manager.Common.{
  ℕ, Bool, true, false, Option, some, List, [], ◌∷◌, ◌≡◌, ◌≢◌, ◌⊎◌, inl, inr, refl, sym, ap, ◌∙◌,
  String, ◌==◌, arith, not, if◌then◌else◌, Option-cases,
}
use cert_manager.Conditions.Entry.{CertificateCondition, CertificateRequestCondition}
use cert_manager.Conditions.Operations.{
  certificate_has_condition, get_certificate_condition, get_certificate_request_condition,
  request_ready,
}
use cert_manager.Policies.Checks.{is_empty}
use cert_manager.Policies.Input.{Certificate, Pki}
use cert_manager.RequestManager.Guards.{issuing-get}
use cert_manager.RequestManager.Sweep.{
  Request, Decision, keep, remove, fail, abandon, decide_spec, decide_failed,
}
use cert_manager.RequestManager.Sweeping.{is_keep}
use cert_manager.Trigger.Process.{issuing_true}

-- The request is not Ready because it failed, before the condition Issuing of the Certificate last changed.
pub record FailedBefore (before : Option ℕ → Option ℕ → Bool)
    (conditions : List CertificateCondition) (r : Request) : Type 0 where
  pub ready : CertificateRequestCondition
  pub is_ready : get_certificate_request_condition r.conditions request_ready ≡ some ready
  pub not_ready : (ready.status == "False") ≡ true
  pub failed : (ready.reason == "Failed") ≡ true
  pub issuing : CertificateCondition
  pub is_issuing : get_certificate_condition conditions "Issuing" ≡ some issuing
  pub earlier : before r.failure_time issuing.last_transition_time ≡ true

module _ (before : Option ℕ → Option ℕ → Bool) (conditions : List CertificateCondition)
    (r : Request) where
  pub decide_failed-FailedBefore :
      decide_failed before conditions r ≡ remove → FailedBefore before conditions r
  unfolding decide_failed
  decide_failed-FailedBefore h =
      elim (Option-cases (get_certificate_request_condition r.conditions request_ready)) [
        | inl e ↦ absurd (ground arith)
        | inr (ready, e) ↦ elim (Option-cases (get_certificate_condition conditions "Issuing")) [
          | inl i ↦ absurd (ground arith)
          | inr (issuing, i) ↦ record {
            ready = ready;
            is_ready = e;
            not_ready = ground arith;
            failed = ground arith;
            issuing = issuing;
            is_issuing = i;
            earlier = ground arith;
          }
        ]
      ]

  pub FailedBefore-decide_failed :
      FailedBefore before conditions r → decide_failed before conditions r ≡ remove
  unfolding decide_failed
  FailedBefore-decide_failed f =
      ground (arith, f.is_ready, f.not_ready, f.failed, f.is_issuing, f.earlier)

  not_abandoned :
      certificate_has_condition (some conditions) issuing_true ≡ true
      → decide_failed before conditions r ≢ abandon
  unfolding decide_failed
  not_abandoned issuing e = ground (arith, issuing-get conditions issuing)

  not_failed : decide_failed before conditions r ≢ fail
  unfolding decide_failed
  not_failed e = ground arith

  kept_of :
      (d : Decision)
      → decide_failed before conditions r ≡ d
      → d ≢ remove
      → d ≢ fail
      → d ≢ abandon
      → is_keep d ≡ true
  kept_of keep e n f a = refl
  kept_of remove e n f a = absurd (n refl)
  kept_of fail e n f a = absurd (f refl)
  kept_of abandon e n f a = absurd (a refl)

  pub decide_failed-kept :
      certificate_has_condition (some conditions) issuing_true ≡ true
      → ¬ FailedBefore before conditions r
      → is_keep (decide_failed before conditions r) ≡ true
  decide_failed-kept issuing n =
      kept_of (decide_failed before conditions r) refl (λ e. n (decide_failed-FailedBefore e))
        not_failed (not_abandoned issuing)

inr_injective : {A : Type 0} {a b : A} → ◌≡◌ {A = String ⊎ A} (inr a) (inr b) → a ≡ b
inr_injective e = cc

inl_not_inr : {A : Type 0} {s : String} {a : A} → ◌≡◌ {A = String ⊎ A} (inl s) (inr a) → ⊥
inl_not_inr e = cc

pub true_not_false : ◌≡◌ {A = Bool} true false → ⊥
true_not_false e = ground arith

pub removed : {d : Decision} → d ≡ remove → is_keep d ≡ true → ⊥
removed {d} e h = true_not_false (sym h ∙ ap is_keep e)

module _ (pki : Pki) (crt : Certificate) (key : pki.PublicKey) (r : Request) where
  -- The request is as the spec wants it and its CSR has the key.
  pub record IsFit : Type 0 where
    pub violations : List String
    pub compared : pki.request_matches_spec r.spec crt ≡ inr violations
    pub none_violated : violations ≡ []
    pub csr : pki.Csr
    pub decoded : pki.decode_x509_certificate_request_bytes r.spec.request ≡ inr csr
    pub same_key : pki.public_keys_equal (pki.csr_public_key csr) key ≡ inr true

  -- The request cannot be compared with the spec, differs from it, or its CSR has another key.
  pub data IsUnfit : Type 0 where
    not_comparable : (err : String) → pki.request_matches_spec r.spec crt ≡ inl err → IsUnfit
    violates :
        (violation : String) (rest : List String)
        → pki.request_matches_spec r.spec crt ≡ inr (violation ∷ rest)
        → IsUnfit
    other_key :
        (csr : pki.Csr)
        → pki.decode_x509_certificate_request_bytes r.spec.request ≡ inr csr
        → pki.public_keys_equal (pki.csr_public_key csr) key ≡ inr false
        → IsUnfit

  -- If the request is as the spec wants it, its key can be compared.
  abbrev pub IsComparable : Type 0
  IsComparable =
      pki.request_matches_spec r.spec crt ≡ inr []
      → (csr : pki.Csr) × (equal : Bool) × (pki.decode_x509_certificate_request_bytes r.spec.request
          ≡ inr csr)
        × (pki.public_keys_equal (pki.csr_public_key csr) key ≡ inr equal)

  pub IsFit-decide_spec : IsFit → decide_spec pki crt key r ≡ keep
  unfolding decide_spec
  IsFit-decide_spec f = ground (arith, f.compared, f.none_violated, f.decoded, f.same_key)

  -- What each decision comes from.
  data Cause : Decision → Type 0 where
    fits : IsFit → Cause keep
    differs : IsUnfit → Cause remove
    unknown : ¬ IsComparable → Cause fail

  key-Cause :
      (csr : pki.Csr) (o : String ⊎ Bool)
      → pki.request_matches_spec r.spec crt ≡ inr []
      → pki.decode_x509_certificate_request_bytes r.spec.request ≡ inr csr
      → pki.public_keys_equal (pki.csr_public_key csr) key ≡ o
      → Cause (elim o as (λ x. Decision) [
        | inl err ↦ fail
        | inr matches ↦ if matches then keep else remove
      ])
  key-Cause csr (inr true) m d k = fits (record {
    violations = [];
    compared = m;
    none_violated = refl;
    csr = csr;
    decoded = d;
    same_key = k;
  })
  key-Cause csr (inr false) m d k = differs (other_key csr d k)
  key-Cause csr (inl err) m d k = unknown (λ c.
      let (csr', equal, d', k') = c m in
      let same : csr' ≡ csr = inr_injective (sym d' ∙ d) in
      inl_not_inr
        (sym k ∙ ap (λ x. pki.public_keys_equal (pki.csr_public_key x) key) (sym same) ∙ k'))

  csr-Cause :
      (o : String ⊎ pki.Csr)
      → pki.request_matches_spec r.spec crt ≡ inr []
      → pki.decode_x509_certificate_request_bytes r.spec.request ≡ o
      → Cause (elim o as (λ x. Decision) [
        | inl err ↦ fail
        | inr csr ↦ elim (pki.public_keys_equal (pki.csr_public_key csr) key) as (λ x. Decision) [
          | inl err ↦ fail
          | inr matches ↦ if matches then keep else remove
        ]
      ])
  csr-Cause (inl err) m d = unknown (λ c. let (csr, equal, d', k) = c m in inl_not_inr (sym d ∙ d'))
  csr-Cause (inr csr) m d =
      key-Cause csr (pki.public_keys_equal (pki.csr_public_key csr) key) m d refl

  match-Cause :
      (o : String ⊎ List String)
      → pki.request_matches_spec r.spec crt ≡ o
      → Cause (elim o as (λ x. Decision) [
        | inl err ↦ remove
        | inr violations ↦
            if not (is_empty violations)
            then remove
            else elim (pki.decode_x509_certificate_request_bytes r.spec.request)
                as (λ x. Decision) [
                  | inl err ↦ fail
                  | inr csr ↦
                      elim (pki.public_keys_equal (pki.csr_public_key csr) key) as (λ x. Decision) [
                        | inl err ↦ fail
                        | inr matches ↦ if matches then keep else remove
                      ]
                ]
      ])
  match-Cause (inl err) m = differs (not_comparable err m)
  match-Cause (inr []) m =
      csr-Cause (pki.decode_x509_certificate_request_bytes r.spec.request) m refl
  match-Cause (inr (v ∷ rest)) m = differs (violates v rest m)

  decide_spec-Cause : Cause (decide_spec pki crt key r)
  unfolding decide_spec
  decide_spec-Cause = match-Cause (pki.request_matches_spec r.spec crt) refl

  fits_of : (d : Decision) → Cause d → is_keep d ≡ true → IsFit
  fits_of keep (fits f) e = f
  fits_of remove (differs u) e = absurd (ground arith)
  fits_of fail (unknown n) e = absurd (ground arith)
  fits_of abandon x e = elim x [ ]

  pub decide_spec-IsFit : is_keep (decide_spec pki crt key r) ≡ true → IsFit
  decide_spec-IsFit h = fits_of (decide_spec pki crt key r) decide_spec-Cause h

  unfit_of : (d : Decision) → Cause d → d ≡ remove → IsUnfit
  unfit_of keep (fits f) e = absurd (ground arith)
  unfit_of remove (differs u) e = u
  unfit_of fail (unknown n) e = absurd (ground arith)
  unfit_of abandon x e = elim x [ ]

  pub decide_spec-IsUnfit : decide_spec pki crt key r ≡ remove → IsUnfit
  decide_spec-IsUnfit h = unfit_of (decide_spec pki crt key r) decide_spec-Cause h

  comparable_of : (d : Decision) → Cause d → IsComparable → d ≢ fail
  comparable_of keep (fits f) c e = ground arith
  comparable_of remove (differs u) c e = ground arith
  comparable_of fail (unknown n) c e = n c
  comparable_of abandon x c e = elim x [ ]

  pub IsComparable-not-fail : IsComparable → decide_spec pki crt key r ≢ fail
  IsComparable-not-fail c = comparable_of (decide_spec pki crt key r) decide_spec-Cause c
