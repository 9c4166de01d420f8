-- ===== src/RequestManager/Sweep.antt =====
-- The loops of pkg/controller/certificates/requestmanager/requestmanager_controller.go that delete requests:
-- deleteRequestsWithoutRevision, deleteRequestsNotMatchingSpec and deleteCurrentFailedRequests. The three
-- loops differ in what they decide about a request and are one loop over the decision.
use cert_manager.Common.{
  ℕ, String, Bool, true, false, Option, none, some, List, [], ◌∷◌, ◌==◌, if◌then◌else◌, inl, inr,
  ◌||◌, not,
}
use cert_manager.Common.Int.{ℤ, ltb_ℤ}
use cert_manager.Conditions.Entry.{CertificateCondition, CertificateRequestCondition}
use cert_manager.Conditions.Operations.{
  get_certificate_condition, get_certificate_request_condition, condition_false, request_ready,
}
use cert_manager.Policies.Checks.{is_empty}
use cert_manager.Policies.Input.{Certificate, CertificateRequest, Pki}

-- A request that the Certificate owns.
pub record Request : Type 0 where
  pub name : String
  pub revision_annotation : Option String
  pub conditions : List CertificateRequestCondition
  pub failure_time : Option ℕ
  pub spec : CertificateRequest

-- What a loop does with a request: keeps it, deletes it, returns an error, or returns no requests.
pub data Decision : Type 0 where
  keep remove fail abandon : Decision

pub data Remaining : Type 0 where
  kept : List Request → Remaining
  abandoned lost : Remaining

-- The deletions asked for, in order, and what the loop returns; `lost` is an error.
pub record Swept : Type 0 where
  pub asked : List Request
  pub remaining : Remaining

abbrev pub keep_first : Request → Remaining → Remaining
keep_first r (kept rs) = kept (r ∷ rs)
keep_first r abandoned = abandoned
keep_first r lost = lost

-- One pass of the loop's body, with what the rest of the loop does.
unfoldable pub sweep_one : Decision → (deleted : Bool) → Request → (rest : Swept) → Swept
sweep_one keep d r rest = record { asked = rest.asked; remaining = keep_first r rest.remaining }
sweep_one remove true r rest = record { asked = r ∷ rest.asked; remaining = rest.remaining }
sweep_one remove false r rest = record { asked = r ∷ []; remaining = lost }
sweep_one fail d r rest = record { asked = []; remaining = lost }
sweep_one abandon d r rest = record { asked = []; remaining = abandoned }

-- `deleted` is the API server's answer to the deletion of a request.
unfoldable pub sweep :
    (decide : Request → Decision) → (deleted : Request → Bool) → List Request → Swept
unfolding sweep_one
sweep decide deleted [] = record { asked = []; remaining = kept [] }
sweep decide deleted (r ∷ rs) = sweep_one (decide r) (deleted r) r (sweep decide deleted rs)

-- The revision of a request, `none` without an annotation that parses (`strconv.ParseInt`).
unfoldable pub revision_of : (parse_int : String → Option ℤ) → Request → Option ℤ
revision_of parse_int r = elim r.revision_annotation [
  | none ↦ none
  | some text ↦ if text == "" then none else parse_int text
]

abbrev pub keep_revised : Option ℤ → Decision
keep_revised none = remove
keep_revised (some n) = keep

-- deleteRequestsWithoutRevision
unfoldable pub decide_revision : (parse_int : String → Option ℤ) → Request → Decision
unfolding revision_of
decide_revision parse_int r = keep_revised (revision_of parse_int r)

abbrev pub equal_ℤ : ℤ → ℤ → Bool
equal_ℤ a b = not (ltb_ℤ a b || ltb_ℤ b a)

-- One pass of the loop of requestsWithRevision, with what the rest of the loop returns.
unfoldable pub add_matching :
    Option ℤ → (revision : ℤ) → Request → (rest : Option (List Request)) → Option (List Request)
add_matching none revision r rest = none
add_matching (some n) revision r none = none
add_matching (some n) revision r (some remaining) =
    if equal_ℤ n revision then some (r ∷ remaining) else some remaining

-- requestsWithRevision; `none` is an error.
unfoldable pub requests_with_revision :
    (parse_int : String → Option ℤ) → ℤ → List Request → Option (List Request)
unfolding revision_of add_matching
requests_with_revision parse_int revision [] = some []
requests_with_revision parse_int revision (r ∷ rs) =
    add_matching (revision_of parse_int r) revision r (requests_with_revision parse_int revision rs)

module _ (pki : Pki) where
  -- deleteRequestsNotMatchingSpec
  unfoldable pub decide_spec : Certificate → pki.PublicKey → Request → Decision
  decide_spec crt public_key r = elim (pki.request_matches_spec r.spec crt) [
    | inl err ↦ remove
    | inr violations ↦
        if not (is_empty violations)
        then remove
        else elim (pki.decode_x509_certificate_request_bytes r.spec.request) [
          | inl err ↦ fail
          | inr csr ↦ elim (pki.public_keys_equal (pki.csr_public_key csr) public_key) [
            | inl err ↦ fail
            | inr matches ↦ if matches then keep else remove
          ]
        ]
  ]

-- deleteCurrentFailedRequests; `before` is the method of metav1.Time.
unfoldable pub decide_failed :
    (before : Option ℕ → Option ℕ → Bool) → List CertificateCondition → Request → Decision
decide_failed before conditions r =
    elim (get_certificate_request_condition r.conditions request_ready) [
      | none ↦ keep
      | some ready ↦
          if not (ready.status == condition_false) || not (ready.reason == "Failed")
          then keep
          else elim (get_certificate_condition conditions "Issuing") [
            | none ↦ abandon
            | some issuing ↦
                if before r.failure_time issuing.last_transition_time then remove else keep
          ]
    ]
