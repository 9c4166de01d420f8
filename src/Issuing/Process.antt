-- ===== src/Issuing/Process.antt =====
-- ProcessItem, failIssueCertificate and issueCertificate of
-- pkg/controller/certificates/issuing/issuing_controller.go. ensureSecretData, ensureTemporaryCertificate and the
-- update of the target Secret are known by their results, `fmt.Sprintf`, `metav1.Time.Before`, `metav1.IsControlledBy` and EncodePrivateKey
-- are parameters. The Certificate that the lister returns is the entry of the informer's cache: what is assigned to it
-- before it is copied stays there. The status is written by UpdateStatus. Log lines and events are left out; a
-- number of attempts is below 2^63.
use cert_manager.Common.{
  ℕ, ◌+◌, String, Bool, true, false, Option, none, some, List, [], ◌∷◌, ◌==◌, if◌then◌else◌, not,
  inl, inr,
}
use cert_manager.Common.Bytes.{Bytes}
use cert_manager.Common.Int.{ℤ, pos, ltb_ℤ}
use cert_manager.Conditions.Entry.{CertificateCondition, CertificateRequestCondition}
use cert_manager.Conditions.Operations.{
  certificate_has_condition, get_certificate_condition, get_certificate_request_condition,
  set_certificate_condition, remove_certificate_condition, certificate_request_is_denied,
  certificate_request_has_invalid_request, request_ready, request_invalid, request_denied,
  condition_false,
}
use cert_manager.Issuing.Listing.{
  certificate_request_revision, list_certificate_requests_matching_predicates,
}
use cert_manager.Policies.Checks.{is_empty, entry}
use cert_manager.Policies.Input.{
  Certificate, CertificateRequest, IssuerRef, Argument, text, time, Pki, Secret,
}
use cert_manager.RequestManager.Process.{next_revision}
use cert_manager.Revisions.Collector.{Fetch, found, missing, failure}
use cert_manager.Trigger.Process.{Ending, issuing_true}

pub record Status : Type 0 where
  pub conditions : List CertificateCondition
  pub revision : Option ℤ
  pub next_private_key_secret_name : Option String
  pub last_failure_time : Option ℕ
  pub failed_issuance_attempts : Option ℕ

pub record TargetCertificate : Type 0 where
  pub name : String
  pub uid : String
  pub deleting : Bool
  pub generation : ℕ
  pub spec : Certificate
  pub status : Status

pub record IssuedRequest : Type 0 where
  pub revision_annotation : Option String
  pub conditions : List CertificateRequestCondition
  pub failure_time : Option ℕ
  pub spec : CertificateRequest
  pub issuer_ref : IssuerRef
  pub certificate : Bytes
  pub ca : Bytes

pub record SecretData : Type 0 where
  pub private_key : Bytes
  pub certificate : Bytes
  pub ca : Bytes
  pub certificate_name : String
  pub issuer_ref : IssuerRef

-- The status in the cache's entry afterwards, what issueCertificate updates the target Secret with, the status that
-- is written and the end.
pub record Effects : Type 0 where
  pub cached : Status
  pub stored : Option SecretData
  pub written : Option Status
  pub ending : Ending

-- Whether the updates succeed, whether ensureSecretData does, and what ensureTemporaryCertificate returns, `none` for
-- an error.
pub record Answers : Type 0 where
  pub updated : Bool
  pub secret_updated : Bool
  pub ensured : Bool
  pub temporary : Option Bool

pub record Tools (pki : Pki) : Type 1 where
  pub sprintf : String → List Argument → String
  pub itoa : ℤ → String
  pub is_controlled_by : IssuedRequest → (owner_uid : String) → Bool
  pub before : Option ℕ → Option ℕ → Bool
  -- EncodePrivateKey with the encoding that the spec asks for.
  pub encode : Certificate → pki.PrivateKey → Option Bytes

abbrev pub ends : TargetCertificate → Ending → Effects
ends crt e = record { cached = crt.status; stored = none; written = none; ending = e }

abbrev pub of_answer : Bool → Ending
of_answer true = Ending.done
of_answer false = Ending.error

abbrev pub attempts_after : Option ℕ → ℕ
attempts_after none = 1
attempts_after (some n) = n + 1

unfoldable pub secret_data : TargetCertificate → IssuedRequest → (private_key : Bytes) → SecretData
secret_data crt req key = record {
  private_key = key;
  certificate = req.certificate;
  ca = req.ca;
  certificate_name = crt.name;
  issuer_ref = req.issuer_ref;
}

module _ (pki : Pki) (tools : Tools pki) (answers : Answers) (now : ℕ) where
  -- The assignments to the status come before the copy.
  unfoldable pub fail_issue_certificate : TargetCertificate → (reason message : String) → Effects
  fail_issue_certificate crt reason message =
      let counted = record crt.status {
        last_failure_time = some now;
        failed_issuance_attempts = some (attempts_after crt.status.failed_issuance_attempts);
      } in
      record {
        cached = counted;
        stored = none;
        written = some (record counted {
          conditions =
              set_certificate_condition now crt.status.conditions crt.generation "Issuing"
                condition_false reason
                (tools.sprintf
                  "The certificate request has failed to complete and will be retried: %s"
                  (text message ∷ []));
        });
        ending = of_answer answers.updated;
      }

  unfoldable pub fail_with : TargetCertificate → Option CertificateRequestCondition → Effects
  unfolding fail_issue_certificate
  fail_with crt none = ends crt Ending.nil_dereference
  fail_with crt (some c) = fail_issue_certificate crt c.reason c.message

  unfoldable pub issue_certificate : TargetCertificate → IssuedRequest → pki.PrivateKey → Effects
  unfolding secret_data
  issue_certificate crt req pk = elim (tools.encode crt.spec pk) [
    | none ↦ ends crt Ending.error
    | some bytes ↦
        if answers.secret_updated
        then record {
          cached = crt.status;
          stored = some (secret_data crt req bytes);
          written = some (record crt.status {
            conditions = remove_certificate_condition crt.status.conditions "Issuing";
            revision = some (next_revision crt.status.revision);
            failed_issuance_attempts = none;
            last_failure_time = none;
          });
          ending = of_answer answers.updated;
        }
        else record {
          cached = crt.status;
          stored = some (secret_data crt req bytes);
          written = none;
          ending = Ending.error;
        }
  ]

  -- The request's certificate, against the request's CSR and the clock.
  unfoldable pub check_issued :
      TargetCertificate → IssuedRequest → pki.PrivateKey → pki.Csr → Effects
  unfolding fail_issue_certificate issue_certificate
  check_issued crt req pk csr = elim (pki.decode_x509_certificate_bytes req.certificate) [
    | inl err ↦ fail_issue_certificate crt "InvalidCertificate" (
        tools.sprintf "Issuer returned an invalid certificate: failed to decode: %v"
          (text err ∷ []))
    | inr x509 ↦ elim (pki.public_keys_equal (pki.x509_public_key x509) (pki.csr_public_key csr)) [
      | inl err ↦
          fail_issue_certificate crt "InvalidCertificate"
            (tools.sprintf "Failed to compare certificate and CSR public keys: %v" (text err ∷ []))
      | inr matches ↦
          if not matches
          then fail_issue_certificate crt "InvalidCertificate"
              "Issuer returned a certificate with a public key that does not match the CSR. This usually indicates a misconfigured issuer."
          else if ltb_ℤ (pki.not_after x509) (pos now)
          then fail_issue_certificate crt "InvalidCertificate" (
              tools.sprintf
                "Issuer returned an already expired certificate (notAfter: %s). This usually indicates an expired CA certificate in the issuer."
                (time (some (pki.not_after x509)) ∷ []))
          else issue_certificate crt req pk
    ]
  ]

  -- From the comparison of the key with the request's CSR on.
  unfoldable pub check_csr :
      TargetCertificate → IssuedRequest → pki.PrivateKey → CertificateRequestCondition → Effects
  unfolding check_issued
  check_csr crt req pk ready = elim (pki.decode_x509_certificate_request_bytes req.spec.request) [
    | inl err ↦ ends crt Ending.error
    | inr csr ↦ elim (pki.public_keys_equal (pki.csr_public_key csr) (pki.public pk)) [
      | inl err ↦ ends crt Ending.error
      | inr matches ↦
          if not matches
          then ends crt Ending.done
          else if ready.reason == "Issued"
          then check_issued crt req pk csr
          else elim answers.temporary [
            | none ↦ ends crt Ending.error
            | some issued ↦ ends crt Ending.done
          ]
    ]
  ]

  -- The final states of the request.
  unfoldable pub check_states : TargetCertificate → IssuedRequest → pki.PrivateKey → Effects
  unfolding fail_with check_csr
  check_states crt req pk =
      if certificate_request_is_denied (some req.conditions)
      then fail_with crt (get_certificate_request_condition req.conditions request_denied)
      else if certificate_request_has_invalid_request (some req.conditions)
      then fail_with crt (get_certificate_request_condition req.conditions request_invalid)
      else elim (get_certificate_request_condition req.conditions request_ready) [
        | none ↦ ends crt Ending.done
        | some ready ↦
            if ready.reason == "Failed"
            then fail_issue_certificate crt ready.reason ready.message
            else check_csr crt req pk ready
      ]

  -- Whether the request failed before this issuance; `none` is a nil dereference.
  unfoldable pub failed_before : IssuedRequest → CertificateCondition → Option Bool
  failed_before req issuing = elim req.failure_time [
    | none ↦ some false
    | some t ↦
        if tools.before (some t) issuing.last_transition_time
        then elim (get_certificate_request_condition req.conditions request_ready) [
          | none ↦ none
          | some ready ↦ some (ready.reason == "Failed")
        ]
        else some false
  ]

  unfoldable pub check_request : TargetCertificate → IssuedRequest → pki.PrivateKey → Effects
  unfolding check_states failed_before
  check_request crt req pk = elim (pki.request_matches_spec req.spec crt.spec) [
    | inl err ↦ ends crt Ending.error
    | inr violations ↦
        if not (is_empty violations)
        then ends crt Ending.done
        else elim (get_certificate_condition crt.status.conditions "Issuing") [
          | none ↦ ends crt Ending.done
          | some issuing ↦ elim (failed_before req issuing) [
            | none ↦ ends crt Ending.nil_dereference
            | some true ↦ ends crt Ending.done
            | some false ↦ check_states crt req pk
          ]
        ]
  ]

  -- The predicates of the listing: the next revision, and the owner.
  abbrev pub of_next_revision : TargetCertificate → List (IssuedRequest → Bool)
  of_next_revision crt =
      (λ req.
        certificate_request_revision tools.itoa (next_revision crt.status.revision)
          req.revision_annotation)
      ∷ (λ req. tools.is_controlled_by req crt.uid)
      ∷ []

  -- Exactly one request is to be there.
  unfoldable pub check_listed :
      TargetCertificate → (requests : Option (List IssuedRequest)) → pki.PrivateKey → Effects
  unfolding check_request
  check_listed crt none pk = ends crt Ending.error
  check_listed crt (some []) pk = ends crt Ending.done
  check_listed crt (some (req ∷ [])) pk = check_request crt req pk
  check_listed crt (some (req ∷ other ∷ rest)) pk = ends crt Ending.done

  -- `listed` are the requests of the namespace, `none` where they cannot be listed.
  unfoldable pub check_requests :
      TargetCertificate → (listed : Option (List IssuedRequest)) → pki.PrivateKey → Effects
  unfolding check_listed
  check_requests crt listed pk =
      check_listed crt (list_certificate_requests_matching_predicates listed (of_next_revision crt))
        pk

  unfoldable pub check_key :
      TargetCertificate → Secret → (listed : Option (List IssuedRequest)) → Effects
  unfolding check_requests
  check_key crt s listed =
      if is_empty (entry s "tls.key")
      then ends crt Ending.done
      else elim (pki.decode_private_key_bytes (entry s "tls.key")) [
        | inl err ↦ ends crt Ending.done
        | inr pk ↦
            if not (is_empty (pki.private_key_matches_spec pk crt.spec))
            then ends crt Ending.done
            else check_requests crt listed pk
      ]

  -- ProcessItem for a Certificate that the lister returns.
  unfoldable pub process_certificate :
      TargetCertificate
      → (secrets : String → Fetch Secret) → (listed : Option (List IssuedRequest)) → Effects
  unfolding check_key
  process_certificate crt secrets listed =
      if crt.deleting
      then ends crt Ending.done
      else if not (certificate_has_condition (some crt.status.conditions) issuing_true)
      then ends crt (of_answer answers.ensured)
      else elim crt.status.next_private_key_secret_name [
        | none ↦ ends crt Ending.done
        | some name ↦ if name == "" then ends crt Ending.done else elim (secrets name) [
          | missing ↦ ends crt Ending.done
          | failure ↦ ends crt Ending.error
          | found s ↦ check_key crt s listed
        ]
      ]
