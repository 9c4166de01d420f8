-- ===== src/Examples/Issue.antt =====
-- Runs of the controller that completes an issuance.
use cert_manager.Common.{String, ◌≡◌, refl, true, false, none, some, [], ◌∷◌, ◌==◌, if◌then◌else◌}
use cert_manager.Conditions.Distinct.{has_condition}
use cert_manager.Conditions.Entry.{CertificateRequestCondition, certificate_entry, request_entry}
use cert_manager.Conditions.Operations.{
  certificate_has_condition, get_certificate_condition, get_certificate_request_condition,
  certificate_request_is_denied, certificate_request_has_invalid_request, has_true,
}
use cert_manager.Conditions.Update.{get_condition}
use cert_manager.Examples.Policies.{toy_pki, web, web_secret}
use cert_manager.Issuing.Counting.{refused_update-counts_twice}
use cert_manager.Issuing.Listing.{
  evaluate, matching, certificate_request_revision, list_certificate_requests_matching_predicates,
}
use cert_manager.Issuing.Process.{
  TargetCertificate, IssuedRequest, Status, Answers, Tools, fail_issue_certificate, secret_data,
  process_certificate, check_key, check_requests, check_listed, check_request, failed_before,
  check_states, check_csr, check_issued, issue_certificate,
}
use cert_manager.Issuing.Storing.{Issues, process_certificate-Issues}
use cert_manager.Policies.Input.{Secret}
use cert_manager.Revisions.Collector.{Fetch, found, missing}
use cert_manager.Trigger.Process.{Ending, issuing_true}

abbrev tools : Tools toy_pki
tools = record {
  sprintf = λ text args. text;
  itoa = λ n. "1";
  is_controlled_by = λ req uid. uid == "u1";
  before = λ a b. false;
  encode = λ spec key. some (key ∷ []);
}

abbrev answers : Answers
answers = record { updated = true; secret_updated = true; ensured = true; temporary = some false }

abbrev refused : Answers
refused = record answers { updated = false }

abbrev target : TargetCertificate
target = record {
  name = "web";
  uid = "u1";
  deleting = false;
  generation = 1;
  spec = web;
  status = record {
    conditions = issuing_true ∷ [];
    revision = none;
    next_private_key_secret_name = some "web-next";
    last_failure_time = none;
    failed_issuance_attempts = some 2;
  };
}

abbrev issued : CertificateRequestCondition
issued = record {
  type = "Ready";
  status = "True";
  last_transition_time = none;
  reason = "Issued";
  message = "";
}

abbrev issued_request : IssuedRequest
issued_request = record {
  revision_annotation = some "1";
  conditions = issued ∷ [];
  failure_time = none;
  spec = record { request = 7 ∷ [] };
  issuer_ref = web.issuer_ref;
  certificate = 7 ∷ [];
  ca = [];
}

abbrev secrets : String → Fetch Secret
secrets name = if name == "web-next" then found web_secret else missing

issue_run :
    (process_certificate toy_pki tools answers 100 target secrets
      (some (issued_request ∷ []))).stored
    ≡ some (secret_data target issued_request (7 ∷ []))
unfolding process_certificate check_key check_requests check_listed
    list_certificate_requests_matching_predicates matching evaluate certificate_request_revision
    check_request failed_before check_states check_csr check_issued issue_certificate secret_data
    certificate_has_condition has_condition get_certificate_condition
    get_certificate_request_condition get_condition certificate_request_is_denied
    certificate_request_has_invalid_request has_true
issue_run = refl

process_certificate-Issues_example :
    Issues toy_pki tools answers 100
      (secret_data target issued_request (7 ∷ []))
      target
      secrets
      (some (issued_request ∷ []))
process_certificate-Issues_example =
    process_certificate-Issues toy_pki tools answers 100
      (secret_data target issued_request (7 ∷ [])) target secrets (some (issued_request ∷ []))
      issue_run

refused_update-counts_twice_example :
    ((fail_issue_certificate toy_pki tools refused 100 target "Failed" "no").ending ≡ Ending.error)
    × ((st : Status) × ((fail_issue_certificate toy_pki tools answers 110
            (record target {
              status =
                  (fail_issue_certificate toy_pki tools refused 100 target "Failed" "no").cached;
            })
            "Failed"
            "no").written
          ≡ some st)
        × (st.failed_issuance_attempts ≡ some 4))
refused_update-counts_twice_example =
    refused_update-counts_twice toy_pki tools refused answers 100 110 target "Failed" "no" refl
