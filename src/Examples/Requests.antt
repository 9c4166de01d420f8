-- ===== src/Examples/Requests.antt =====
-- Runs of the controller that creates CertificateRequests, and of the naming functions.
use cert_manager.Common.{
  String, ◌≡◌, refl, true, false, Option, none, some, List, [], ◌∷◌, ◌==◌, if◌then◌else◌, All, inr,
  ◌≤◌, arith,
}
use Prim.Native.String.{len}
use cert_manager.Common.Int.{ℤ, pos, ◌+ℤ◌}
use cert_manager.Conditions.Distinct.{has_condition}
use cert_manager.Conditions.Operations.{certificate_has_condition}
use cert_manager.Examples.Policies.{toy_pki, web, web_secret}
use cert_manager.Naming.Length.{compute_name-fits}
use cert_manager.Naming.Shorten.{
  compute_secure_unique_deterministic_name_from_data, dns_safe_shorten_to_52_characters,
}
use cert_manager.Policies.Input.{Secret}
use cert_manager.RequestManager.Creation.{Justified, process_item-Justified}
use cert_manager.RequestManager.Liveness.{Creates, process_item-Creates}
use cert_manager.RequestManager.Process.{
  IssuingCertificate, NewRequest, Tools, Answers, Options, process_item, process_key,
  sweep_requests, sweep_current, create_if_none, create_new_certificate_request, new_request,
  next_revision,
}
use cert_manager.RequestManager.Progress.{IsDeletable, process_item-asked}
use cert_manager.RequestManager.Sweep.{
  Request, sweep, sweep_one, decide_revision, revision_of, requests_with_revision, add_matching,
  decide_spec, decide_failed,
}
use cert_manager.RequestManager.Numbers.{later}
use cert_manager.RequestManager.Wanted.{unwanted}
use cert_manager.Revisions.Collector.{Fetch, found, missing}
use cert_manager.Trigger.Process.{issuing_true}

abbrev parse : String → Option ℤ
parse text = if text == "2" then some (pos 2) else if text == "1" then some (pos 1) else none

abbrev pub tools : Tools toy_pki
tools = record {
  parse_int = parse;
  itoa = λ n. "2";
  before = λ a b. false;
  csr_pem = λ crt key. some (inr (key ∷ []));
  sha256_hex = λ text. "0123456789abcdef0123456789abcdef0123456789abcdef0123456789abcdef";
}

abbrev pub options : Options
options = record { copied_annotation_prefixes = "*" ∷ "-kubectl" ∷ []; stable_names = false }

abbrev pub answers : Answers
answers = record { deleted = λ r. true; creation = true; appears = true }

abbrev pub issuing_web : IssuingCertificate
issuing_web = record {
  name = "web";
  uid = "u1";
  annotations = λ k. none;
  labels = λ k. none;
  deleting = false;
  conditions = issuing_true ∷ [];
  next_private_key_secret_name = some "web-next";
  revision = some (pos 1);
  spec = web;
  duration = none;
  is_ca = false;
  usages = [];
}

-- The first carries no revision, the second an older one and the third another key.
abbrev owned : List Request
owned =
    record {
      name = "a";
      revision_annotation = none;
      conditions = [];
      failure_time = none;
      spec = record { request = 7 ∷ [] };
    }
    ∷ record {
      name = "b";
      revision_annotation = some "1";
      conditions = [];
      failure_time = none;
      spec = record { request = 7 ∷ [] };
    }
    ∷ record {
      name = "c";
      revision_annotation = some "2";
      conditions = [];
      failure_time = none;
      spec = record { request = 8 ∷ [] };
    }
    ∷ []

abbrev secrets : String → Fetch Secret
secrets name = if name == "web-next" then found web_secret else missing

process_item-Creates_example :
    Creates (process_item toy_pki tools options answers (found issuing_web) secrets (some owned))
unfolding next_revision certificate_has_condition has_condition decide_spec decide_failed
    revision_of ◌+ℤ◌
process_item-Creates_example =
    process_item-Creates toy_pki tools options answers issuing_web secrets owned "web-next"
      web_secret 7 (7 ∷ []) (pos 2) refl refl refl refl refl refl
      (later (pos 1) refl (λ e. ground arith) refl) (λ r. refl)
      (
        (λ e. (7, true, refl, refl)),
        ((λ e. (7, true, refl, refl)), ((λ e. (8, false, refl, refl)), tt)),
      )
      (
        unwanted toy_pki tools issuing_web (pos 2) 7 _ refl refl,
        (
          unwanted toy_pki tools issuing_web (pos 2) 7 _ refl refl,
          (unwanted toy_pki tools issuing_web (pos 2) 7 _ refl refl, tt),
        ),
      )
      refl refl refl

process_item-asked_example :
    All
      (IsDeletable toy_pki tools options answers issuing_web secrets (some owned))
      (process_item toy_pki tools options answers (found issuing_web) secrets (some owned)).asked
process_item-asked_example =
    process_item-asked toy_pki tools options answers issuing_web secrets (some owned)

abbrev web_request : NewRequest
web_request =
    new_request toy_pki tools options answers issuing_web (7 ∷ []) (pos 2) "web-next" "" "web-"

creation_run :
    (process_item toy_pki tools options answers (found issuing_web) secrets (some owned)).created
    ≡ some web_request
unfolding process_item process_key sweep_requests sweep_current create_if_none
    create_new_certificate_request new_request sweep sweep_one decide_revision revision_of
    requests_with_revision add_matching decide_spec decide_failed next_revision
    certificate_has_condition has_condition ◌+ℤ◌ dns_safe_shorten_to_52_characters
creation_run = refl

process_item-Justified_example :
    Justified toy_pki tools options answers issuing_web secrets (some owned) web_request
process_item-Justified_example =
    process_item-Justified toy_pki tools options answers issuing_web secrets (some owned)
      web_request creation_run

compute_name-fits_example :
    (name : String) × (compute_secure_unique_deterministic_name_from_data tools.sha256_hex
        "a.very.long.name.for.a.certificate.that.does.not.fit.into.the.limit.of.70" 70
      ≡ some name)
    × (len name ≤ 70)
compute_name-fits_example =
    compute_name-fits tools.sha256_hex
      "a.very.long.name.for.a.certificate.that.does.not.fit.into.the.limit.of.70" 70 refl
      (omega arith)

abbrev two_annotations : String → Option String
two_annotations k = if k == "kubectl/last" then some "x" else some "y"
