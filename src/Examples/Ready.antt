-- ===== src/Examples/Ready.antt =====
-- Runs of the controller that keeps the Ready condition.
use cert_manager.Common.{
  String, ◌≡◌, ◌↔◌, refl, Bool, true, false, none, some, List, [], ◌∷◌, arith, eqb, length,
}
use cert_manager.Common.Int.{pos}
use cert_manager.Conditions.Entry.{CertificateCondition, certificate_entry}
use cert_manager.Conditions.Operations.{get_certificate_condition, set_certificate_condition}
use cert_manager.Conditions.Update.{get_condition, set_condition}
use cert_manager.Examples.Policies.{toy_pki, web, input, location, cron_parse}
use cert_manager.Policies.Chains.{Chain, evaluate}
use cert_manager.Policies.Checks.{secret_does_not_exist, renewal_of}
use cert_manager.Policies.Input.{Input, Argument, passed}
use cert_manager.Readiness.Condition.{process_item-ready, window_error_of}
use cert_manager.Readiness.Process.{
  Status, ReadyCertificate, process_item, next_status, status_of, status_with, stored_certificate,
  build_ready_condition_from_chain, ready_condition_of,
}
use cert_manager.Readiness.Settling.{process_item-rests, window_error-keeps_writing}
use cert_manager.Renewal.Windows.{renewal_time, RenewalError}
use cert_manager.Revisions.Collector.{found}

abbrev format : String → List Argument → String
format text arguments = text

abbrev same_length : Status → Status → Bool
same_length a b = eqb (length a.conditions) (length b.conditions)

abbrev never_equal : Status → Status → Bool
never_equal a b = false

abbrev exists_chain : Chain
exists_chain = secret_does_not_exist ∷ []

abbrev new_certificate : ReadyCertificate
new_certificate = record {
  deleting = false;
  generation = 1;
  status = record { conditions = []; not_before = none; not_after = none; renewal_time = none };
}

abbrev ready_condition : CertificateCondition
ready_condition = record {
  type = "Ready";
  status = "True";
  last_transition_time = some 50;
  reason = "Ready";
  message = "Certificate is up to date and has not expired";
  observed_generation = 1;
}

abbrev first_status : Status
first_status = record {
  conditions = ready_condition ∷ [];
  not_before = some (pos 0);
  not_after = some (pos 9000000000000);
  renewal_time = (renewal_of toy_pki location cron_parse input 7).0;
}

first_run :
    (process_item format toy_pki location cron_parse same_length exists_chain 50
      (found new_certificate)
      (some input)
      true).written
    ≡ some first_status
unfolding process_item next_status status_of status_with stored_certificate
    build_ready_condition_from_chain ready_condition_of evaluate secret_does_not_exist
    set_certificate_condition set_condition renewal_of renewal_time
first_run = refl

process_item-ready_example :
    (c : CertificateCondition) × (get_certificate_condition first_status.conditions "Ready"
      ≡ some c)
    × ((c.status ≡ "True") ↔ (
        (evaluate exists_chain input ≡ passed)
        × (window_error_of format toy_pki location cron_parse input ≡ none)))
process_item-ready_example =
    process_item-ready format toy_pki location cron_parse same_length exists_chain 50
      new_certificate input true first_status first_run

process_item-rests_example :
    (process_item format toy_pki location cron_parse same_length exists_chain 60
      (found (record new_certificate { status = first_status }))
      (some input)
      true).written
    ≡ none
unfolding stored_certificate renewal_of renewal_time
process_item-rests_example =
    process_item-rests format toy_pki location cron_parse same_length exists_chain exists_chain 50
      60 new_certificate input true true first_status (λ a. ground arith) refl refl first_run

-- A renewal policy that is not supported.
abbrev weekly_input : Input
weekly_input = record input {
  certificate = record web { renewal = some (record { policy = "Weekly"; windows = [] }) };
}

window_error-keeps_writing_example :
    (st : Status) × (c : CertificateCondition) × ((process_item format toy_pki location cron_parse
        never_equal exists_chain 60
        (found new_certificate)
        (some weekly_input)
        true).written
      ≡ some st)
    × (get_certificate_condition st.conditions "Ready" ≡ some c)
    × (c.last_transition_time ≡ some 60)
unfolding stored_certificate renewal_of renewal_time evaluate secret_does_not_exist
    get_certificate_condition get_condition
window_error-keeps_writing_example =
    window_error-keeps_writing format toy_pki location cron_parse never_equal exists_chain 60
      new_certificate weekly_input true RenewalError.unsupported_policy
      (λ a b e. absurd (ground arith)) refl refl refl (λ c e. absurd (ground arith))
