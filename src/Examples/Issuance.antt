-- ===== src/Examples/Issuance.antt =====
-- A Certificate that the trigger controller marks for issuance.
use cert_manager.Common.{ℕ, String, true, false, Option, none, some, List, [], ◌∷◌, ◌≡◌, refl, ◌⊎◌}
use cert_manager.Common.Int.{pos}
use cert_manager.Conditions.Entry.{CertificateCondition, certificate_entry}
use cert_manager.Conditions.Update.{get_condition, set_condition}
use cert_manager.Conditions.Distinct.{IsDistinct, has_condition}
use cert_manager.Conditions.Operations.{certificate_has_condition, set_certificate_condition}
use cert_manager.Policies.Input.{Input, Argument, Verdict}
use cert_manager.Policies.Checks.{secret_does_not_exist}
use cert_manager.Policies.Chains.{evaluate}
use cert_manager.Trigger.Backoff.{should_backoff_reissuing_on_failure}
use cert_manager.Trigger.Process.{
  Candidate, found, Gathered, Ending, ends, process_item, process_owner, reissue, issuing_message,
  issuing_reason,
}
use cert_manager.Trigger.Issuance.{Triggers, process_item-Triggers, process_item-once}

abbrev sprintf : String → List Argument → String
sprintf format args = format

abbrev matches : ℕ → Option ℕ
matches n = some n

abbrev ready : CertificateCondition
ready = record {
  type = "Ready";
  status = "False";
  last_transition_time = some 1;
  reason = "";
  message = "";
  observed_generation = 1;
}

abbrev candidate : Candidate
candidate = record {
  deleting = false;
  generation = 1;
  conditions = ready ∷ [];
  renewal_time = some (pos 900);
  last_failure_time = none;
  failed_issuance_attempts = none;
}

-- The Secret does not exist yet.
abbrev no_secret : Input
no_secret = record {
  certificate = record {
    name = "web";
    issuer_ref = record { name = "ca"; kind = ""; group = "" };
    keystores = none;
    renew_before = none;
    renew_before_percentage = none;
    renewal = none;
    status_renewal_time = none;
  };
  secret = none;
  current_revision_request = none;
}

abbrev gathered : Option (Gathered ℕ)
gathered = some (record { input = no_secret; next_revision_request = none })

abbrev chain : Input → Verdict
chain = evaluate (secret_does_not_exist ∷ [])

process_item-Triggers_example :
    ((process_item sprintf matches chain
        (pos 3600000000000)
        100
        (found candidate)
        (some true)
        gathered
        true).written
      ≡ none)
    ⊎ Triggers sprintf matches chain
        (pos 3600000000000)
        100
        (found candidate)
        (some true)
        gathered
        (process_item sprintf matches chain
          (pos 3600000000000)
          100
          (found candidate)
          (some true)
          gathered
          true).written
process_item-Triggers_example =
    process_item-Triggers sprintf matches chain (pos 3600000000000) 100 (found candidate)
      (some true) gathered true

abbrev marked : CertificateCondition
marked = record {
  type = "Issuing";
  status = "True";
  last_transition_time = some 100;
  reason = "DoesNotExist";
  message = "Issuing certificate as Secret does not exist";
  observed_generation = 1;
}

ready-IsDistinct : IsDistinct candidate.conditions
unfolding get_condition
ready-IsDistinct = (refl, tt)

marked_run :
    (process_item sprintf matches chain
      (pos 3600000000000)
      100
      (found candidate)
      (some true)
      gathered
      true).written
    ≡ some (ready ∷ marked ∷ [])
unfolding process_item process_owner reissue issuing_message issuing_reason evaluate
    secret_does_not_exist certificate_has_condition has_condition set_certificate_condition
    set_condition should_backoff_reissuing_on_failure
marked_run = refl

process_item-once_example :
    process_item sprintf matches chain
      (pos 3600000000000)
      200
      (found (record candidate { conditions = ready ∷ marked ∷ [] }))
      (some true)
      none
      false
    ≡ ends Ending.done
process_item-once_example =
    process_item-once sprintf matches chain (pos 3600000000000) 100 200 candidate (some true)
      (some true) gathered none true false (ready ∷ marked ∷ []) ready-IsDistinct marked_run
