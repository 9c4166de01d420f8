-- ===== src/Readiness/Process.antt =====
-- ProcessItem and BuildReadyConditionFromChain of
-- pkg/controller/certificates/readiness/readiness_controller.go. `fmt.Sprintf` and the semantic equality of
-- apimachinery are parameters, with the time zones and cron schedules of RenewalTime; what the listers and the
-- API server answer are arguments. The status is written by UpdateStatus. Log lines and events are left out.
use cert_manager.Common.{
  ℕ, String, Bool, Option, none, some, List, [], ◌∷◌, if◌then◌else◌, inl, inr,
}
use cert_manager.Common.Int.{ℤ}
use cert_manager.Conditions.Entry.{CertificateCondition}
use cert_manager.Conditions.Operations.{set_certificate_condition, condition_true, condition_false}
use cert_manager.Policies.Chains.{Chain, evaluate}
use cert_manager.Policies.Checks.{renewal_of, tls_crt}
use cert_manager.Policies.Input.{
  Input, Argument, window, Verdict, passed, failed, panicked, Pki, window_error,
}
use cert_manager.Renewal.Windows.{RenewalError}
use cert_manager.Revisions.Collector.{Fetch, found, missing, failure}
use cert_manager.Trigger.Process.{Ending}

-- What the controller writes of a Certificate's status.
pub record Status : Type 0 where
  pub conditions : List CertificateCondition
  pub not_before : Option ℤ
  pub not_after : Option ℤ
  pub renewal_time : Option ℤ

pub record ReadyCertificate : Type 0 where
  pub deleting : Bool
  pub generation : ℕ
  pub status : Status

pub record Effects : Type 0 where
  pub written : Option Status
  pub ending : Ending

abbrev pub ends : Ending → Effects
ends e = record { written = none; ending = e }

module _ (sprintf : String → List Argument → String) where
  -- The Ready condition of a verdict, `none` where the chain panics.
  unfoldable pub ready_condition_of : Verdict → Option CertificateCondition
  ready_condition_of passed = some (record {
    type = "Ready";
    status = condition_true;
    last_transition_time = none;
    reason = "Ready";
    message = "Certificate is up to date and has not expired";
    observed_generation = 0;
  })
  ready_condition_of (failed reason format args) = some (record {
    type = "Ready";
    status = condition_false;
    last_transition_time = none;
    reason = reason;
    message = sprintf format args;
    observed_generation = 0;
  })
  ready_condition_of panicked = none

  unfoldable pub build_ready_condition_from_chain : Chain → Input → Option CertificateCondition
  unfolding ready_condition_of
  build_ready_condition_from_chain chain input = ready_condition_of (evaluate chain input)

  module _ (pki : Pki) (location : String → Option String)
      (cron_parse : String → String → Option (ℤ → ℤ)) where
    -- The Secret's certificate, where the Secret has data and the certificate decodes.
    unfoldable pub stored_certificate : Input → Option pki.X509
    stored_certificate input = elim input.secret [
      | none ↦ none
      | some s ↦ elim s.entries [
        | none ↦ none
        | some entries ↦ elim (pki.decode_x509_certificate_bytes (tls_crt s)) [
          | inl err ↦ none
          | inr x509 ↦ some x509
        ]
      ]
    ]

    abbrev pub set_window_error :
        (now generation : ℕ)
        → Option RenewalError
        → List CertificateCondition
        → List CertificateCondition
    set_window_error now generation none conditions = conditions
    set_window_error now generation (some err) conditions =
        set_certificate_condition now conditions generation "Ready" condition_false window_error
          (sprintf "Could not calculate renewal time: %v" (window err ∷ []))

    -- The switch, from the conditions on.
    unfoldable pub status_with :
        (now generation : ℕ) → Input → List CertificateCondition → Option pki.X509 → Status
    status_with now generation input conditions none = record {
      conditions = conditions;
      not_before = none;
      not_after = none;
      renewal_time = none;
    }
    status_with now generation input conditions (some x509) = record {
      conditions =
          set_window_error now generation (renewal_of pki location cron_parse input x509).1
            conditions;
      not_before = some (pki.not_before x509);
      not_after = some (pki.not_after x509);
      renewal_time = (renewal_of pki location cron_parse input x509).0;
    }

    unfoldable pub status_of : (now generation : ℕ) → Input → List CertificateCondition → Status
    unfolding stored_certificate status_with
    status_of now generation input conditions =
        status_with now generation input conditions (stored_certificate input)

    unfoldable pub next_status :
        (now : ℕ) → ReadyCertificate → Input → CertificateCondition → Status
    unfolding status_of
    next_status now crt input c = status_of now crt.generation input (
        set_certificate_condition now crt.status.conditions crt.generation c.type c.status c.reason
          c.message)

    -- `gathered` is `none` where DataForCertificate fails.
    unfoldable pub process_item :
        (deep_equal : Status → Status → Bool)
        → (policy_chain : Chain) → (now : ℕ) → Fetch ReadyCertificate
        → (gathered : Option Input) → (updated : Bool) → Effects
    unfolding next_status build_ready_condition_from_chain
    process_item deep_equal policy_chain now failure gathered updated = ends Ending.error
    process_item deep_equal policy_chain now missing gathered updated = ends Ending.done
    process_item deep_equal policy_chain now (found crt) gathered updated =
        if crt.deleting then ends Ending.done else elim gathered [
          | none ↦ ends Ending.error
          | some input ↦ elim (build_ready_condition_from_chain policy_chain input) [
            | none ↦ ends Ending.nil_dereference
            | some c ↦
                if deep_equal crt.status (next_status now crt input c)
                then ends Ending.done
                else record {
                  written = some (next_status now crt input c);
                  ending = if updated then Ending.done else Ending.error;
                }
          ]
        ]
