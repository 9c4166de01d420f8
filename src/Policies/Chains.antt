-- ===== src/Policies/Chains.antt =====
-- Chain.Evaluate and the policy chains of internal/controller/certificates/policies/policies.go that
-- decide whether a Certificate is issued again, is ready, and has a usable temporary certificate.
use cert_manager.Common.{String, Option, List, [], ◌∷◌}
use cert_manager.Common.Int.{ℤ}
use cert_manager.Policies.Input.{Input, Verdict, passed, failed, panicked, Pki}
use cert_manager.Policies.Checks.{
  secret_does_not_exist, secret_is_missing_data, secret_public_keys_differ,
  secret_issuer_annotations_mismatch, secret_certificate_name_annotations_mismatch,
  secret_private_key_mismatches_spec, secret_public_key_differs_from_current_certificate_request,
  current_certificate_request_mismatches_spec, current_certificate_has_expired,
  current_certificate_nearing_expiry,
}

abbrev pub Func : Type 0
Func = Input → Verdict

abbrev pub Chain : Type 0
Chain = List Func

unfoldable pub evaluate : Chain → Input → Verdict
evaluate [] input = passed
evaluate (policy_func ∷ c) input =
    let rest = evaluate c input in
    elim (policy_func input) [
      | passed ↦ rest
      | failed reason format args ↦ failed reason format args
      | panicked ↦ panicked
    ]

module _ (pki : Pki) where
  abbrev pub new_temporary_certificate_policy_chain : Chain
  new_temporary_certificate_policy_chain =
      secret_does_not_exist ∷ secret_is_missing_data ∷ secret_public_keys_differ pki ∷ []

  abbrev pub new_readiness_policy_chain : (now : ℤ) → Chain
  new_readiness_policy_chain now =
      secret_does_not_exist
      ∷ secret_is_missing_data
      ∷ secret_public_keys_differ pki
      ∷ secret_issuer_annotations_mismatch
      ∷ secret_certificate_name_annotations_mismatch
      ∷ secret_private_key_mismatches_spec pki
      ∷ secret_public_key_differs_from_current_certificate_request pki
      ∷ current_certificate_request_mismatches_spec pki
      ∷ current_certificate_has_expired pki now
      ∷ []

  module _ (location : String → Option String) (cron_parse : String → String → Option (ℤ → ℤ)) where
    abbrev pub new_trigger_policy_chain : (now : ℤ) → Chain
    new_trigger_policy_chain now =
        secret_does_not_exist
        ∷ secret_is_missing_data
        ∷ secret_public_keys_differ pki
        ∷ secret_issuer_annotations_mismatch
        ∷ secret_certificate_name_annotations_mismatch
        ∷ secret_private_key_mismatches_spec pki
        ∷ secret_public_key_differs_from_current_certificate_request pki
        ∷ current_certificate_request_mismatches_spec pki
        ∷ current_certificate_nearing_expiry pki location cron_parse now
        ∷ []
