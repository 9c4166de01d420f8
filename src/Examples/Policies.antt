-- ===== src/Examples/Policies.antt =====
-- Runs of the policy chains and of the choice of a solver.
use cert_manager.Common.{
  ℕ, String, ◌≡◌, ◌≢◌, refl, true, not, ◌&&◌, ◌||◌, Option, none, some, List, [], ◌∷◌, ◌==◌,
  if◌then◌else◌, All, ◌⊎◌, inl, inr, eqb,
}
use cert_manager.Common.Bytes.{Bytes}
use cert_manager.Common.Int.{ℤ, pos}
use cert_manager.Policies.Input.{Input, Secret, Certificate, Pki, passed, panicked}
use cert_manager.Renewal.Time.{time_sub}
use cert_manager.Renewal.Desired.{planned_renewal}
use cert_manager.Renewal.Windows.{Renewal, renewal_time}
use cert_manager.Policies.Checks.{
  secret_public_keys_differ, issuer_kinds_equal, issuer_groups_equal,
  secret_certificate_name_annotations_mismatch, secret_private_key_mismatches_spec,
  secret_public_key_differs_from_current_certificate_request,
  current_certificate_request_mismatches_spec, current_certificate_nearing_expiry, entry, is_empty,
  issuer_name, issuer_kind, issuer_group, is_present, value_of, or_default,
  secret_issuer_annotations_mismatch, secret_does_not_exist, secret_is_missing_data,
}
use cert_manager.Policies.Keystores.{
  entries_agree, is_requested, jks_of, pkcs12_of, provides_ca, is_passed,
  secret_keystore_format_mismatch, secret_keystore_format_mismatch-exact,
}
use cert_manager.Policies.Chains.{
  Chain, evaluate, new_readiness_policy_chain, new_trigger_policy_chain,
}
use cert_manager.Policies.Verdicts.{new_readiness_policy_chain-Safe}
use cert_manager.Policies.Reissue.{
  Fits, secret_issuer_annotations_mismatch-exact, new_trigger_policy_chain-Fits,
  current_certificate_nearing_expiry_panics,
}
use cert_manager.Solvers.Picker.{Solver, AcmeChallenge, DomainNames, pick}
use cert_manager.Solvers.Rounds.{Weight}
use cert_manager.Solvers.Best.{Uses, IsBest, pick-IsBest}

-- Keys, certificates and requests that are the first byte of their encoding.
abbrev decode : Bytes → String ⊎ ℕ
decode [] = inl "empty"
decode (b ∷ bs) = inr b

abbrev pub toy_pki : Pki
toy_pki = record {
  PrivateKey = ℕ;
  PublicKey = ℕ;
  X509 = ℕ;
  Csr = ℕ;
  public = λ k. k;
  x509_public_key = λ c. c;
  not_before = λ c. pos 0;
  not_after = λ c. pos 9000000000000;
  csr_public_key = λ c. c;
  decode_private_key_bytes = decode;
  decode_x509_certificate_bytes = decode;
  decode_x509_certificate_request_bytes = decode;
  public_keys_equal = λ a b. inr (eqb a b);
  private_key_matches_spec = λ k c. [];
  request_matches_spec = λ r c. inr [];
  fuzzy_x509_alt_names_match_spec = λ c s. [];
}

abbrev secret_entries : String → Option Bytes
secret_entries key =
    if key == "tls.key"
    then some (7 ∷ [])
    else if key == "tls.crt"
    then some (7 ∷ [])
    else if key == "keystore.jks"
    then some (1 ∷ [])
    else none

abbrev secret_annotations : String → Option String
secret_annotations key =
    if key == "cert-manager.io/issuer-name"
    then some "ca"
    else if key == "cert-manager.io/certificate-name"
    then some "web"
    else none

abbrev pub web_secret : Secret
web_secret = record { entries = some secret_entries; annotations = secret_annotations }

abbrev pub web : Certificate
web = record {
  name = "web";
  issuer_ref = record { name = "ca"; kind = "Issuer"; group = "" };
  keystores = some (record { jks = some (record { create = true }); pkcs12 = none });
  renew_before = none;
  renew_before_percentage = none;
  renewal = none;
  status_renewal_time = none;
}

abbrev pub input : Input
input = record {
  certificate = web;
  secret = some web_secret;
  current_revision_request = some (record { request = 7 ∷ [] });
}

abbrev pub location : String → Option String
location name = some name

abbrev pub cron_parse : String → String → Option (ℤ → ℤ)
cron_parse cron zone = none

trigger_run :
    evaluate (new_trigger_policy_chain toy_pki location cron_parse (pos 5000000000000)) input
    ≡ passed
unfolding evaluate secret_does_not_exist secret_is_missing_data secret_public_keys_differ
    secret_issuer_annotations_mismatch issuer_kinds_equal issuer_groups_equal
    secret_certificate_name_annotations_mismatch secret_private_key_mismatches_spec
    secret_public_key_differs_from_current_certificate_request
    current_certificate_request_mismatches_spec current_certificate_nearing_expiry renewal_time
    time_sub planned_renewal
trigger_run = refl

new_trigger_policy_chain-Fits_example : Fits toy_pki location cron_parse (pos 5000000000000) input
new_trigger_policy_chain-Fits_example =
    new_trigger_policy_chain-Fits toy_pki location cron_parse (pos 5000000000000) input trigger_run

abbrev renewal_disabled : Renewal
renewal_disabled = record { policy = "Disabled"; windows = [] }

abbrev web_disabled : Certificate
web_disabled = record web { renewal = some renewal_disabled }

abbrev disabled_input : Input
disabled_input = record input { certificate = web_disabled }

current_certificate_nearing_expiry_panics_example :
    current_certificate_nearing_expiry toy_pki location cron_parse (pos 0) disabled_input ≡ panicked
current_certificate_nearing_expiry_panics_example =
    current_certificate_nearing_expiry_panics toy_pki location cron_parse (pos 0) disabled_input
      web_secret 7 renewal_disabled refl refl refl refl

new_readiness_policy_chain-Safe_example :
    evaluate (new_readiness_policy_chain toy_pki (pos 0)) (record input { secret = none })
    ≢ panicked
new_readiness_policy_chain-Safe_example =
    new_readiness_policy_chain-Safe toy_pki (pos 0) (record input { secret = none })

abbrev two_checks : Chain
two_checks = secret_does_not_exist ∷ secret_is_missing_data ∷ []

secret_keystore_format_mismatch-exact_example :
    is_passed (secret_keystore_format_mismatch input) ≡ (
      entries_agree
        (is_requested (jks_of web.keystores))
        (is_empty (entry web_secret "keystore.jks"))
        (is_empty (entry web_secret "truststore.jks"))
        (provides_ca web_secret)
      && entries_agree
          (is_requested (pkcs12_of web.keystores))
          (is_empty (entry web_secret "keystore.p12"))
          (is_empty (entry web_secret "truststore.p12"))
          (provides_ca web_secret))
secret_keystore_format_mismatch-exact_example =
    secret_keystore_format_mismatch-exact input web_secret refl

secret_issuer_annotations_mismatch-exact_example :
    is_passed (secret_issuer_annotations_mismatch input) ≡ (
      (or_default "Issuer" (value_of (issuer_kind web_secret)) == or_default "Issuer" "Issuer")
      && (or_default "cert-manager.io" (value_of (issuer_group web_secret))
          == or_default "cert-manager.io" "")
      && ((value_of (issuer_name web_secret) == "ca")
          || not (
              is_present (issuer_name web_secret)
              || (is_present (issuer_kind web_secret) || is_present (issuer_group web_secret)))))
secret_issuer_annotations_mismatch-exact_example =
    secret_issuer_annotations_mismatch-exact input web_secret refl

-- A solver for every domain, and one for a domain that is named.
abbrev any_domain : Solver
any_domain = record { selector = none; http01 = some "ingress"; dns01 = none }

abbrev one_domain : Solver
one_domain = record {
  selector = some (record { match_labels = []; dns_names = "a.example" ∷ []; dns_zones = [] });
  http01 = none;
  dns01 = some "provider";
}

abbrev labels : String → Option String
labels key = none

abbrev names : DomainNames
names = record { compare_domain_name = λ a b. if a == b then 2 else 0; count_label = λ a. 2 }

abbrev offered : List AcmeChallenge
offered =
    record { url = "1"; token = "t"; type = "http-01" }
    ∷ record { url = "2"; token = "u"; type = "dns-01" }
    ∷ []

pick-IsBest_example :
    ((pick names labels "a.example" offered (any_domain ∷ one_domain ∷ []) ≡ none)
      × All
          (λ c. (x : AcmeChallenge) (v : Weight) → ¬ Uses names labels "a.example" offered c x v)
          (any_domain ∷ one_domain ∷ []))
    ⊎ ((cfg : Solver) × (ch : AcmeChallenge) × (pick names labels "a.example" offered
            (any_domain ∷ one_domain ∷ [])
          ≡ some (cfg, ch))
        × IsBest names labels "a.example" offered (any_domain ∷ one_domain ∷ []) cfg ch)
pick-IsBest_example = pick-IsBest names labels "a.example" offered (any_domain ∷ one_domain ∷ [])
