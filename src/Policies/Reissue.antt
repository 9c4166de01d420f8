-- ===== src/Policies/Reissue.antt =====
-- What it means that the trigger chain of internal/controller/certificates/policies leaves a
-- Certificate alone.
use cert_manager.Common.{
  String, Option, none, some, [], ◌≡◌, ◌≢◌, refl, sym, ◌∙◌, inl, inr, true, false, arith, All, ◌⊎◌,
  Option-cases, not, ◌&&◌, ◌||◌, ◌==◌,
}
use cert_manager.Common.Int.{ℤ, pos, ltb_ℤ}
use cert_manager.Renewal.Time.{time_sub}
use cert_manager.Policies.Input.{Input, Secret, passed, panicked, Pki}
use cert_manager.Policies.Keystores.{is_passed}
use cert_manager.Renewal.Windows.{Renewal, renewal_time}
use cert_manager.Policies.Verdicts.{evaluate-first}
use cert_manager.Policies.Checks.{
  secret_does_not_exist, secret_public_keys_differ, secret_issuer_annotations_mismatch,
  secret_certificate_name_annotations_mismatch, secret_private_key_mismatches_spec,
  current_certificate_nearing_expiry, renewal_of, tls_key, tls_crt, issuer_name, issuer_kind,
  issuer_group, is_present, value_of, or_default, issuer_kinds_equal, issuer_groups_equal,
  certificate_name,
}
use cert_manager.Policies.Chains.{Chain, evaluate, new_trigger_policy_chain}

-- On an input with a Secret, SecretIssuerAnnotationsMismatch passes exactly when the kind annotation
-- (or its default) is the kind of the Certificate's issuer, the group annotation is its group, and the name
-- annotation is its name or none of the three annotations is present. In particular the kind and
-- the group are compared with the defaults where no annotation is present.
pub secret_issuer_annotations_mismatch-exact :
    (input : Input) (s : Secret)
    → input.secret ≡ some s
    → is_passed (secret_issuer_annotations_mismatch input) ≡ (
        (or_default "Issuer" (value_of (issuer_kind s))
          == or_default "Issuer" input.certificate.issuer_ref.kind)
        && (or_default "cert-manager.io" (value_of (issuer_group s))
            == or_default "cert-manager.io" input.certificate.issuer_ref.group)
        && ((value_of (issuer_name s) == input.certificate.issuer_ref.name)
            || not (
                is_present (issuer_name s)
                || (is_present (issuer_kind s) || is_present (issuer_group s)))))
unfolding secret_issuer_annotations_mismatch issuer_kinds_equal issuer_groups_equal
secret_issuer_annotations_mismatch-exact input s h = ground arith

evaluate-passed :
    (c : Chain) (input : Input) → evaluate c input ≡ passed → All (λ f. f input ≡ passed) c
evaluate-passed c input h = elim (evaluate-first c input) [
  | inl (all, e) ↦ all
  | inr (before, after, f, split, all, ne, e) ↦ absurd (ne (sym e ∙ h))
]

Sum-cases : {B : Type 0} (x : String ⊎ B) → ((e : String) × (x ≡ inl e)) ⊎ ((b : B) × (x ≡ inr b))
Sum-cases (inl e) = inl (e, refl)
Sum-cases (inr b) = inr (b, refl)

-- A Secret that fits: its key pair is complete and consistent, it was issued for this Certificate, its
-- private key is as the spec says, and its renewal is later than `now`.
pub record Fits (pki : Pki) (location : String → Option String)
    (cron_parse : String → String → Option (ℤ → ℤ)) (now : ℤ) (input : Input) : Type 0 where
  pub the_secret : Secret
  pub private_key : pki.PrivateKey
  pub crt : pki.X509
  pub renewal_at : ℤ
  pub present : input.secret ≡ some the_secret
  pub key_decodes : pki.decode_private_key_bytes (tls_key the_secret) ≡ inr private_key
  pub crt_decodes : pki.decode_x509_certificate_bytes (tls_crt the_secret) ≡ inr crt
  pub same_keys :
      pki.public_keys_equal (pki.x509_public_key crt) (pki.public private_key) ≡ inr true
  pub issued_for :
      (n : String) → certificate_name the_secret ≡ some n → (n == input.certificate.name) ≡ true
  pub as_specified : pki.private_key_matches_spec private_key input.certificate ≡ []
  pub renewal_known : (renewal_of pki location cron_parse input crt).0 ≡ some renewal_at
  pub not_due : ltb_ℤ (pos 0) (time_sub renewal_at now) ≡ true

module _ (pki : Pki) (input : Input) (s : Secret) (h : input.secret ≡ some s) where
  keys_of :
      secret_public_keys_differ pki input ≡ passed
      → (pk : pki.PrivateKey) × (crt : pki.X509) × (pki.decode_private_key_bytes (tls_key s)
          ≡ inr pk)
        × (pki.decode_x509_certificate_bytes (tls_crt s) ≡ inr crt)
        × (pki.public_keys_equal (pki.x509_public_key crt) (pki.public pk) ≡ inr true)
  unfolding secret_public_keys_differ
  keys_of p = elim (Sum-cases (pki.decode_private_key_bytes (tls_key s))) [
    | inl (e, e') ↦ ground arith
    | inr (pk, e) ↦ elim (Sum-cases (pki.decode_x509_certificate_bytes (tls_crt s))) [
      | inl (e', e'') ↦ ground arith
      | inr (crt, e') ↦
          elim (Sum-cases (pki.public_keys_equal (pki.x509_public_key crt) (pki.public pk))) [
            | inl (q, q') ↦ ground arith
            | inr (true, q') ↦ (pk, crt, e, e', q')
            | inr (false, q') ↦ ground arith
          ]
    ]
  ]

  specified :
      (pk : pki.PrivateKey)
      → pki.decode_private_key_bytes (tls_key s) ≡ inr pk
      → secret_private_key_mismatches_spec pki input ≡ passed
      → pki.private_key_matches_spec pk input.certificate ≡ []
  unfolding secret_private_key_mismatches_spec
  specified pk e p = ground arith

  named :
      (n : String)
      → secret_certificate_name_annotations_mismatch input ≡ passed
      → certificate_name s ≡ some n
      → (n == input.certificate.name) ≡ true
  unfolding secret_certificate_name_annotations_mismatch
  named n p e = ground arith

  module _ (location : String → Option String) (cron_parse : String → String → Option (ℤ → ℤ))
      (now : ℤ) where
    renewal_later :
        (crt : pki.X509)
        → pki.decode_x509_certificate_bytes (tls_crt s) ≡ inr crt
        → current_certificate_nearing_expiry pki location cron_parse now input ≡ passed
        → (at : ℤ) × ((renewal_of pki location cron_parse input crt).0 ≡ some at)
          × (ltb_ℤ (pos 0) (time_sub at now) ≡ true)
    unfolding current_certificate_nearing_expiry
    renewal_later crt e p = elim (Option-cases (renewal_of pki location cron_parse input crt).0) [
      | inl n ↦ ground arith
      | inr (at, q) ↦ (at, q, ground arith)
    ]

    assemble :
        All (λ f. f input ≡ passed) (new_trigger_policy_chain pki location cron_parse now)
        → Fits pki location cron_parse now input
    assemble (d, (m, (k, (i, (n, (p, (r, (q, (e, u))))))))) =
        let (pk, crt, pk_e, crt_e, same) = keys_of k in
        let (at, at_e, later) = renewal_later crt crt_e e in
        record {
          the_secret = s;
          private_key = pk;
          crt = crt;
          renewal_at = at;
          present = h;
          key_decodes = pk_e;
          crt_decodes = crt_e;
          same_keys = same;
          issued_for = λ name. named name n;
          as_specified = specified pk pk_e p;
          renewal_known = at_e;
          not_due = later;
        }

missing : (input : Input) → secret_does_not_exist input ≡ passed → input.secret ≢ none
unfolding secret_does_not_exist
missing input d e = ground arith

-- The trigger policy chain passes an input only if there is a Secret whose private key and certificate
-- decode and have the same public key, whose certificate-name annotation, if present, names the
-- Certificate, whose private key has no violation of the spec, and whose certificate has a renewal time
-- that is later than the present time.
pub new_trigger_policy_chain-Fits :
    (pki : Pki) (location : String → Option String) (cron_parse : String → String → Option (ℤ → ℤ))
    (now : ℤ) (input : Input)
    → evaluate (new_trigger_policy_chain pki location cron_parse now) input ≡ passed
    → Fits pki location cron_parse now input
new_trigger_policy_chain-Fits pki location cron_parse now input h =
    let all = evaluate-passed (new_trigger_policy_chain pki location cron_parse now) input h in
    elim (Option-cases input.secret) [
      | inl e ↦ let d = all.0 in absurd (missing input d e)
      | inr (s, e) ↦ assemble pki input s e location cron_parse now all
    ]

-- For a Secret whose certificate decodes and a Certificate whose renewal policy is Disabled,
-- CurrentCertificateNearingExpiry dereferences a nil pointer, whatever the present time is.
pub current_certificate_nearing_expiry_panics :
    (pki : Pki) (location : String → Option String) (cron_parse : String → String → Option (ℤ → ℤ))
    (now : ℤ) (input : Input) (s : Secret) (crt : pki.X509) (spec : Renewal)
    → input.secret ≡ some s
    → pki.decode_x509_certificate_bytes (tls_crt s) ≡ inr crt
    → input.certificate.renewal ≡ some spec
    → spec.policy ≡ "Disabled"
    → current_certificate_nearing_expiry pki location cron_parse now input ≡ panicked
unfolding current_certificate_nearing_expiry renewal_of renewal_time
current_certificate_nearing_expiry_panics pki location cron_parse now input s crt spec a b c d =
    rw (a, b, c, d)
