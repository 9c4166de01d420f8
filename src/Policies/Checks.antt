-- ===== src/Policies/Checks.antt =====
-- The policy functions of internal/controller/certificates/policies/checks.go that the trigger and the
-- readiness chains use. Reading a map at a missing key gives the empty value, as in Go; a nil Secret is
-- dereferenced by every check but SecretDoesNotExist.
use cert_manager.Common.{
  String, Bool, true, false, not, ◌&&◌, ◌||◌, Option, none, some, List, [], ◌∷◌, ◌==◌,
  if◌then◌else◌, inl, inr,
}
use cert_manager.Common.Bytes.{Bytes}
use cert_manager.Common.Int.{ℤ, pos, ltb_ℤ}
use cert_manager.Renewal.Time.{time_sub}
use cert_manager.Renewal.Windows.{renewal_time}
use cert_manager.Renewal.Windows.{RenewalError}
use cert_manager.Policies.Input.{
  Secret, Input, CertificateRequest, Argument, text, list, time, window, Verdict, passed, failed,
  panicked, Pki, does_not_exist, missing_data, invalid_key_pair, invalid_certificate,
  invalid_certificate_request, secret_mismatch, incorrect_issuer, incorrect_certificate,
  request_changed, renewing, expired, window_error,
}

abbrev pub with_secret : Input → (Secret → Verdict) → Verdict
with_secret input check = elim input.secret [ none ↦ panicked | some s ↦ check s ]

-- `Secret.Data[key]`
abbrev pub entry : Secret → String → Bytes
entry s key = elim s.entries [
  | none ↦ []
  | some entries ↦ elim (entries key) [ none ↦ [] | some v ↦ v ]
]

abbrev pub is_empty {ℓ} : {A : Type ℓ} → List A → Bool
is_empty [] = true
is_empty (x ∷ xs) = false

abbrev pub tls_key : Secret → Bytes
tls_key s = entry s "tls.key"

abbrev pub tls_crt : Secret → Bytes
tls_crt s = entry s "tls.crt"

unfoldable pub secret_does_not_exist : Input → Verdict
secret_does_not_exist input = elim input.secret [
  | none ↦ failed does_not_exist "Issuing certificate as Secret does not exist" []
  | some s ↦ passed
]

unfoldable pub secret_is_missing_data : Input → Verdict
secret_is_missing_data input = with_secret input (λ s. elim s.entries [
  | none ↦ failed missing_data "Issuing certificate as Secret does not contain any data" []
  | some entries ↦
      if is_empty (tls_key s)
      then failed missing_data "Issuing certificate as Secret does not contain a private key" []
      else if is_empty (tls_crt s)
      then failed missing_data "Issuing certificate as Secret does not contain a certificate" []
      else passed
])

abbrev pub or_default : String → String → String
or_default d s = if s == "" then d else s

unfoldable pub issuer_kinds_equal : String → String → Bool
issuer_kinds_equal l r = or_default "Issuer" l == or_default "Issuer" r

unfoldable pub issuer_groups_equal : String → String → Bool
issuer_groups_equal l r = or_default "cert-manager.io" l == or_default "cert-manager.io" r

-- The arguments of the format "%s.%s/%s".
unfoldable pub format_issuer_ref : (name kind group : String) → List Argument
format_issuer_ref name kind group =
    text (or_default "Issuer" kind) ∷ text (or_default "cert-manager.io" group) ∷ text name ∷ []

abbrev pub is_present : Option String → Bool
is_present none = false
is_present (some v) = true

abbrev pub value_of : Option String → String
value_of none = ""
value_of (some v) = v

abbrev pub issuer_name : Secret → Option String
issuer_name s = s.annotations "cert-manager.io/issuer-name"

abbrev pub issuer_kind : Secret → Option String
issuer_kind s = s.annotations "cert-manager.io/issuer-kind"

abbrev pub issuer_group : Secret → Option String
issuer_group s = s.annotations "cert-manager.io/issuer-group"

-- `&&` binds more tightly than `||`.
unfoldable pub secret_issuer_annotations_mismatch : Input → Verdict
secret_issuer_annotations_mismatch input =
    let ref = input.certificate.issuer_ref in
    with_secret input (λ s.
      let name = issuer_name s in
      let kind = issuer_kind s in
      let group = issuer_group s in
      let any_present = is_present name || (is_present kind || is_present group) in
      if (any_present && not (value_of name == ref.name))
        || (not (issuer_kinds_equal (value_of kind) ref.kind)
            || not (issuer_groups_equal (value_of group) ref.group))
      then failed incorrect_issuer
          "Issuing certificate as Secret was previously issued by \"%s.%s/%s\""
          (format_issuer_ref (value_of name) (value_of kind) (value_of group))
      else passed)

abbrev pub certificate_name : Secret → Option String
certificate_name s = s.annotations "cert-manager.io/certificate-name"

unfoldable pub secret_certificate_name_annotations_mismatch : Input → Verdict
secret_certificate_name_annotations_mismatch input = with_secret input (λ s.
    elim (certificate_name s) [
      | none ↦ passed
      | some name ↦
          if name == input.certificate.name
          then passed
          else failed incorrect_certificate
              "Secret was issued for %q. If this message is not transient, you might have two conflicting Certificates pointing to the same secret."
              (text name ∷ [])
    ])

module _ (pki : Pki) where
  unfoldable pub secret_public_keys_differ : Input → Verdict
  secret_public_keys_differ input = with_secret input (λ s.
      elim (pki.decode_private_key_bytes (tls_key s)) [
        | inl err ↦
            failed invalid_key_pair
              "Issuing certificate as Secret contains invalid private key data: %v" (text err ∷ [])
        | inr pk ↦ elim (pki.decode_x509_certificate_bytes (tls_crt s)) [
          | inl err ↦
              failed invalid_certificate
                "Issuing certificate as Secret contains an invalid certificate: %v" (text err ∷ [])
          | inr crt ↦ elim (pki.public_keys_equal (pki.x509_public_key crt) (pki.public pk)) [
            | inl err ↦
                failed invalid_key_pair "Secret contains an invalid key-pair: %v" (text err ∷ [])
            | inr equal ↦
                if equal
                then passed
                else failed invalid_key_pair
                    "Issuing certificate as Secret contains a private key that does not match the certificate"
                    []
          ]
        ]
      ])

  unfoldable pub secret_private_key_mismatches_spec : Input → Verdict
  secret_private_key_mismatches_spec input = with_secret input (λ s.
      elim (pki.decode_private_key_bytes (tls_key s)) [
        | inl err ↦
            failed invalid_key_pair
              "Issuing certificate as Secret contains invalid private key data: %v" (text err ∷ [])
        | inr pk ↦
            let violations = pki.private_key_matches_spec pk input.certificate in
            if is_empty violations
            then passed
            else failed secret_mismatch "Existing private key is not up to date for spec: %v"
                (list violations ∷ [])
      ])

  unfoldable pub public_key_differs_from_request : CertificateRequest → Secret → Verdict
  public_key_differs_from_request request s = elim (pki.decode_private_key_bytes (tls_key s)) [
    | inl err ↦
        failed invalid_key_pair
          "Issuing certificate as Secret contains invalid private key data: %v" (text err ∷ [])
    | inr pk ↦ elim (pki.decode_x509_certificate_request_bytes request.request) [
      | inl err ↦
          failed invalid_certificate_request "Failed to decode current CertificateRequest: %v"
            (text err ∷ [])
      | inr csr ↦ elim (pki.public_keys_equal (pki.csr_public_key csr) (pki.public pk)) [
        | inl err ↦
            failed invalid_certificate_request "CertificateRequest's public key is invalid: %v"
              (text err ∷ [])
        | inr equal ↦
            if equal
            then passed
            else failed secret_mismatch
                "Secret contains a private key that does not match the current CertificateRequest"
                []
      ]
    ]
  ]

  unfoldable pub secret_public_key_differs_from_current_certificate_request : Input → Verdict
  unfolding public_key_differs_from_request
  secret_public_key_differs_from_current_certificate_request input =
      elim input.current_revision_request [
        | none ↦ passed
        | some request ↦ with_secret input (public_key_differs_from_request request)
      ]

  unfoldable pub current_secret_valid_for_spec : Input → Verdict
  current_secret_valid_for_spec input = with_secret input (λ s.
      elim (pki.decode_x509_certificate_bytes (tls_crt s)) [
        | inl err ↦
            failed invalid_certificate
              "Issuing certificate as Secret contains an invalid certificate: %v" (text err ∷ [])
        | inr crt ↦
            let violations = pki.fuzzy_x509_alt_names_match_spec crt input.certificate in
            if is_empty violations
            then passed
            else failed secret_mismatch
                "Issuing certificate as Existing issued Secret is not up to date for spec: %v"
                (list violations ∷ [])
      ])

  unfoldable pub current_certificate_request_mismatches_spec : Input → Verdict
  unfolding current_secret_valid_for_spec
  current_certificate_request_mismatches_spec input = elim input.current_revision_request [
    | none ↦ current_secret_valid_for_spec input
    | some request ↦ elim (pki.request_matches_spec request input.certificate) [
      | inl err ↦ passed
      | inr violations ↦
          if is_empty violations
          then passed
          else failed request_changed
              "Fields on existing CertificateRequest resource not up to date: %v"
              (list violations ∷ [])
    ]
  ]

  unfoldable pub current_certificate_has_expired : (now : ℤ) → Input → Verdict
  current_certificate_has_expired now input = with_secret input (λ s.
      elim (pki.decode_x509_certificate_bytes (tls_crt s)) [
        | inl err ↦
            failed invalid_certificate
              "Issuing certificate as Secret contains an invalid certificate: %v" (text err ∷ [])
        | inr crt ↦
            if ltb_ℤ (pki.not_after crt) now
            then failed expired "Certificate expired on %s" (time (some (pki.not_after crt)) ∷ [])
            else passed
      ])

  module _ (location : String → Option String) (cron_parse : String → String → Option (ℤ → ℤ)) where
    -- RenewalTime of the Secret's certificate, with the Certificate's spec.
    unfoldable pub renewal_of : Input → pki.X509 → Option ℤ × Option RenewalError
    renewal_of input crt =
        renewal_time location cron_parse (pki.not_before crt) (pki.not_after crt)
          input.certificate.renew_before input.certificate.renew_before_percentage
          input.certificate.renewal

    -- `renewalTime.Time` panics on a nil `renewalTime`.
    unfoldable pub current_certificate_nearing_expiry : (now : ℤ) → Input → Verdict
    unfolding renewal_of
    current_certificate_nearing_expiry now input = with_secret input (λ s.
        elim (pki.decode_x509_certificate_bytes (tls_crt s)) [
          | inl err ↦
              failed invalid_certificate
                "Issuing certificate as Secret contains an invalid certificate: %v" (text err ∷ [])
          | inr crt ↦ elim (renewal_of input crt).0 [
            | none ↦ panicked
            | some at ↦
                if ltb_ℤ (pos 0) (time_sub at now) then passed else elim (renewal_of input crt).1 [
                  | none ↦
                      failed renewing "Renewing certificate as renewal was scheduled at %s"
                        (time input.certificate.status_renewal_time ∷ [])
                  | some err ↦ failed window_error "%s" (window err ∷ [])
                ]
          ]
        ])
