-- ===== src/Issuing/Requests.antt =====
-- What pkg/controller/certificates/issuing has checked of a request when it writes its certificate to the target Secret.
use cert_manager.Common.{
  ℕ, String, Bool, true, false, Option, none, some, ◌≡◌, refl, sym, ◌∙◌, ap, arith, if◌then◌else◌,
  ◌==◌, not, inr, some_injective, true_of_not,
}
use cert_manager.Common.Branches.{past_guard, past_test, past_option, past_sum}
use cert_manager.Common.Bytes.{Bytes}
use cert_manager.Common.Int.{pos, ltb_ℤ}
use cert_manager.Conditions.Entry.{CertificateRequestCondition}
use cert_manager.Conditions.Operations.{
  get_certificate_request_condition, certificate_request_is_denied,
  certificate_request_has_invalid_request, request_ready, request_denied, request_invalid,
}
use cert_manager.Issuing.Process.{
  TargetCertificate, IssuedRequest, SecretData, Effects, Answers, Tools, ends,
  fail_issue_certificate, fail_with, secret_data, issue_certificate, check_issued, check_csr,
  check_states,
}
use cert_manager.Policies.Input.{Pki}
use cert_manager.Trigger.Process.{Ending}

module _ (pki : Pki) (tools : Tools pki) (answers : Answers) (now : ℕ) (content : SecretData) where
  abbrev pub Stores : Effects → Type 0
  Stores e = e.stored ≡ some content

  fails-stored :
      (crt : TargetCertificate) (reason message : String)
      → ¬ Stores (fail_issue_certificate pki tools answers now crt reason message)
  unfolding fail_issue_certificate
  fails-stored crt reason message h = ground arith

  fail_with-stored :
      (crt : TargetCertificate) (c : Option CertificateRequestCondition)
      → ¬ Stores (fail_with pki tools answers now crt c)
  unfolding fail_with
  fail_with-stored crt none h = ground arith
  fail_with-stored crt (some c) h = fails-stored crt c.reason c.message h

  stored_either :
      (b : Bool) (x y : Effects) (d : SecretData)
      → x.stored ≡ some d
      → y.stored ≡ some d
      → Stores (if b then x else y)
      → content ≡ d
  stored_either true x y d p q h = some_injective (sym h ∙ p)
  stored_either false x y d p q h = some_injective (sym h ∙ q)

  issue-stored :
      (crt : TargetCertificate) (req : IssuedRequest) (pk : pki.PrivateKey)
      → Stores (issue_certificate pki tools answers now crt req pk)
      → (bytes : Bytes) × (tools.encode crt.spec pk ≡ some bytes)
        × (content ≡ secret_data crt req bytes)
  unfolding issue_certificate
  issue-stored crt req pk h =
      let (bytes, e, h₁) =
        past_option Stores (tools.encode crt.spec pk) _ _ (λ q. ground arith) h in
      (bytes, e, stored_either answers.secret_updated _ _ (secret_data crt req bytes) refl refl h₁)

  check_issued-stored :
      (crt : TargetCertificate) (req : IssuedRequest) (pk : pki.PrivateKey) (csr : pki.Csr)
      → Stores (check_issued pki tools answers now crt req pk csr)
      → (x509 : pki.X509) × (pki.decode_x509_certificate_bytes req.certificate ≡ inr x509)
        × (pki.public_keys_equal (pki.x509_public_key x509) (pki.csr_public_key csr) ≡ inr true)
        × (ltb_ℤ (pki.not_after x509) (pos now) ≡ false)
        × Stores (issue_certificate pki tools answers now crt req pk)
  unfolding check_issued fail_issue_certificate
  check_issued-stored crt req pk csr h =
      let (x509, d, h₁) =
        past_sum Stores (pki.decode_x509_certificate_bytes req.certificate) _ _
          (λ err q. ground arith) h in
      let (matches, m, h₂) =
        past_sum Stores (pki.public_keys_equal (pki.x509_public_key x509) (pki.csr_public_key csr))
          _ _ (λ err q. ground arith) h₁ in
      let (t, h₃) = past_guard Stores (not matches) _ _ (λ q. ground arith) h₂ in
      let (v, h₄) =
        past_guard Stores (ltb_ℤ (pki.not_after x509) (pos now)) _ _ (λ q. ground arith) h₃ in
      (x509, d, m ∙ ap (λ b. inr b) (true_of_not t), v, h₄)

  waits-stored :
      (crt : TargetCertificate)
      → ¬ Stores (elim answers.temporary as (λ x. Effects) [
        | none ↦ ends crt Ending.error
        | some issued ↦ ends crt Ending.done
      ])
  waits-stored crt h = ground arith

  -- What the controller has established about the request when it stores a certificate.
  pub record IsIssued (crt : TargetCertificate) (req : IssuedRequest) (key : pki.PrivateKey)
      : Type 0 where
    pub not_denied : certificate_request_is_denied (some req.conditions) ≡ false
    pub not_invalid : certificate_request_has_invalid_request (some req.conditions) ≡ false
    pub ready : CertificateRequestCondition
    pub is_ready : get_certificate_request_condition req.conditions request_ready ≡ some ready
    pub issued : (ready.reason == "Issued") ≡ true
    pub csr : pki.Csr
    pub csr_decoded : pki.decode_x509_certificate_request_bytes req.spec.request ≡ inr csr
    pub csr_has_key : pki.public_keys_equal (pki.csr_public_key csr) (pki.public key) ≡ inr true
    pub x509 : pki.X509
    pub decoded : pki.decode_x509_certificate_bytes req.certificate ≡ inr x509
    pub has_csr_key :
        pki.public_keys_equal (pki.x509_public_key x509) (pki.csr_public_key csr) ≡ inr true
    pub not_expired : ltb_ℤ (pki.not_after x509) (pos now) ≡ false
    pub key_bytes : Bytes
    pub encoded : tools.encode crt.spec key ≡ some key_bytes
    pub has_private_key : content.private_key ≡ key_bytes
    pub has_certificate : content.certificate ≡ req.certificate
    pub has_ca : content.ca ≡ req.ca
    pub has_name : content.certificate_name ≡ crt.name
    pub has_issuer : content.issuer_ref ≡ req.issuer_ref

  data_of :
      (crt : TargetCertificate) (req : IssuedRequest) (key_bytes : Bytes)
      → content ≡ secret_data crt req key_bytes
      → (content.private_key ≡ key_bytes)
        × (content.certificate ≡ req.certificate)
        × (content.ca ≡ req.ca)
        × (content.certificate_name ≡ crt.name)
        × (content.issuer_ref ≡ req.issuer_ref)
  unfolding secret_data
  data_of crt req key_bytes e = (
    ap (λ (c : SecretData). c.private_key) e,
    ap (λ (c : SecretData). c.certificate) e,
    ap (λ (c : SecretData). c.ca) e,
    ap (λ (c : SecretData). c.certificate_name) e,
    ap (λ (c : SecretData). c.issuer_ref) e,
  )

  pub check_states-IsIssued :
      (crt : TargetCertificate) (req : IssuedRequest) (key : pki.PrivateKey)
      → Stores (check_states pki tools answers now crt req key)
      → IsIssued crt req key
  unfolding check_states check_csr fail_issue_certificate
  check_states-IsIssued crt req key h =
      let (d, h₁) =
        past_guard Stores (certificate_request_is_denied (some req.conditions)) _ _
          (fail_with-stored crt (get_certificate_request_condition req.conditions request_denied))
          h in
      let (i, h₂) =
        past_guard Stores (certificate_request_has_invalid_request (some req.conditions)) _ _
          (fail_with-stored crt (get_certificate_request_condition req.conditions request_invalid))
          h₁ in
      let (ready, r, h₃) =
        past_option Stores (get_certificate_request_condition req.conditions request_ready) _ _
          (λ q. ground arith) h₂ in
      let (f, h₄) = past_guard Stores (ready.reason == "Failed") _ _ (λ q. ground arith) h₃ in
      let (csr, c, h₅) =
        past_sum Stores (pki.decode_x509_certificate_request_bytes req.spec.request) _ _
          (λ err q. ground arith) h₄ in
      let (matches, m, h₆) =
        past_sum Stores (pki.public_keys_equal (pki.csr_public_key csr) (pki.public key)) _ _
          (λ err q. ground arith) h₅ in
      let (t, h₇) = past_guard Stores (not matches) _ _ (λ q. ground arith) h₆ in
      let (u, h₈) = past_test Stores (ready.reason == "Issued") _ _ (waits-stored crt) h₇ in
      let (x509, e, k, v, h₉) = check_issued-stored crt req key csr h₈ in
      let (bytes, b, all) = issue-stored crt req key h₉ in
      let (private_key, certificate, ca, certificate_name, issuer) = data_of crt req bytes all in
      record {
        not_denied = d;
        not_invalid = i;
        ready = ready;
        is_ready = r;
        issued = u;
        csr = csr;
        csr_decoded = c;
        csr_has_key = m ∙ ap (λ b. inr b) (true_of_not t);
        x509 = x509;
        decoded = e;
        has_csr_key = k;
        not_expired = v;
        key_bytes = bytes;
        encoded = b;
        has_private_key = private_key;
        has_certificate = certificate;
        has_ca = ca;
        has_name = certificate_name;
        has_issuer = issuer;
      }
