-- ===== src/RequestManager/Creation.antt =====
-- When pkg/controller/certificates/requestmanager creates a CertificateRequest.
use cert_manager.Common.{
  true_of_not, some_injective, ℕ, Bool, true, false, Option, none, some, List, [], ◌∷◌, ◌≡◌, ◌≢◌,
  inr, refl, sym, ◌∙◌, ap, String, arith, All, not, ◌&&◌, select, select-select, select-nil,
}
use cert_manager.Common.Bytes.{Bytes}
use cert_manager.Common.Int.{ℤ}
use cert_manager.Conditions.Entry.{CertificateCondition}
use cert_manager.Conditions.Operations.{certificate_has_condition}
use cert_manager.Naming.Shorten.{
  compute_secure_unique_deterministic_name_from_data, dns_safe_shorten_to_52_characters, hyphenated,
}
use cert_manager.Policies.Checks.{is_empty}
use cert_manager.Policies.Input.{Certificate, Pki, Secret}
use cert_manager.RequestManager.Guards.{
  guard-created, option-created, sum-created, fetch-created, csr-created, named-created,
  after-created, issuing-get,
}
use cert_manager.RequestManager.Process.{
  IssuingCertificate, NewRequest, Tools, Answers, Options, next_revision, next_key_data,
  process_item, process_key, sweep_requests, sweep_current, create_if_none,
  create_new_certificate_request, new_request, new_annotations,
}
use cert_manager.RequestManager.Sweep.{
  Request, abandon, sweep, decide_revision, revision_of, requests_with_revision, decide_spec,
  decide_failed, keep_revised,
}
use cert_manager.RequestManager.Sweeping.{
  is_keep, of_revision, sweep-kept, sweep-not-abandoned, requests_with_revision-decide_revision,
}
use cert_manager.RequestManager.Numbers.{IsNext, next_revision-IsNext}
use cert_manager.RequestManager.Wanted.{IsWanted, is_wanted, unwanted}
use cert_manager.Common.Pairs.{All-map}
use cert_manager.Revisions.Collector.{Fetch, found}
use cert_manager.Trigger.Process.{issuing_true}

keep_revised-not-abandon : (o : Option ℤ) → keep_revised o ≢ abandon
keep_revised-not-abandon none e = ground arith
keep_revised-not-abandon (some n) e = ground arith

pub All-of : {A : Type 0} (P : A → Type 0) (xs : List A) → ((a : A) → P a) → All P xs
All-of P [] f = tt
All-of P (x ∷ xs) f = (f x, All-of P xs f)

pub decide_revision-not-abandon :
    (parse_int : String → Option ℤ) (r : Request) → decide_revision parse_int r ≢ abandon
unfolding decide_revision
decide_revision-not-abandon parse_int r = keep_revised-not-abandon (revision_of parse_int r)

pub decide_failed-not-abandon :
    (before : Option ℕ → Option ℕ → Bool) (cs : List CertificateCondition) (r : Request)
    → certificate_has_condition (some cs) issuing_true ≡ true
    → decide_failed before cs r ≢ abandon
unfolding decide_failed
decide_failed-not-abandon before cs r h = ground (arith, issuing-get cs h)

module _ (pki : Pki) where
  pub decide_spec-not-abandon :
      (crt : Certificate) (key : pki.PublicKey) (r : Request) → decide_spec pki crt key r ≢ abandon
  unfolding decide_spec
  decide_spec-not-abandon crt key r = ground arith

  module _ (tools : Tools pki) (options : Options) (answers : Answers) where
    pub select_wanted :
        (crt : IssuingCertificate) (key : pki.PrivateKey) (rs : List Request)
        → select
            (λ r. is_keep (decide_failed tools.before crt.conditions r))
            (select
              (λ r. is_keep (decide_spec pki crt.spec (pki.public key) r))
              (select (of_revision tools.parse_int (next_revision crt.revision)) rs))
          ≡ select (is_wanted pki tools crt (next_revision crt.revision) key) rs
    select_wanted crt key rs =
        ap (λ l. select (λ r. is_keep (decide_failed tools.before crt.conditions r)) l)
          (select-select (of_revision tools.parse_int (next_revision crt.revision))
            (λ r. is_keep (decide_spec pki crt.spec (pki.public key) r)) rs)
        ∙ select-select
            (λ r.
              of_revision tools.parse_int (next_revision crt.revision) r
              && is_keep (decide_spec pki crt.spec (pki.public key) r))
            (λ r. is_keep (decide_failed tools.before crt.conditions r)) rs

    -- What requestsWithRevision returns after deleteRequestsWithoutRevision.
    pub current_of_revision :
        (crt : IssuingCertificate) (owned revised current : List Request)
        → revised ≡ select (λ r. is_keep (decide_revision tools.parse_int r)) owned
        → requests_with_revision tools.parse_int (next_revision crt.revision) revised ≡ some current
        → current ≡ select (of_revision tools.parse_int (next_revision crt.revision)) owned
    current_of_revision crt owned revised current a b = some_injective (
        sym b
        ∙ (ap (requests_with_revision tools.parse_int (next_revision crt.revision)) a
            ∙ requests_with_revision-decide_revision tools.parse_int (next_revision crt.revision)
                owned))

    -- What is left after the three loops.
    pub remaining_is_wanted :
        (crt : IssuingCertificate) (key : pki.PrivateKey)
        (owned current matching rest : List Request)
        → current ≡ select (of_revision tools.parse_int (next_revision crt.revision)) owned
        → matching ≡ select (λ r. is_keep (decide_spec pki crt.spec (pki.public key) r)) current
        → rest ≡ select (λ r. is_keep (decide_failed tools.before crt.conditions r)) matching
        → rest ≡ select (is_wanted pki tools crt (next_revision crt.revision) key) owned
    remaining_is_wanted crt key owned current matching rest b c d =
        d
        ∙ (ap (select (λ r. is_keep (decide_failed tools.before crt.conditions r)))
              (c ∙ ap (select (λ r. is_keep (decide_spec pki crt.spec (pki.public key) r))) b)
            ∙ select_wanted crt key owned)

    create_if_none-created :
        (crt : IssuingCertificate) (key : pki.PrivateKey) (secret_name : String) (rs : List Request)
        (new : NewRequest)
        → (create_if_none pki tools options answers crt key secret_name rs).created ≡ some new
        → (rs ≡ [])
          × ((create_new_certificate_request pki tools options answers crt key
                (next_revision crt.revision)
                secret_name).created
              ≡ some new)
    unfolding create_if_none
    create_if_none-created crt key secret_name [] new h = (refl, h)
    create_if_none-created crt key secret_name (r ∷ rs) new h = absurd (ground arith)

    sweep_requests-created :
        (crt : IssuingCertificate) (key : pki.PrivateKey) (secret_name : String)
        (owned : List Request) (new : NewRequest)
        → certificate_has_condition (some crt.conditions) issuing_true ≡ true
        → (sweep_requests pki tools options answers crt key secret_name owned).created ≡ some new
        → All (λ r. is_wanted pki tools crt (next_revision crt.revision) key r ≡ false) owned
          × ((create_new_certificate_request pki tools options answers crt key
                (next_revision crt.revision)
                secret_name).created
              ≡ some new)
    unfolding sweep_requests sweep_current
    sweep_requests-created crt key secret_name owned new issuing h =
        let (revised, e₁, h₁) =
          after-created (sweep (decide_revision tools.parse_int) answers.deleted owned) _ new
            (sweep-not-abandoned (decide_revision tools.parse_int) answers.deleted owned
              (All-of _ owned (decide_revision-not-abandon tools.parse_int)))
            h in
        let (current, e₂, h₂) =
          option-created
            (requests_with_revision tools.parse_int (next_revision crt.revision) revised) true
            (sweep_current pki tools options answers crt key secret_name) new h₁ in
        let (matching, e₃, h₃) =
          after-created (sweep (decide_spec pki crt.spec (pki.public key)) answers.deleted current)
            _ new
            (sweep-not-abandoned (decide_spec pki crt.spec (pki.public key)) answers.deleted current
              (All-of _ current (decide_spec-not-abandon crt.spec (pki.public key))))
            h₂ in
        let (rest, e₄, h₄) =
          after-created (sweep (decide_failed tools.before crt.conditions) answers.deleted matching)
            _ new
            (sweep-not-abandoned (decide_failed tools.before crt.conditions) answers.deleted
              matching
              (All-of _ matching
                (λ r. decide_failed-not-abandon tools.before crt.conditions r issuing)))
            h₃ in
        let (nil, created) = create_if_none-created crt key secret_name rest new h₄ in
        (
          select-nil (is_wanted pki tools crt (next_revision crt.revision) key) owned (
              sym (
                remaining_is_wanted crt key owned current matching rest
                  (current_of_revision crt owned revised current
                    (sweep-kept (decide_revision tools.parse_int) answers.deleted owned revised
                      e₁).0
                    e₂)
                  (sweep-kept (decide_spec pki crt.spec (pki.public key)) answers.deleted current
                    matching e₃).0
                  (sweep-kept (decide_failed tools.before crt.conditions) answers.deleted matching
                    rest e₄).0)
              ∙ nil),
          created,
        )

    -- What the controller has established when it creates a request.
    pub record Justified (crt : IssuingCertificate) (secrets : String → Fetch Secret)
        (owned : Option (List Request)) (new : NewRequest) : Type 0 where
      pub not_deleting : crt.deleting ≡ false
      pub issuing : certificate_has_condition (some crt.conditions) issuing_true ≡ true
      pub secret_name : String
      pub next_name : crt.next_private_key_secret_name ≡ some secret_name
      pub secret : Secret
      pub stored : secrets secret_name ≡ found secret
      pub key : pki.PrivateKey
      pub decoded : pki.decode_private_key_bytes (next_key_data secret) ≡ inr key
      pub requests : List Request
      pub listed : owned ≡ some requests
      pub next : ℤ
      pub is_next : IsNext crt.revision next
      pub none_wanted : All (λ r. ¬ IsWanted pki tools crt next key r) requests
      pub signed : tools.csr_pem crt key ≡ some (inr new.request)
      pub revision : new.annotations "cert-manager.io/certificate-revision" ≡ some (tools.itoa next)
      pub key_secret : new.annotations "cert-manager.io/private-key-secret-name" ≡ some secret_name
      pub owned_by : new.owner ≡ crt.uid

    -- What a new request carries.
    IsDescribed :
        IssuingCertificate → Bytes → (revision : ℤ) → (secret_name : String) → NewRequest → Type 0
    IsDescribed crt pem revision secret_name new =
        (new.request ≡ pem)
        × (new.annotations "cert-manager.io/certificate-revision" ≡ some (tools.itoa revision))
        × (new.annotations "cert-manager.io/private-key-secret-name" ≡ some secret_name)
        × (new.owner ≡ crt.uid)

    new_request-IsDescribed :
        (crt : IssuingCertificate) (pem : Bytes) (revision : ℤ)
        (secret_name name generate_name : String)
        → IsDescribed crt pem revision secret_name
            (new_request pki tools options answers crt pem revision secret_name name generate_name)
    unfolding new_request new_annotations IsDescribed
    new_request-IsDescribed crt pem revision secret_name name generate_name =
        (refl, refl, refl, refl)

    create_new_certificate_request-created :
        (crt : IssuingCertificate) (key : pki.PrivateKey) (revision : ℤ) (secret_name : String)
        (new : NewRequest)
        → (create_new_certificate_request pki tools options answers crt key revision
            secret_name).created
          ≡ some new
        → (pem : Bytes) × (tools.csr_pem crt key ≡ some (inr pem))
          × IsDescribed crt pem revision secret_name new
    unfolding create_new_certificate_request
    create_new_certificate_request-created crt key revision secret_name new h =
        let (pem, e, made) = csr-created (tools.csr_pem crt key) _ new h in
        (
          pem,
          e,
          named-created (IsDescribed crt pem revision secret_name) options.stable_names
              (compute_secure_unique_deterministic_name_from_data tools.sha256_hex crt.name 233) _ _
              _ _ new
              (λ name.
                new_request-IsDescribed crt pem revision secret_name
                  (hyphenated name (tools.itoa revision)) "")
              (new_request-IsDescribed crt pem revision secret_name ""
                (hyphenated (dns_safe_shorten_to_52_characters crt.name) ""))
              made,
        )

    -- When ProcessItem asks for the creation of a request, the Certificate is not being deleted and is being
    -- issued, its next private key is stored and decodes, every request that it owns is of another revision,
    -- without a valid revision, not as the spec or the stored key wants it or one that failed before this
    -- issuance, and the new request is signed with the stored key and names the next revision, the
    -- key's Secret and its owner.
    pub process_item-Justified :
        (crt : IssuingCertificate) (secrets : String → Fetch Secret) (owned : Option (List Request))
        (new : NewRequest)
        → (process_item pki tools options answers (found crt) secrets owned).created ≡ some new
        → Justified crt secrets owned new
    unfolding process_item process_key IsDescribed
    process_item-Justified crt secrets owned new h =
        let (d, h₁) = guard-created crt.deleting false _ new h in
        let (i, h₂) =
          guard-created (not (certificate_has_condition (some crt.conditions) issuing_true)) false _
            new h₁ in
        let (secret_name, n, h₃) = option-created crt.next_private_key_secret_name false _ new h₂ in
        let (secret, s, h₄) = fetch-created (secrets secret_name) _ new h₃ in
        let (x, h₅) = guard-created (is_empty (next_key_data secret)) false _ new h₄ in
        let (key, k, h₆) =
          sum-created (pki.decode_private_key_bytes (next_key_data secret)) false _ new h₅ in
        let (requests, l, h₇) = option-created owned true _ new h₆ in
        let issuing = true_of_not i in
        let (idle, made) = sweep_requests-created crt key secret_name requests new issuing h₇ in
        let (pem, c, q) =
          create_new_certificate_request-created crt key (next_revision crt.revision) secret_name
            new made in
        record {
          not_deleting = d;
          issuing = issuing;
          secret_name = secret_name;
          next_name = n;
          secret = secret;
          stored = s;
          key = key;
          decoded = k;
          requests = requests;
          listed = l;
          next = next_revision crt.revision;
          is_next = next_revision-IsNext crt.revision;
          none_wanted =
              All-map _ (λ r n. unwanted pki tools crt (next_revision crt.revision) key r issuing n)
                idle;
          signed = c ∙ ap (λ b. some (inr b)) (sym q.0);
          revision = q.1;
          key_secret = q.2;
          owned_by = q.3;
        }
