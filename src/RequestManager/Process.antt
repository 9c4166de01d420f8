-- ===== src/RequestManager/Process.antt =====
-- ProcessItem and createNewCertificateRequest of
-- pkg/controller/certificates/requestmanager/requestmanager_controller.go. The packages strconv and metav1,
-- the hash of crypto/sha256 and
-- the functions of pkg/util/pki are parameters; what the listers and the API
-- server answer are arguments. Log lines and events are left out.
use cert_manager.Common.{
  ℕ, String, Bool, true, false, Option, none, some, List, [], ◌∷◌, ◌++◌, ◌==◌, if◌then◌else◌, ◌⊎◌,
  inl, inr, not,
}
use cert_manager.Common.Bytes.{Bytes}
use cert_manager.Common.Int.{ℤ, pos, negsuc, ◌+ℤ◌}
use cert_manager.Conditions.Entry.{CertificateCondition}
use cert_manager.Conditions.Operations.{certificate_has_condition}
use cert_manager.Naming.Shorten.{
  compute_secure_unique_deterministic_name_from_data, dns_safe_shorten_to_52_characters, hyphenated,
}
use cert_manager.Policies.Checks.{is_empty, entry}
use cert_manager.Policies.Input.{Certificate, IssuerRef, Pki, Secret}
use cert_manager.RequestManager.Annotations.{build_annotations_to_copy}
use cert_manager.RequestManager.Sweep.{
  Request, Swept, kept, abandoned, lost, sweep, decide_revision, requests_with_revision,
  decide_spec, decide_failed, equal_ℤ,
}
use cert_manager.Revisions.Collector.{Fetch, found, missing, failure}
use cert_manager.Trigger.Process.{issuing_true}

-- What the controller reads of a Certificate; `spec` is what the requests are checked against.
pub record IssuingCertificate : Type 0 where
  pub name : String
  pub uid : String
  pub annotations : String → Option String
  pub labels : String → Option String
  pub deleting : Bool
  pub conditions : List CertificateCondition
  pub next_private_key_secret_name : Option String
  pub revision : Option ℤ
  pub spec : Certificate
  pub duration : Option ℤ
  pub is_ca : Bool
  pub usages : List String

-- The request that is sent to the API server, in the Certificate's namespace; `owner` is the UID of its
-- controller reference.
pub record NewRequest : Type 0 where
  pub name : String
  pub generate_name : String
  pub annotations : String → Option String
  pub labels : String → Option String
  pub owner : String
  pub duration : Option ℤ
  pub issuer_ref : IssuerRef
  pub request : Bytes
  pub is_ca : Bool
  pub usages : List String

-- The deletions asked for, in order, the request whose creation is asked for, and whether an error is
-- returned.
pub record Effects : Type 0 where
  pub asked : List Request
  pub created : Option NewRequest
  pub error : Bool

abbrev pub stops : Bool → Effects
stops error = record { asked = []; created = none; error = error }

-- What follows a loop works on the requests that the loop returns; an abandoned loop returns none.
abbrev pub after : Swept → (List Request → Effects) → Effects
after swept next = elim swept.remaining [
  | kept requests ↦ record (next requests) { asked = swept.asked ++ (next requests).asked }
  | abandoned ↦ record (next []) { asked = swept.asked ++ (next []).asked }
  | lost ↦ record { asked = swept.asked; created = none; error = true }
]

-- `+ 1` on Go's int of 64 bits.
unfoldable pub next_revision : Option ℤ → ℤ
next_revision none = pos 1
next_revision (some n) =
    if equal_ℤ n (pos 9223372036854775807) then negsuc 9223372036854775807 else n +ℤ pos 1

abbrev pub next_key_data : Secret → Bytes
next_key_data s = entry s "tls.key"

-- What of the Go packages and of this repository's other packages the controller calls. `csr_pem` is
-- GenerateCSR followed by EncodeCSR and the PEM encoding: `none` where GenerateCSR fails, `inl` where a later
-- step does.
pub record Tools (pki : Pki) : Type 1 where
  pub parse_int : String → Option ℤ
  pub itoa : ℤ → String
  pub before : Option ℕ → Option ℕ → Bool
  pub csr_pem : IssuingCertificate → pki.PrivateKey → Option (String ⊎ Bytes)
  pub sha256_hex : String → String

-- The API server's answers: to each deletion, to the creation, and whether the lister shows the new request
-- before the wait ends.
pub record Answers : Type 0 where
  pub deleted : Request → Bool
  pub creation : Bool
  pub appears : Bool

-- `copied_annotation_prefixes` and the feature gate StableCertificateRequestName.
pub record Options : Type 0 where
  pub copied_annotation_prefixes : List String
  pub stable_names : Bool

module _ (pki : Pki) (tools : Tools pki) (options : Options) (answers : Answers) where
  unfoldable pub new_annotations :
      IssuingCertificate → (revision : ℤ) → (secret_name : String) → String → Option String
  new_annotations crt revision secret_name key =
      if key == "cert-manager.io/certificate-name"
      then some crt.name
      else if key == "cert-manager.io/private-key-secret-name"
      then some secret_name
      else if key == "cert-manager.io/certificate-revision"
      then some (tools.itoa revision)
      else build_annotations_to_copy crt.annotations options.copied_annotation_prefixes key

  unfoldable pub new_request :
      IssuingCertificate
      → Bytes
      → (revision : ℤ) → (secret_name : String) → (name generate_name : String) → NewRequest
  unfolding new_annotations
  new_request crt pem revision secret_name name generate_name = record {
    name = name;
    generate_name = generate_name;
    annotations = new_annotations crt revision secret_name;
    labels = crt.labels;
    owner = crt.uid;
    duration = crt.duration;
    issuer_ref = crt.spec.issuer_ref;
    request = pem;
    is_ca = crt.is_ca;
    usages = crt.usages;
  }

  unfoldable pub create_new_certificate_request :
      IssuingCertificate → pki.PrivateKey → (revision : ℤ) → (secret_name : String) → Effects
  unfolding new_request
  create_new_certificate_request crt pk revision secret_name = elim (tools.csr_pem crt pk) [
    | none ↦ stops false
    | some (inl err) ↦ stops true
    | some (inr pem) ↦
        if options.stable_names
        then elim (compute_secure_unique_deterministic_name_from_data tools.sha256_hex crt.name
            233) [
              | none ↦ stops true
              | some name ↦ record {
                asked = [];
                created = some (
                    new_request crt pem revision secret_name (hyphenated name (tools.itoa revision))
                      "");
                error = not answers.creation;
              }
            ]
        else record {
          asked = [];
          created = some (
              new_request crt pem revision secret_name ""
                (hyphenated (dns_safe_shorten_to_52_characters crt.name) ""));
          error = if answers.creation then not answers.appears else true;
        }
  ]

  -- From the public key on: the loops over the requests that the Certificate owns, and the creation.
  unfoldable pub create_if_none :
      IssuingCertificate → pki.PrivateKey → (secret_name : String) → List Request → Effects
  unfolding next_revision create_new_certificate_request
  create_if_none crt pk secret_name [] =
      create_new_certificate_request crt pk (next_revision crt.revision) secret_name
  create_if_none crt pk secret_name (r ∷ rs) = stops false

  unfoldable pub sweep_current :
      IssuingCertificate → pki.PrivateKey → (secret_name : String) → List Request → Effects
  unfolding create_if_none
  sweep_current crt pk secret_name current =
      after (sweep (decide_spec pki crt.spec (pki.public pk)) answers.deleted current) (λ matching.
        after (sweep (decide_failed tools.before crt.conditions) answers.deleted matching)
          (create_if_none crt pk secret_name))

  unfoldable pub sweep_requests :
      IssuingCertificate → pki.PrivateKey → (secret_name : String) → List Request → Effects
  unfolding sweep_current
  sweep_requests crt pk secret_name owned =
      after (sweep (decide_revision tools.parse_int) answers.deleted owned) (λ revised.
        elim (requests_with_revision tools.parse_int (next_revision crt.revision) revised) [
          | none ↦ stops true
          | some current ↦ sweep_current crt pk secret_name current
        ])

  unfoldable pub process_key :
      IssuingCertificate
      → (secret_name : String) → Secret
      → (owned : Option (List Request)) → Effects
  unfolding sweep_requests
  process_key crt secret_name secret owned =
      if is_empty (next_key_data secret)
      then stops false
      else elim (pki.decode_private_key_bytes (next_key_data secret)) [
        | inl err ↦ stops false
        | inr pk ↦ elim owned [
          | none ↦ stops true
          | some requests ↦ sweep_requests crt pk secret_name requests
        ]
      ]

  -- `secrets` answers for the Secret of a name, `owned` is `none` where the requests cannot be listed.
  unfoldable pub process_item :
      Fetch IssuingCertificate
      → (secrets : String → Fetch Secret) → (owned : Option (List Request)) → Effects
  unfolding process_key
  process_item failure secrets owned = stops true
  process_item missing secrets owned = stops false
  process_item (found crt) secrets owned =
      if crt.deleting
      then stops false
      else if not (certificate_has_condition (some crt.conditions) issuing_true)
      then stops false
      else elim crt.next_private_key_secret_name [
        | none ↦ stops false
        | some secret_name ↦ elim (secrets secret_name) [
          | missing ↦ stops false
          | failure ↦ stops true
          | found secret ↦ process_key crt secret_name secret owned
        ]
      ]
