-- ===== src/Policies/Input.antt =====
-- The Input of a policy function and its verdict (internal/controller/certificates/policies/policies.go
-- and constants.go), and the functions of pkg/util/pki that the checks call, as an interface.
use cert_manager.Common.{String, Bool, Option, List, ◌⊎◌}
use cert_manager.Common.Bytes.{Bytes}
use cert_manager.Common.Int.{ℤ}
use cert_manager.Renewal.Windows.{Renewal, RenewalError}

pub record Secret : Type 0 where
  -- `Data`: `none` is the nil map.
  pub entries : Option (String → Option Bytes)
  pub annotations : String → Option String

pub record IssuerRef : Type 0 where
  pub name : String
  pub kind : String
  pub group : String

-- A Keystore of either kind, and the two of a Certificate; `none` is a nil pointer.
pub record Keystore : Type 0 where
  pub create : Bool

pub record Keystores : Type 0 where
  pub jks : Option Keystore
  pub pkcs12 : Option Keystore

pub record Certificate : Type 0 where
  pub name : String
  pub issuer_ref : IssuerRef
  pub keystores : Option Keystores
  pub renew_before : Option ℤ
  pub renew_before_percentage : Option ℤ
  pub renewal : Option Renewal
  pub status_renewal_time : Option ℤ

pub record CertificateRequest : Type 0 where
  pub request : Bytes

pub record Input : Type 0 where
  pub certificate : Certificate
  pub secret : Option Secret
  pub current_revision_request : Option CertificateRequest

-- An argument of a formatted message.
pub data Argument : Type 0 where
  text : String → Argument
  list : List String → Argument
  time : Option ℤ → Argument
  window : RenewalError → Argument

-- What a policy function does: it passes, finds a violation, with the reason, the message's format and
-- the format's arguments, or dereferences a nil pointer.
pub data Verdict : Type 0 where
  passed : Verdict
  failed : (reason format : String) → List Argument → Verdict
  panicked : Verdict

pub record Pki : Type 1 where
  pub PrivateKey : Type 0
  pub PublicKey : Type 0
  pub X509 : Type 0
  pub Csr : Type 0
  pub public : PrivateKey → PublicKey
  pub x509_public_key : X509 → PublicKey
  pub not_before : X509 → ℤ
  pub not_after : X509 → ℤ
  pub csr_public_key : Csr → PublicKey
  pub decode_private_key_bytes : Bytes → String ⊎ PrivateKey
  pub decode_x509_certificate_bytes : Bytes → String ⊎ X509
  pub decode_x509_certificate_request_bytes : Bytes → String ⊎ Csr
  pub public_keys_equal : PublicKey → PublicKey → String ⊎ Bool
  pub private_key_matches_spec : PrivateKey → Certificate → List String
  pub request_matches_spec : CertificateRequest → Certificate → String ⊎ List String
  pub fuzzy_x509_alt_names_match_spec : X509 → Certificate → List String

abbrev pub does_not_exist : String
does_not_exist = "DoesNotExist"

abbrev pub missing_data : String
missing_data = "MissingData"

abbrev pub invalid_key_pair : String
invalid_key_pair = "InvalidKeyPair"

abbrev pub invalid_certificate : String
invalid_certificate = "InvalidCertificate"

abbrev pub invalid_certificate_request : String
invalid_certificate_request = "InvalidCertificateRequest"

abbrev pub secret_mismatch : String
secret_mismatch = "SecretMismatch"

abbrev pub incorrect_issuer : String
incorrect_issuer = "IncorrectIssuer"

abbrev pub incorrect_certificate : String
incorrect_certificate = "IncorrectCertificate"

abbrev pub request_changed : String
request_changed = "RequestChanged"

abbrev pub renewing : String
renewing = "Renewing"

abbrev pub expired : String
expired = "Expired"

abbrev pub window_error : String
window_error = "WindowError"
