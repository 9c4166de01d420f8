-- ===== src/Policies/Keystores.antt =====
-- SecretKeystoreFormatMismatch of internal/controller/certificates/policies/checks.go.
use cert_manager.Common.{
  String, Bool, true, false, not, ◌&&◌, ◌||◌, Option, none, some, [], if◌then◌else◌, ◌≡◌, arith,
}
use cert_manager.Policies.Input.{
  Secret, Keystore, Keystores, Input, Verdict, passed, failed, panicked, secret_mismatch,
}
use cert_manager.Policies.Checks.{with_secret, entry, is_empty}

-- `_, issuerProvidesCA := input.Secret.Data["ca.crt"]`
abbrev pub provides_ca : Secret → Bool
provides_ca s = elim s.entries [
  | none ↦ false
  | some entries ↦ elim (entries "ca.crt") [ none ↦ false | some v ↦ true ]
]

-- The branches for one kind of keystore: the message of the violation, if there is one.
unfoldable pub keystore_violation :
    (no_data disabled undefined : String)
    → Option Keystore
    → (no_store no_truststore ca : Bool) → Option String
keystore_violation no_data disabled undefined (some k) no_store no_truststore ca =
    if k.create
    then (if no_store || (no_truststore && ca) then some no_data else none)
    else if not no_store || not no_truststore
    then some disabled
    else none
keystore_violation no_data disabled undefined none no_store no_truststore ca =
    if not no_store || not no_truststore then some undefined else none

unfoldable pub secret_keystore_format_mismatch : Input → Verdict
unfolding keystore_violation
secret_keystore_format_mismatch input = with_secret input (λ s.
    let jks = is_empty (entry s "keystore.jks") in
    let jks_trust = is_empty (entry s "truststore.jks") in
    let pkcs12 = is_empty (entry s "keystore.p12") in
    let pkcs12_trust = is_empty (entry s "truststore.p12") in
    elim input.certificate.keystores [
      | none ↦
          if not pkcs12 || (not pkcs12_trust || (not jks || not jks_trust))
          then failed secret_mismatch "Keystore is not defined" []
          else passed
      | some ks ↦
          elim (keystore_violation "JKS Keystore key does not contain data"
            "JKS Keystore create disabled" "JKS Keystore not defined" ks.jks jks jks_trust
            (provides_ca s)) [
              | some message ↦ failed secret_mismatch message []
              | none ↦
                  elim (keystore_violation "PKCS12 Keystore key does not contain data"
                    "PKCS12 Keystore create disabled" "PKCS12 Keystore not defined" ks.pkcs12 pkcs12
                    pkcs12_trust (provides_ca s)) [
                      | some message ↦ failed secret_mismatch message []
                      | none ↦ passed
                    ]
            ]
    ])

-- Whether a keystore of one kind is asked for, and whether the entries are as that asks: with a
-- keystore the store is there, and the truststore too if the issuer gave a CA; without one neither is.
abbrev pub is_requested : Option Keystore → Bool
is_requested none = false
is_requested (some k) = k.create

abbrev pub jks_of : Option Keystores → Option Keystore
jks_of none = none
jks_of (some ks) = ks.jks

abbrev pub pkcs12_of : Option Keystores → Option Keystore
pkcs12_of none = none
pkcs12_of (some ks) = ks.pkcs12

abbrev pub entries_agree : (requested no_store no_truststore ca : Bool) → Bool
entries_agree true no_store no_truststore ca = not no_store && (not no_truststore || not ca)
entries_agree false no_store no_truststore ca = no_store && no_truststore

abbrev pub is_passed : Verdict → Bool
is_passed passed = true
is_passed (failed r f a) = false
is_passed panicked = false

-- On an input with a Secret, SecretKeystoreFormatMismatch passes exactly when for JKS and for PKCS12
-- the Secret's entries are as the Certificate asks: where the keystore is to be created, the store
-- is not empty and, if the Secret has an entry ca.crt, neither is the truststore; where it is not, both
-- are empty.
pub secret_keystore_format_mismatch-exact :
    (input : Input) (s : Secret)
    → input.secret ≡ some s
    → is_passed (secret_keystore_format_mismatch input) ≡ (
        entries_agree
          (is_requested (jks_of input.certificate.keystores))
          (is_empty (entry s "keystore.jks"))
          (is_empty (entry s "truststore.jks"))
          (provides_ca s)
        && entries_agree
            (is_requested (pkcs12_of input.certificate.keystores))
            (is_empty (entry s "keystore.p12"))
            (is_empty (entry s "truststore.p12"))
            (provides_ca s))
unfolding secret_keystore_format_mismatch keystore_violation
secret_keystore_format_mismatch-exact input s h = ground arith
