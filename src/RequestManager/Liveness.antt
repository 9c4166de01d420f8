-- ===== src/RequestManager/Liveness.antt =====
-- pkg/controller/certificates/requestmanager creates a CertificateRequest when nothing fails and no request
-- is usable.
use cert_manager.Common.{
  ℕ, Bool, true, false, Option, none, some, List, [], ◌∷◌, ◌≡◌, ◌≢◌, inl, inr, refl, sym, ◌∙◌,
  String, arith, All, select, nil-select, subst, Option-cases, All-select,
}
use cert_manager.Common.Bytes.{Bytes}
use cert_manager.Common.Pairs.{All-map}
use cert_manager.Common.Int.{ℤ}
use cert_manager.Conditions.Entry.{CertificateCondition}
use cert_manager.Conditions.Operations.{certificate_has_condition}
use cert_manager.Naming.Shorten.{compute_secure_unique_deterministic_name_from_data}
use cert_manager.Naming.Length.{compute_name_exists}
use cert_manager.Policies.Checks.{is_empty}
use cert_manager.Policies.Input.{Pki, Secret}
use cert_manager.RequestManager.Creation.{
  select_wanted, decide_revision-not-abandon, decide_failed-not-abandon, decide_spec-not-abandon,
  All-of,
}
use cert_manager.RequestManager.Process.{
  IssuingCertificate, NewRequest, Effects, Tools, Answers, Options, next_revision, next_key_data,
  stops, after, process_item, process_key, sweep_requests, sweep_current, create_if_none,
  create_new_certificate_request,
}
use cert_manager.RequestManager.Progress.{after-kept}
use cert_manager.RequestManager.Sweep.{
  Request, Decision, Swept, keep, remove, fail, abandon, sweep, decide_revision, revision_of,
  requests_with_revision, decide_spec, decide_failed, kept, keep_revised,
}
use cert_manager.RequestManager.Sweeping.{
  is_keep, IsSettled, of_revision, sweep-settled, requests_with_revision-decide_revision,
}
use cert_manager.RequestManager.Numbers.{IsNext, IsNext-eq}
use cert_manager.RequestManager.Decisions.{IsComparable, IsComparable-not-fail}
use cert_manager.RequestManager.Wanted.{IsWanted, is_wanted, not_wanted}
use cert_manager.Revisions.Collector.{Fetch, found}
use cert_manager.Trigger.Process.{issuing_true}

settled : (d : Decision) (b : Bool) → d ≢ fail → d ≢ abandon → b ≡ true → IsSettled d b
settled keep b f a e = inl refl
settled remove b f a e = inr (refl, e)
settled fail b f a e = absurd (f refl)
settled abandon b f a e = absurd (a refl)

keep_revised-not-fail : (o : Option ℤ) → keep_revised o ≢ fail
keep_revised-not-fail none e = ground arith
keep_revised-not-fail (some n) e = ground arith

decide_revision-not-fail :
    (parse_int : String → Option ℤ) (r : Request) → decide_revision parse_int r ≢ fail
unfolding decide_revision
decide_revision-not-fail parse_int r = keep_revised-not-fail (revision_of parse_int r)

decide_failed-not-fail :
    (before : Option ℕ → Option ℕ → Bool) (cs : List CertificateCondition) (r : Request)
    → decide_failed before cs r ≢ fail
unfolding decide_failed
decide_failed-not-fail before cs r = ground arith

-- The limit of 233 is large enough for a hash.
stable-name_exists :
    (sha256_hex : String → String) (name : String)
    → compute_secure_unique_deterministic_name_from_data sha256_hex name 233 ≢ none
stable-name_exists sha256_hex name = compute_name_exists sha256_hex name 233 (omega arith)

-- The effects are a creation without an error.
abbrev pub Creates : Effects → Type 0
Creates e = (new : NewRequest) × (e.created ≡ some new) × (e.error ≡ false)

Creates-after :
    (s : Swept) (next : List Request → Effects) (rs : List Request)
    → s.remaining ≡ kept rs
    → Creates (next rs)
    → Creates (after s next)
Creates-after s next rs e c = let k = after-kept s next rs e in (c.0, k.0 ∙ c.1, k.1 ∙ c.2)

Creates-found :
    (o : Option (List Request)) (rs : List Request) (f : List Request → Effects)
    → o ≡ some rs
    → Creates (f rs)
    → Creates (elim o as (λ x. Effects) [ none ↦ stops true | some a ↦ f a ])
Creates-found o rs f e c = rw e c

module _ (pki : Pki) (tools : Tools pki) (options : Options) (answers : Answers) where
  -- What ProcessItem does once it is past its guards.
  process_item-sweeps :
      (crt : IssuingCertificate) (secrets : String → Fetch Secret) (requests : List Request)
      (secret_name : String) (secret : Secret) (key : pki.PrivateKey)
      → crt.deleting ≡ false
      → certificate_has_condition (some crt.conditions) issuing_true ≡ true
      → crt.next_private_key_secret_name ≡ some secret_name
      → secrets secret_name ≡ found secret
      → is_empty (next_key_data secret) ≡ false
      → pki.decode_private_key_bytes (next_key_data secret) ≡ inr key
      → process_item pki tools options answers (found crt) secrets (some requests)
        ≡ sweep_requests pki tools options answers crt key secret_name requests
  unfolding process_item process_key
  process_item-sweeps crt secrets requests secret_name secret key d i n s x k =
      rw d (rw i (rw n (rw s (rw x (rw k refl)))))

  create-succeeds :
      (crt : IssuingCertificate) (key : pki.PrivateKey) (revision : ℤ) (secret_name : String)
      (pem : Bytes)
      → tools.csr_pem crt key ≡ some (inr pem)
      → answers.creation ≡ true
      → answers.appears ≡ true
      → (create_new_certificate_request pki tools options answers crt key revision
          secret_name).error
        ≡ false
  unfolding create_new_certificate_request
  create-succeeds crt key revision secret_name pem c a b =
      ground (arith, stable-name_exists tools.sha256_hex crt.name)

  create-created :
      (crt : IssuingCertificate) (key : pki.PrivateKey) (revision : ℤ) (secret_name : String)
      (pem : Bytes)
      → tools.csr_pem crt key ≡ some (inr pem)
      → (create_new_certificate_request pki tools options answers crt key revision
          secret_name).created
        ≢ none
  unfolding create_new_certificate_request
  create-created crt key revision secret_name pem c =
      ground (arith, stable-name_exists tools.sha256_hex crt.name)

  create_new_certificate_request-Creates :
      (crt : IssuingCertificate) (key : pki.PrivateKey) (revision : ℤ) (secret_name : String)
      (pem : Bytes)
      → tools.csr_pem crt key ≡ some (inr pem)
      → answers.creation ≡ true
      → answers.appears ≡ true
      → Creates
          (create_new_certificate_request pki tools options answers crt key revision secret_name)
  create_new_certificate_request-Creates crt key revision secret_name pem c a b =
      elim (Option-cases
        (create_new_certificate_request pki tools options answers crt key revision
          secret_name).created) [
            | inl e ↦ absurd (create-created crt key revision secret_name pem c e)
            | inr (new, e) ↦ (new, e, create-succeeds crt key revision secret_name pem c a b)
          ]

  create_if_none-Creates :
      (crt : IssuingCertificate) (key : pki.PrivateKey) (secret_name : String) (rs : List Request)
      → rs ≡ []
      → Creates (
          create_new_certificate_request pki tools options answers crt key
            (next_revision crt.revision)
            secret_name)
      → Creates (create_if_none pki tools options answers crt key secret_name rs)
  unfolding create_if_none
  create_if_none-Creates crt key secret_name [] e c = c
  create_if_none-Creates crt key secret_name (r ∷ rs) e c = absurd (ground arith)

  -- The loops, where every deletion succeeds and no public keys are incomparable.
  sweep_requests-Creates :
      (crt : IssuingCertificate) (key : pki.PrivateKey) (secret_name : String)
      (owned : List Request)
      → certificate_has_condition (some crt.conditions) issuing_true ≡ true
      → ((r : Request) → answers.deleted r ≡ true)
      → All (λ r. decide_spec pki crt.spec (pki.public key) r ≢ fail) owned
      → All (λ r. is_wanted pki tools crt (next_revision crt.revision) key r ≡ false) owned
      → Creates (
          create_new_certificate_request pki tools options answers crt key
            (next_revision crt.revision)
            secret_name)
      → Creates (sweep_requests pki tools options answers crt key secret_name owned)
  unfolding sweep_requests sweep_current
  sweep_requests-Creates crt key secret_name owned issuing del spec unwanted c =
      let revised = select (λ r. is_keep (decide_revision tools.parse_int r)) owned in
      let current = select (of_revision tools.parse_int (next_revision crt.revision)) owned in
      let matching = select (λ r. is_keep (decide_spec pki crt.spec (pki.public key) r)) current in
      let rest = select (λ r. is_keep (decide_failed tools.before crt.conditions r)) matching in
      Creates-after (sweep (decide_revision tools.parse_int) answers.deleted owned)
        (λ rs.
          elim (requests_with_revision tools.parse_int (next_revision crt.revision) rs)
            as (λ x. Effects) [
              | none ↦ stops true
              | some a ↦ sweep_current pki tools options answers crt key secret_name a
            ])
        revised
        (sweep-settled (decide_revision tools.parse_int) answers.deleted owned (
          All-of _ owned (λ r.
            settled _ _ (decide_revision-not-fail tools.parse_int r)
              (decide_revision-not-abandon tools.parse_int r) (del r))))
        (Creates-found _ current (sweep_current pki tools options answers crt key secret_name)
          (requests_with_revision-decide_revision tools.parse_int (next_revision crt.revision)
            owned)
          (Creates-after (sweep (decide_spec pki crt.spec (pki.public key)) answers.deleted current)
            (λ rs.
              after (sweep (decide_failed tools.before crt.conditions) answers.deleted rs)
                (create_if_none pki tools options answers crt key secret_name))
            matching
            (sweep-settled (decide_spec pki crt.spec (pki.public key)) answers.deleted current (
              All-map current
                (λ r f.
                  settled _ _ f (decide_spec-not-abandon pki crt.spec (pki.public key) r) (del r))
                (All-select _ _ owned spec)))
            (Creates-after
              (sweep (decide_failed tools.before crt.conditions) answers.deleted matching)
              (create_if_none pki tools options answers crt key secret_name) rest
              (sweep-settled (decide_failed tools.before crt.conditions) answers.deleted matching (
                All-of _ matching (λ r.
                  settled _ _ (decide_failed-not-fail tools.before crt.conditions r)
                    (decide_failed-not-abandon tools.before crt.conditions r issuing) (del r))))
              (create_if_none-Creates crt key secret_name rest
                (select_wanted pki tools options answers crt key owned
                  ∙ nil-select _ owned unwanted)
                c))))

  -- The controller asks for the creation of a CertificateRequest, and returns no error, for a Certificate
  -- that is not being deleted and is being issued, whose next private key is stored and decodes, when no
  -- owned request is of the revision after the Certificate's, as its spec and the stored key want it and not
  -- failed before this issuance, the CSRs of those that are as the spec wants them decode and their keys can
  -- be compared, every deletion succeeds, a request can be made and signed, its creation succeeds and the new
  -- request appears in the lister.
  pub process_item-Creates :
      (crt : IssuingCertificate) (secrets : String → Fetch Secret) (requests : List Request)
      (secret_name : String) (secret : Secret) (key : pki.PrivateKey) (pem : Bytes) (next : ℤ)
      → crt.deleting ≡ false
      → certificate_has_condition (some crt.conditions) issuing_true ≡ true
      → crt.next_private_key_secret_name ≡ some secret_name
      → secrets secret_name ≡ found secret
      → is_empty (next_key_data secret) ≡ false
      → pki.decode_private_key_bytes (next_key_data secret) ≡ inr key
      → IsNext crt.revision next
      → ((r : Request) → answers.deleted r ≡ true)
      → All (IsComparable pki crt.spec (pki.public key)) requests
      → All (λ r. ¬ IsWanted pki tools crt next key r) requests
      → tools.csr_pem crt key ≡ some (inr pem)
      → answers.creation ≡ true
      → answers.appears ≡ true
      → Creates (process_item pki tools options answers (found crt) secrets (some requests))
  process_item-Creates crt secrets requests secret_name secret key pem next d i n s x k nx del
        comparable unwanted c a b =
      subst Creates
        (sym (process_item-sweeps crt secrets requests secret_name secret key d i n s x k))
        (sweep_requests-Creates crt key secret_name requests i del
          (All-map _ (λ r m. IsComparable-not-fail pki crt.spec (pki.public key) r m) comparable)
          (subst (λ (v : ℤ). All (λ r. is_wanted pki tools crt v key r ≡ false) requests)
            (sym (IsNext-eq crt.revision next nx))
            (All-map _ (λ r m. not_wanted pki tools crt next key r m) unwanted))
          (create_new_certificate_request-Creates crt key (next_revision crt.revision) secret_name
            pem c a b))
