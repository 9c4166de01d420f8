-- ===== src/Issuing/Storing.antt =====
-- When pkg/controller/certificates/issuing writes a certificate to the target Secret.
use cert_manager.Common.{
  All, ◌++◌, ℕ, String, Bool, true, false, Option, none, some, List, [], ◌∷◌, ◌≡◌, refl, sym, ◌∙◌,
  ap, arith, ◌==◌, not, inr, some_injective, true_of_not,
}
use cert_manager.Common.Branches.{past_guard, past_option, past_sum}
use cert_manager.Common.Int.{ℤ}
use cert_manager.Conditions.Operations.{certificate_has_condition, get_certificate_condition}
use cert_manager.Common.Pairs.{All-map}
use cert_manager.Issuing.Listing.{
  evaluate, certificate_request_revision, list_certificate_requests_matching_predicates, IsOnly,
  matching-IsOnly,
}
use cert_manager.RequestManager.Process.{next_revision}
use cert_manager.RequestManager.Numbers.{IsNext, next_revision-IsNext}
use cert_manager.RequestManager.Decisions.{true_not_false}
use cert_manager.Issuing.Process.{
  TargetCertificate, IssuedRequest, SecretData, Effects, Answers, Tools, failed_before,
  check_request, of_next_revision, check_listed, check_requests, check_key, process_certificate,
}
use cert_manager.Policies.Checks.{is_empty, entry}
use cert_manager.Policies.Input.{Pki, Secret}
use cert_manager.Revisions.Collector.{Fetch, found, missing, failure}
use cert_manager.Trigger.Process.{issuing_true}
use cert_manager.Issuing.Requests.{Stores, IsIssued, check_states-IsIssued}

module _ (pki : Pki) (tools : Tools pki) (answers : Answers) (now : ℕ) (content : SecretData) where
  -- The request is annotated with the revision, and the Certificate is its controller.
  abbrev pub IsOurs : TargetCertificate → (revision : ℤ) → IssuedRequest → Type 0
  IsOurs crt revision r =
      (text : String) × (r.revision_annotation ≡ some text)
      × ((text == tools.itoa revision) ≡ true)
      × (tools.is_controlled_by r crt.uid ≡ true)

  revision-text :
      (revision : ℤ) (o : Option String)
      → certificate_request_revision tools.itoa revision o ≡ true
      → (text : String) × (o ≡ some text) × ((text == tools.itoa revision) ≡ true)
  unfolding certificate_request_revision
  revision-text revision none h = absurd (ground arith)
  revision-text revision (some text) h = (text, refl, h)

  IsOurs-passes :
      (crt : TargetCertificate) (r : IssuedRequest)
      → IsOurs crt (next_revision crt.status.revision) r
      → evaluate (of_next_revision pki tools answers now crt) r ≡ true
  unfolding evaluate certificate_request_revision
  IsOurs-passes crt r (text, a, t, o) = ground arith

  passes-IsOurs :
      (crt : TargetCertificate) (r : IssuedRequest)
      → evaluate (of_next_revision pki tools answers now crt) r ≡ true
      → IsOurs crt (next_revision crt.status.revision) r
  unfolding evaluate
  passes-IsOurs crt r h =
      let (text, a, t) =
        revision-text (next_revision crt.status.revision) r.revision_annotation (ground arith) in
      (text, a, t, ground arith)

  fails-IsOurs :
      (crt : TargetCertificate) (r : IssuedRequest)
      → evaluate (of_next_revision pki tools answers now crt) r ≡ false
      → ¬ IsOurs crt (next_revision crt.status.revision) r
  fails-IsOurs crt r h o = true_not_false (sym (IsOurs-passes crt r o) ∙ h)

  -- What it has established about the Certificate.
  pub record Issues (crt : TargetCertificate) (secrets : String → Fetch Secret)
      (listed : Option (List IssuedRequest)) : Type 0 where
    pub not_deleting : crt.deleting ≡ false
    pub issuing : certificate_has_condition (some crt.status.conditions) issuing_true ≡ true
    pub secret_name : String
    pub named : crt.status.next_private_key_secret_name ≡ some secret_name
    pub secret : Secret
    pub stored : secrets secret_name ≡ found secret
    pub key : pki.PrivateKey
    pub key_decoded : pki.decode_private_key_bytes (entry secret "tls.key") ≡ inr key
    pub key_fits : is_empty (pki.private_key_matches_spec key crt.spec) ≡ true
    pub req : IssuedRequest
    pub requests : List IssuedRequest
    pub is_listed : listed ≡ some requests
    pub next : ℤ
    pub is_next : IsNext crt.status.revision next
    pub before : List IssuedRequest
    pub after : List IssuedRequest
    pub split : requests ≡ before ++ req ∷ after
    pub is_ours : IsOurs crt next req
    pub none_before : All (λ r. ¬ IsOurs crt next r) before
    pub none_after : All (λ r. ¬ IsOurs crt next r) after
    pub fits : pki.request_matches_spec req.spec crt.spec ≡ inr []
    pub is_issued : IsIssued pki tools answers now content crt req key

  past_failed :
      (o : Option Bool) (x y z : Effects)
      → ¬ Stores pki tools answers now content x
      → ¬ Stores pki tools answers now content y
      → Stores pki tools answers now content
          (elim o as (λ b. Effects) [ none ↦ x | some true ↦ y | some false ↦ z ])
      → Stores pki tools answers now content z
  past_failed none x y z n m h = absurd (n h)
  past_failed (some true) x y z n m h = absurd (m h)
  past_failed (some false) x y z n m h = h

  past_fetch :
      {A : Type 0} (o : Fetch A) (x y : Effects) (go : A → Effects)
      → ¬ Stores pki tools answers now content x
      → ¬ Stores pki tools answers now content y
      → Stores pki tools answers now content
          (elim o as (λ b. Effects) [ missing ↦ x | failure ↦ y | found a ↦ go a ])
      → (a : A) × (o ≡ found a) × Stores pki tools answers now content (go a)
  past_fetch missing x y go n m h = absurd (n h)
  past_fetch failure x y go n m h = absurd (m h)
  past_fetch (found a) x y go n m h = (a, refl, h)

  nil_of_is_empty : (l : List String) → is_empty l ≡ true → l ≡ []
  nil_of_is_empty [] e = refl
  nil_of_is_empty (x ∷ l) e = absurd (ground arith)

  check_request-IsIssued :
      (crt : TargetCertificate) (req : IssuedRequest) (key : pki.PrivateKey)
      → Stores pki tools answers now content (check_request pki tools answers now crt req key)
      → (pki.request_matches_spec req.spec crt.spec ≡ inr [])
        × IsIssued pki tools answers now content crt req key
  unfolding check_request
  check_request-IsIssued crt req key h =
      let (violations, v, h₁) =
        past_sum (Stores pki tools answers now content) (pki.request_matches_spec req.spec crt.spec)
          _ _ (λ err q. ground arith) h in
      let (e, h₂) =
        past_guard (Stores pki tools answers now content) (not (is_empty violations)) _ _
          (λ q. ground arith) h₁ in
      let (issuing, i, h₃) =
        past_option (Stores pki tools answers now content)
          (get_certificate_condition crt.status.conditions "Issuing") _ _ (λ q. ground arith) h₂ in
      (
        v ∙ ap (λ l. inr l) (nil_of_is_empty violations (true_of_not e)),
        check_states-IsIssued pki tools answers now content crt req key (
            past_failed (failed_before pki tools answers now req issuing) _ _ _ (λ q. ground arith)
              (λ q. ground arith) h₃),
      )

  check_listed-IsIssued :
      (crt : TargetCertificate) (requests : Option (List IssuedRequest)) (key : pki.PrivateKey)
      → Stores pki tools answers now content (check_listed pki tools answers now crt requests key)
      → (req : IssuedRequest) × (requests ≡ some (req ∷ []))
        × (pki.request_matches_spec req.spec crt.spec ≡ inr [])
        × IsIssued pki tools answers now content crt req key
  unfolding check_listed
  check_listed-IsIssued crt none key h = absurd (ground arith)
  check_listed-IsIssued crt (some []) key h = absurd (ground arith)
  check_listed-IsIssued crt (some (req ∷ [])) key h =
      let (fits, is) = check_request-IsIssued crt req key h in (req, refl, fits, is)
  check_listed-IsIssued crt (some (req ∷ other ∷ rest)) key h = absurd (ground arith)

  listed-some :
      (crt : TargetCertificate) (listed : Option (List IssuedRequest)) (req : IssuedRequest)
      → list_certificate_requests_matching_predicates listed
          (of_next_revision pki tools answers now crt)
        ≡ some (req ∷ [])
      → (requests : List IssuedRequest) × (listed ≡ some requests)
        × IsOnly (of_next_revision pki tools answers now crt) requests req
  unfolding list_certificate_requests_matching_predicates
  listed-some crt none req h = absurd (ground arith)
  listed-some crt (some requests) req h = (
    requests,
    refl,
    matching-IsOnly (of_next_revision pki tools answers now crt) requests req (some_injective h),
  )

  -- When ProcessItem updates the target Secret by issueCertificate, the Certificate is not being deleted and is
  -- being issued, its next private key is stored and as the spec wants it, exactly one request of the listed ones
  -- belongs to the Certificate and is annotated with the revision after its own, that request is as the spec wants
  -- it, neither denied nor invalid and issued, the certificate in it is not expired and has the public key of the
  -- request, which is that of the stored key, and the Secret is given the encoding of that key, that certificate and
  -- its CA, the name of the Certificate and the request's issuer.
  pub process_certificate-Issues :
      (crt : TargetCertificate) (secrets : String → Fetch Secret)
      (listed : Option (List IssuedRequest))
      → Stores pki tools answers now content
          (process_certificate pki tools answers now crt secrets listed)
      → Issues crt secrets listed
  unfolding process_certificate check_key check_requests
  process_certificate-Issues crt secrets listed h =
      let (d, h₁) =
        past_guard (Stores pki tools answers now content) crt.deleting _ _ (λ q. ground arith) h in
      let (i, h₂) =
        past_guard (Stores pki tools answers now content)
          (not (certificate_has_condition (some crt.status.conditions) issuing_true)) _ _
          (λ q. ground arith) h₁ in
      let (name, n, h₃) =
        past_option (Stores pki tools answers now content) crt.status.next_private_key_secret_name _
          _ (λ q. ground arith) h₂ in
      let (e, h₄) =
        past_guard (Stores pki tools answers now content) (name == "") _ _ (λ q. ground arith) h₃ in
      let (secret, s, h₅) =
        past_fetch (secrets name) _ _ _ (λ q. ground arith) (λ q. ground arith) h₄ in
      let (x, h₆) =
        past_guard (Stores pki tools answers now content) (is_empty (entry secret "tls.key")) _ _
          (λ q. ground arith) h₅ in
      let (key, k, h₇) =
        past_sum (Stores pki tools answers now content)
          (pki.decode_private_key_bytes (entry secret "tls.key")) _ _ (λ err q. ground arith) h₆ in
      let (m, h₈) =
        past_guard (Stores pki tools answers now content)
          (not (is_empty (pki.private_key_matches_spec key crt.spec))) _ _ (λ q. ground arith) h₇ in
      let (req, only, fits, is) = check_listed-IsIssued crt _ key h₈ in
      let (requests, l, one) = listed-some crt listed req only in
      record {
        not_deleting = d;
        issuing = true_of_not i;
        secret_name = name;
        named = n;
        secret = secret;
        stored = s;
        key = key;
        key_decoded = k;
        key_fits = true_of_not m;
        req = req;
        requests = requests;
        is_listed = l;
        next = next_revision crt.status.revision;
        is_next = next_revision-IsNext crt.status.revision;
        before = one.before;
        after = one.after;
        split = one.split;
        is_ours = passes-IsOurs crt req one.passes;
        none_before = All-map _ (λ r f. fails-IsOurs crt r f) one.none_before;
        none_after = All-map _ (λ r f. fails-IsOurs crt r f) one.none_after;
        fits = fits;
        is_issued = is;
      }
