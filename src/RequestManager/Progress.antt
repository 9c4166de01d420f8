-- ===== src/RequestManager/Progress.antt =====
-- What pkg/controller/certificates/requestmanager deletes, and that it creates a CertificateRequest when
-- nothing fails and none is usable.
use cert_manager.Common.{
  true_of_not, Bool, true, false, Option, none, some, List, [], ◌∷◌, ◌++◌, ◌≡◌, ◌≢◌, ◌⊎◌, inl, inr,
  refl, sym, String, arith, All, if◌then◌else◌, not, select, select-All, subst, All-select,
}
use mathlib.Core.List.{Memᴰ}
use cert_manager.Common.Pairs.{All-map, All-both, All-of_mem}
use cert_manager.Common.Int.{ℤ}
use cert_manager.Conditions.Operations.{certificate_has_condition}
use cert_manager.Policies.Checks.{is_empty}
use cert_manager.Policies.Input.{Pki, Secret}
use cert_manager.RequestManager.Creation.{
  decide_revision-not-abandon, decide_failed-not-abandon, decide_spec-not-abandon,
  current_of_revision, All-of,
}
use cert_manager.RequestManager.Process.{
  IssuingCertificate, Effects, Tools, Answers, Options, next_revision, next_key_data, stops, after,
  process_item, process_key, sweep_requests, sweep_current, create_if_none,
  create_new_certificate_request,
}
use cert_manager.RequestManager.Sweep.{
  Request, Swept, Remaining, remove, decide_revision, requests_with_revision, decide_spec,
  decide_failed, kept, abandoned, lost,
}
use cert_manager.RequestManager.Sweeping.{of_revision, sweep-kept, sweep-asked, sweep-not-abandoned}
use cert_manager.RequestManager.Numbers.{
  IsNext, next_revision-IsNext, decide_revision-removes, of_revision-HasRevision,
}
use cert_manager.RequestManager.Decisions.{decide_spec-IsUnfit, decide_failed-FailedBefore}
use cert_manager.RequestManager.Wanted.{IsObsolete, unversioned, unfit, failed_before}
use cert_manager.Revisions.Collector.{Fetch, found, missing, failure}
use cert_manager.Trigger.Process.{issuing_true}

-- A property of the effects goes through the parts of the controller.
module _ (P : Effects → Type 0) (stop : (error : Bool) → P (stops error)) where
  elim_guard :
      (b : Bool) (error : Bool) (e : Effects) → (b ≡ false → P e) → P (if b then stops error else e)
  elim_guard true error e p = stop error
  elim_guard false error e p = p refl

  elim_option :
      {A : Type 0} (o : Option A) (error : Bool) (f : A → Effects)
      → ((a : A) → o ≡ some a → P (f a))
      → P (elim o as (λ x. Effects) [ none ↦ stops error | some a ↦ f a ])
  elim_option none error f p = stop error
  elim_option (some a) error f p = p a refl

  elim_sum :
      {A : Type 0} (o : String ⊎ A) (error : Bool) (f : A → Effects)
      → ((a : A) → o ≡ inr a → P (f a))
      → P (elim o as (λ x. Effects) [ inl err ↦ stops error | inr a ↦ f a ])
  elim_sum (inl err) error f p = stop error
  elim_sum (inr a) error f p = p a refl

  elim_fetch :
      {A : Type 0} (o : Fetch A) (f : A → Effects)
      → ((a : A) → o ≡ found a → P (f a))
      → P (elim o as (λ x. Effects) [
        | missing ↦ stops false
        | failure ↦ stops true
        | found a ↦ f a
      ])
  elim_fetch (found a) f p = p a refl
  elim_fetch missing f p = stop false
  elim_fetch failure f p = stop true

  module _ (pki : Pki) (tools : Tools pki) (options : Options) (answers : Answers) where
    elim_process_item :
        (crt : IssuingCertificate) (secrets : String → Fetch Secret) (owned : Option (List Request))
        → ((secret_name : String) (secret : Secret) (key : pki.PrivateKey) (requests : List Request)
            → certificate_has_condition (some crt.conditions) issuing_true ≡ true
            → crt.next_private_key_secret_name ≡ some secret_name
            → secrets secret_name ≡ found secret
            → pki.decode_private_key_bytes (next_key_data secret) ≡ inr key
            → owned ≡ some requests
            → P (sweep_requests pki tools options answers crt key secret_name requests))
        → P (process_item pki tools options answers (found crt) secrets owned)
    unfolding process_item process_key
    elim_process_item crt secrets owned p = elim_guard crt.deleting false _ (λ d.
        elim_guard (not (certificate_has_condition (some crt.conditions) issuing_true)) false _
          (λ i. elim_option crt.next_private_key_secret_name false _ (λ secret_name n.
            elim_fetch (secrets secret_name) _ (λ secret s.
              elim_guard (is_empty (next_key_data secret)) false _ (λ x.
                elim_sum (pki.decode_private_key_bytes (next_key_data secret)) false _ (λ key k.
                  elim_option owned true _
                    (λ requests l. p secret_name secret key requests (true_of_not i) n s k l)))))))

All-append : {A : Type 0} (Q : A → Type 0) (xs ys : List A) → All Q xs → All Q ys → All Q (xs ++ ys)
All-append Q [] ys h k = k
All-append Q (x ∷ xs) ys h k = (h.0, All-append Q xs ys h.1 k)

after-asked_of :
    (Q : Request → Type 0) (m : Remaining) (asked : List Request) (next : List Request → Effects)
    → All Q asked
    → m ≢ abandoned
    → ((rs : List Request) → m ≡ kept rs → All Q (next rs).asked)
    → All Q (after (record { asked = asked; remaining = m }) next).asked
after-asked_of Q (kept rs) asked next h n f = All-append Q asked (next rs).asked h (f rs refl)
after-asked_of Q abandoned asked next h n f = absurd (n refl)
after-asked_of Q lost asked next h n f = h

after-asked :
    (Q : Request → Type 0) (s : Swept) (next : List Request → Effects)
    → All Q s.asked
    → s.remaining ≢ abandoned
    → ((rs : List Request) → s.remaining ≡ kept rs → All Q (next rs).asked)
    → All Q (after s next).asked
after-asked Q s next h n f = after-asked_of Q s.remaining s.asked next h n f

-- Where a loop returns requests, what follows decides what is created and the error.
after-kept_of :
    (m : Remaining) (asked : List Request) (next : List Request → Effects) (rs : List Request)
    → m ≡ kept rs
    → ((after (record { asked = asked; remaining = m }) next).created ≡ (next rs).created)
      × ((after (record { asked = asked; remaining = m }) next).error ≡ (next rs).error)
after-kept_of m asked next rs e = rw e (refl, refl)

pub after-kept :
    (s : Swept) (next : List Request → Effects) (rs : List Request)
    → s.remaining ≡ kept rs
    → ((after s next).created ≡ (next rs).created) × ((after s next).error ≡ (next rs).error)
after-kept s next rs e = after-kept_of s.remaining s.asked next rs e

module _ (pki : Pki) (tools : Tools pki) (options : Options) (answers : Answers) where
  -- What the three loops decide to remove.
  abbrev IsRemoved : IssuingCertificate → pki.PrivateKey → Request → Type 0
  IsRemoved crt key r =
      (decide_revision tools.parse_int r ≡ remove)
      ⊎ ((of_revision tools.parse_int (next_revision crt.revision) r ≡ true)
          × ((decide_spec pki crt.spec (pki.public key) r ≡ remove)
              ⊎ (decide_failed tools.before crt.conditions r ≡ remove)))

  removed-IsObsolete :
      (crt : IssuingCertificate) (key : pki.PrivateKey) (r : Request)
      → IsRemoved crt key r
      → IsObsolete pki tools crt (next_revision crt.revision) key r
  removed-IsObsolete crt key r (inl e) = unversioned (decide_revision-removes tools.parse_int r e)
  removed-IsObsolete crt key r (inr (o, inl e)) =
      unfit (of_revision-HasRevision tools.parse_int (next_revision crt.revision) r o)
        (decide_spec-IsUnfit pki crt.spec (pki.public key) r e)
  removed-IsObsolete crt key r (inr (o, inr e)) =
      failed_before (of_revision-HasRevision tools.parse_int (next_revision crt.revision) r o)
        (decide_failed-FailedBefore tools.before crt.conditions r e)

  create-asked :
      (crt : IssuingCertificate) (key : pki.PrivateKey) (revision : ℤ) (secret_name : String)
      → (create_new_certificate_request pki tools options answers crt key revision
          secret_name).asked
        ≡ []
  unfolding create_new_certificate_request
  create-asked crt key revision secret_name = ground arith

  create_if_none-asked :
      (Q : Request → Type 0) (crt : IssuingCertificate) (key : pki.PrivateKey)
      (secret_name : String) (rs : List Request)
      → All Q (create_if_none pki tools options answers crt key secret_name rs).asked
  unfolding create_if_none
  create_if_none-asked Q crt key secret_name [] =
      subst (All Q) (sym (create-asked crt key (next_revision crt.revision) secret_name)) tt
  create_if_none-asked Q crt key secret_name (r ∷ rs) = tt

  sweep_current-asked :
      (crt : IssuingCertificate) (key : pki.PrivateKey) (secret_name : String)
      (owned current : List Request)
      → certificate_has_condition (some crt.conditions) issuing_true ≡ true
      → current ≡ select (of_revision tools.parse_int (next_revision crt.revision)) owned
      → All
          (λ r. Memᴰ r owned × IsRemoved crt key r)
          (sweep_current pki tools options answers crt key secret_name current).asked
  unfolding sweep_current
  sweep_current-asked crt key secret_name owned current issuing e =
      let Next : Request → Type 0 =
        λ r. Memᴰ r owned × (of_revision tools.parse_int (next_revision crt.revision) r ≡ true) in
      let ours : All Next current = subst (All Next) (sym e) (
        All-both _ (λ r m p. (m, p))
          (All-select (λ r. Memᴰ r owned) _ owned (All-of_mem _ owned (λ r m. m)))
          (select-All _ owned)) in
      after-asked _ _ _
        (All-map _ (λ r h. (h.1.0, inr (h.1.1, inl h.0)))
          (sweep-asked (decide_spec pki crt.spec (pki.public key)) answers.deleted Next current
            ours))
        (sweep-not-abandoned (decide_spec pki crt.spec (pki.public key)) answers.deleted current
          (All-of _ current (decide_spec-not-abandon pki crt.spec (pki.public key))))
        (λ matching k.
          after-asked _ _ _
            (All-map _ (λ r h. (h.1.0, inr (h.1.1, inr h.0)))
              (sweep-asked (decide_failed tools.before crt.conditions) answers.deleted Next matching
                (subst (All Next)
                  (sym
                    (sweep-kept (decide_spec pki crt.spec (pki.public key)) answers.deleted current
                      matching k).0)
                  (All-select Next _ current ours))))
            (sweep-not-abandoned (decide_failed tools.before crt.conditions) answers.deleted
              matching
              (All-of _ matching
                (λ r. decide_failed-not-abandon tools.before crt.conditions r issuing)))
            (λ rest l. create_if_none-asked _ crt key secret_name rest))

  sweep_requests-asked :
      (crt : IssuingCertificate) (key : pki.PrivateKey) (secret_name : String)
      (owned : List Request)
      → certificate_has_condition (some crt.conditions) issuing_true ≡ true
      → All
          (λ r. Memᴰ r owned × IsRemoved crt key r)
          (sweep_requests pki tools options answers crt key secret_name owned).asked
  unfolding sweep_requests
  sweep_requests-asked crt key secret_name owned issuing =
      after-asked _ _ _
        (All-map _ (λ r h. (h.1, inl h.0))
          (sweep-asked (decide_revision tools.parse_int) answers.deleted (λ r. Memᴰ r owned) owned
            (All-of_mem _ owned (λ r m. m))))
        (sweep-not-abandoned (decide_revision tools.parse_int) answers.deleted owned
          (All-of _ owned (decide_revision-not-abandon tools.parse_int)))
        (λ revised k.
          elim_option (λ e. All (λ r. Memᴰ r owned × IsRemoved crt key r) e.asked) (λ error. tt)
            (requests_with_revision tools.parse_int (next_revision crt.revision) revised) true _
            (λ current c. sweep_current-asked crt key secret_name owned current issuing (
              current_of_revision pki tools options answers crt owned revised current
                (sweep-kept (decide_revision tools.parse_int) answers.deleted owned revised k).0
                c)))

  -- A request of the Certificate that is obsolete for the key that is stored.
  pub record IsDeletable (crt : IssuingCertificate) (secrets : String → Fetch Secret)
      (owned : Option (List Request)) (r : Request) : Type 0 where
    pub issuing : certificate_has_condition (some crt.conditions) issuing_true ≡ true
    pub secret_name : String
    pub next_name : crt.next_private_key_secret_name ≡ some secret_name
    pub secret : Secret
    pub stored : secrets secret_name ≡ found secret
    pub key : pki.PrivateKey
    pub decoded : pki.decode_private_key_bytes (next_key_data secret) ≡ inr key
    pub requests : List Request
    pub listed : owned ≡ some requests
    pub is_owned : Memᴰ r requests
    pub next : ℤ
    pub is_next : IsNext crt.revision next
    pub obsolete : IsObsolete pki tools crt next key r

  -- Every request whose deletion ProcessItem asks for is one that the Certificate, which is being issued, owns
  -- and is obsolete: it carries no valid revision, or it is of the revision after the Certificate's and either
  -- cannot be compared with its spec, differs from it or has another key than the stored one, or failed before
  -- this issuance. Requests with another valid revision are left alone.
  pub process_item-asked :
      (crt : IssuingCertificate) (secrets : String → Fetch Secret) (owned : Option (List Request))
      → All
          (IsDeletable crt secrets owned)
          (process_item pki tools options answers (found crt) secrets owned).asked
  process_item-asked crt secrets owned =
      elim_process_item (λ e. All (IsDeletable crt secrets owned) e.asked) (λ error. tt) pki tools
        options answers crt secrets owned
        (λ secret_name secret key requests issuing n s k l.
          All-map _
            (λ r h. record {
              issuing = issuing;
              secret_name = secret_name;
              next_name = n;
              secret = secret;
              stored = s;
              key = key;
              decoded = k;
              requests = requests;
              listed = l;
              is_owned = h.0;
              next = next_revision crt.revision;
              is_next = next_revision-IsNext crt.revision;
              obsolete = removed-IsObsolete crt key r h.1;
            })
            (sweep_requests-asked crt key secret_name requests issuing))
