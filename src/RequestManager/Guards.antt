-- ===== src/RequestManager/Guards.antt =====
-- What it takes for pkg/controller/certificates/requestmanager to get past each guard to a creation.
use cert_manager.Common.{
  some_injective, Bool, true, false, Option, none, some, List, [], ◌≡◌, ◌≢◌, ◌⊎◌, inl, inr, refl,
  String, arith, if◌then◌else◌, subst,
}
use cert_manager.Common.Bytes.{Bytes}
use cert_manager.Conditions.Entry.{CertificateCondition, certificate_entry}
use cert_manager.Conditions.Distinct.{has_condition-none}
use cert_manager.Conditions.Operations.{certificate_has_condition, get_certificate_condition}
use cert_manager.RequestManager.Sweep.{Request, Swept, Remaining, kept, abandoned, lost}
use cert_manager.RequestManager.Process.{Effects, NewRequest, stops, after}
use cert_manager.Revisions.Collector.{Fetch, found, missing, failure}
use cert_manager.Trigger.Process.{issuing_true}

pub guard-created :
    (b : Bool) (error : Bool) (e : Effects) (new : NewRequest)
    → (if b then stops error else e).created ≡ some new
    → (b ≡ false) × (e.created ≡ some new)
guard-created true error e new h = absurd (ground arith)
guard-created false error e new h = (refl, h)

module _ {A : Type 0} where
  pub option-created :
      (o : Option A) (error : Bool) (f : A → Effects) (new : NewRequest)
      → (elim o as (λ x. Effects) [ none ↦ stops error | some a ↦ f a ]).created ≡ some new
      → (a : A) × (o ≡ some a) × ((f a).created ≡ some new)
  option-created none error f new h = absurd (ground arith)
  option-created (some a) error f new h = (a, refl, h)

  pub sum-created :
      (o : String ⊎ A) (error : Bool) (f : A → Effects) (new : NewRequest)
      → (elim o as (λ x. Effects) [ inl err ↦ stops error | inr a ↦ f a ]).created ≡ some new
      → (a : A) × (o ≡ inr a) × ((f a).created ≡ some new)
  sum-created (inl err) error f new h = absurd (ground arith)
  sum-created (inr a) error f new h = (a, refl, h)

  pub fetch-created :
      (o : Fetch A) (f : A → Effects) (new : NewRequest)
      → (elim o as (λ x. Effects) [
        | missing ↦ stops false
        | failure ↦ stops true
        | found a ↦ f a
      ]).created
        ≡ some new
      → (a : A) × (o ≡ found a) × ((f a).created ≡ some new)
  fetch-created (found a) f new h = (a, refl, h)
  fetch-created missing f new h = absurd (ground arith)
  fetch-created failure f new h = absurd (ground arith)

pub csr-created :
    (o : Option (String ⊎ Bytes)) (f : Bytes → Effects) (new : NewRequest)
    → (elim o as (λ x. Effects) [
      | none ↦ stops false
      | some (inl err) ↦ stops true
      | some (inr pem) ↦ f pem
    ]).created
      ≡ some new
    → (pem : Bytes) × (o ≡ some (inr pem)) × ((f pem).created ≡ some new)
csr-created none f new h = absurd (ground arith)
csr-created (some (inl err)) f new h = absurd (ground arith)
csr-created (some (inr pem)) f new h = (pem, refl, h)

-- With either way of naming the request, what holds of both holds of the request that is created.
pub named-created :
    (P : NewRequest → Type 0) (b : Bool) (o : Option String) (f : String → NewRequest)
    (r : NewRequest) (e₁ e₂ : Bool) (new : NewRequest)
    → ((name : String) → P (f name))
    → P r
    → (if b
        then (elim o as (λ x. Effects) [
          | none ↦ stops true
          | some name ↦ record { asked = []; created = some (f name); error = e₁ }
        ])
        else record { asked = []; created = some r; error = e₂ }).created
      ≡ some new
    → P new
named-created P true none f r e₁ e₂ new p q h = absurd (ground arith)
named-created P true (some name) f r e₁ e₂ new p q h = subst P (some_injective h) (p name)
named-created P false o f r e₁ e₂ new p q h = subst P (some_injective h) q

after-created_of :
    (m : Remaining) (asked : List Request) (next : List Request → Effects) (new : NewRequest)
    → m ≢ abandoned
    → (after (record { asked = asked; remaining = m }) next).created ≡ some new
    → (rs : List Request) × (m ≡ kept rs) × ((next rs).created ≡ some new)
after-created_of (kept rs) asked next new n h = (rs, refl, h)
after-created_of abandoned asked next new n h = absurd (n refl)
after-created_of lost asked next new n h = absurd (ground arith)

pub after-created :
    (s : Swept) (next : List Request → Effects) (new : NewRequest)
    → s.remaining ≢ abandoned
    → (after s next).created ≡ some new
    → (rs : List Request) × (s.remaining ≡ kept rs) × ((next rs).created ≡ some new)
after-created s next new n h = after-created_of s.remaining s.asked next new n h

-- A Certificate that is being issued has the condition that deleteCurrentFailedRequests reads.
pub issuing-get :
    (cs : List CertificateCondition)
    → certificate_has_condition (some cs) issuing_true ≡ true
    → get_certificate_condition cs "Issuing" ≢ none
unfolding certificate_has_condition get_certificate_condition
issuing-get cs h e = ground (arith, has_condition-none issuing_true cs e)
