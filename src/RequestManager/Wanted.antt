-- ===== src/RequestManager/Wanted.antt =====
-- Which requests pkg/controller/certificates/requestmanager wants, described without its loops.
use cert_manager.Common.{Bool, true, false, some, ◌≡◌, inl, inr, sym, ◌∙◌, arith, ◌&&◌, Bool-cases}
use cert_manager.Common.Int.{ℤ}
use cert_manager.Conditions.Operations.{certificate_has_condition}
use cert_manager.Policies.Input.{Pki}
use cert_manager.RequestManager.Process.{IssuingCertificate, Tools}
use cert_manager.RequestManager.Sweep.{Request, decide_spec, decide_failed}
use cert_manager.RequestManager.Sweeping.{is_keep, of_revision}
use cert_manager.Trigger.Process.{issuing_true}
use cert_manager.RequestManager.Numbers.{
  HasRevision, of_revision-HasRevision, HasRevision-of_revision,
}
use cert_manager.RequestManager.Decisions.{
  FailedBefore, FailedBefore-decide_failed, decide_failed-kept, true_not_false, IsFit, IsUnfit,
  IsFit-decide_spec, decide_spec-IsFit, removed,
}

module _ (pki : Pki) (tools : Tools pki) (crt : IssuingCertificate) (next : ℤ)
    (key : pki.PrivateKey) (r : Request) where
  -- A request of the revision `next`, as the spec and the key want it, that did not fail before this issuance.
  pub record IsWanted : Type 0 where
    pub has_revision : HasRevision tools.parse_int next r
    pub fits : IsFit pki crt.spec (pki.public key) r
    pub not_failed : ¬ FailedBefore tools.before crt.conditions r

  -- The request carries no valid revision, or it is of the revision `next` and either does not match the spec
  -- and the key or failed before this issuance.
  pub data IsObsolete : Type 0 where
    unversioned : ((n : ℤ) → ¬ HasRevision tools.parse_int n r) → IsObsolete
    unfit :
        HasRevision tools.parse_int next r → IsUnfit pki crt.spec (pki.public key) r → IsObsolete
    failed_before :
        HasRevision tools.parse_int next r → FailedBefore tools.before crt.conditions r → IsObsolete

  -- The three loops keep it.
  abbrev pub is_wanted : Bool
  is_wanted =
      of_revision tools.parse_int next r
      && is_keep (decide_spec pki crt.spec (pki.public key) r)
      && is_keep (decide_failed tools.before crt.conditions r)

  IsWanted-is_wanted :
      certificate_has_condition (some crt.conditions) issuing_true ≡ true
      → IsWanted
      → is_wanted ≡ true
  IsWanted-is_wanted issuing w = ground (
    arith,
    HasRevision-of_revision tools.parse_int next r w.has_revision,
    IsFit-decide_spec pki crt.spec (pki.public key) r w.fits,
    decide_failed-kept tools.before crt.conditions r issuing w.not_failed,
  )

  pub unwanted :
      certificate_has_condition (some crt.conditions) issuing_true ≡ true
      → is_wanted ≡ false
      → ¬ IsWanted
  unwanted issuing h w = true_not_false (sym (IsWanted-is_wanted issuing w) ∙ h)

  is_wanted-IsWanted : is_wanted ≡ true → IsWanted
  is_wanted-IsWanted h = record {
    has_revision = of_revision-HasRevision tools.parse_int next r (ground arith);
    fits = decide_spec-IsFit pki crt.spec (pki.public key) r (ground arith);
    not_failed =
        λ f. removed (FailedBefore-decide_failed tools.before crt.conditions r f) (ground arith);
  }

  pub not_wanted : ¬ IsWanted → is_wanted ≡ false
  not_wanted n = elim (Bool-cases is_wanted) [
    | inl e ↦ absurd (n (is_wanted-IsWanted e))
    | inr e ↦ e
  ]
