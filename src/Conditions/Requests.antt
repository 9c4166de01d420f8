-- ===== src/Conditions/Requests.antt =====
-- What SetCertificateRequestCondition does to the readers of a CertificateRequest's conditions in
-- pkg/api/util/conditions.go.
use cert_manager.Common.{ℕ, String, ◌≡◌, some, List, arith, ◌==◌, eq_iff, if◌then◌else◌, any}
use cert_manager.Conditions.Entry.{CertificateRequestCondition, request_entry}
use cert_manager.Conditions.Update.{get-set_self, get-set_ne}
use cert_manager.Conditions.Distinct.{IsDistinct, set_condition-IsDistinct, any-eq-get}
use cert_manager.Conditions.Operations.{
  set_certificate_request_condition, certificate_request_ready_reason, has_ready_reason, has_true,
  first_ready_reason, ready_reasons, certificate_request_is_approved, certificate_request_is_denied,
  certificate_request_has_invalid_request, request_ready, request_approved, request_denied,
  request_invalid, condition_true,
}

module _ (now : ℕ) (cs : List CertificateRequestCondition) (t s r m : String)
    (h : IsDistinct cs) where
  abbrev new : CertificateRequestCondition
  new = record { type = t; status = s; last_transition_time = some now; reason = r; message = m }

  pub set_certificate_request_condition-IsDistinct :
      IsDistinct (set_certificate_request_condition now cs t s r m)
  unfolding set_certificate_request_condition
  set_certificate_request_condition-IsDistinct = set_condition-IsDistinct new cs h

  -- A search for a status after an update.
  has_true-set :
      (k : String)
      → has_true k (set_certificate_request_condition now cs t s r m)
        ≡ (if t == k then s == condition_true else has_true k cs)
  unfolding has_true set_certificate_request_condition
  has_true-set k = ground (
    arith,
    eq_iff t k,
    any-eq-get k (λ c. c.status == condition_true) _ (set_condition-IsDistinct new cs h),
    any-eq-get k (λ c. c.status == condition_true) cs h,
    get-set_self new cs,
    get-set_ne new cs k,
  )

  has_ready_reason-set :
      (reason : String)
      → has_ready_reason (set_certificate_request_condition now cs t s r m) reason
        ≡ (if t == request_ready then r == reason else has_ready_reason cs reason)
  unfolding has_ready_reason set_certificate_request_condition
  has_ready_reason-set reason = ground (
    arith,
    eq_iff t request_ready,
    any-eq-get request_ready (λ c. c.reason == reason) _ (set_condition-IsDistinct new cs h),
    any-eq-get request_ready (λ c. c.reason == reason) cs h,
    get-set_self new cs,
    get-set_ne new cs request_ready,
  )

  -- On a list with one condition of each type, after SetCertificateRequestCondition of type Ready
  -- CertificateRequestReadyReason returns the given reason if it is one of Failed, Issued, Pending
  -- and Denied, and the empty text otherwise; after an update of another type, what it returned
  -- before. The list still has one condition of each type.
  pub ready_reason-set :
      (certificate_request_ready_reason (set_certificate_request_condition now cs t s r m) ≡ (
        if t == request_ready
        then (if any (λ k. r == k) ready_reasons then r else "")
        else certificate_request_ready_reason cs))
      × IsDistinct (set_certificate_request_condition now cs t s r m)
  unfolding certificate_request_ready_reason first_ready_reason
  ready_reason-set = (
    simp has_ready_reason-set (
        ground
          (arith, eq_iff r "Failed", eq_iff r "Issued", eq_iff r "Pending", eq_iff r "Denied")),
    set_certificate_request_condition-IsDistinct,
  )

  -- On a list with one condition of each type, an update of type Approved, Denied or
  -- InvalidRequest makes the reader of that type answer whether the given status is True, and
  -- leaves the answers of the readers of the other types as they were.
  pub readers-set :
      (certificate_request_is_approved (some (set_certificate_request_condition now cs t s r m)) ≡ (
        if t == request_approved
        then s == condition_true
        else certificate_request_is_approved (some cs)))
      × (certificate_request_is_denied (some (set_certificate_request_condition now cs t s r m)) ≡ (
          if t == request_denied
          then s == condition_true
          else certificate_request_is_denied (some cs)))
      × (certificate_request_has_invalid_request
            (some (set_certificate_request_condition now cs t s r m))
          ≡ (if t == request_invalid
              then s == condition_true
              else certificate_request_has_invalid_request (some cs)))
  unfolding certificate_request_is_approved certificate_request_is_denied
      certificate_request_has_invalid_request
  readers-set = (
    unfold has_true in has_true-set request_approved,
    unfold has_true in has_true-set request_denied,
    unfold has_true in has_true-set request_invalid,
  )
