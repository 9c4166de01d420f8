-- ===== src/Conditions/Operations.antt =====
-- The exported functions of pkg/api/util/conditions.go. An object is given by its
-- `Status.Conditions`, the only part that they read or write; `none` is the nil pointer, `now` is
-- what `Clock.Now()` returns. Log lines are left out.
use cert_manager.Common.{
  ℕ, String, Bool, false, Option, none, some, List, [], ◌∷◌, ◌==◌, ◌&&◌, ◌||◌, leb, any,
  if◌then◌else◌,
}
use cert_manager.Conditions.Entry.{
  IssuerCondition, CertificateCondition, CertificateRequestCondition, issuer_entry,
  certificate_entry, request_entry,
}
use cert_manager.Conditions.Update.{get_condition, set_condition, remove_condition}
use cert_manager.Conditions.Distinct.{has_condition}

abbrev pub condition_true : String
condition_true = "True"

abbrev pub condition_false : String
condition_false = "False"

abbrev pub request_ready : String
request_ready = "Ready"

abbrev pub request_invalid : String
request_invalid = "InvalidRequest"

abbrev pub request_approved : String
request_approved = "Approved"

abbrev pub request_denied : String
request_denied = "Denied"

unfoldable pub issuer_has_condition : Option (List IssuerCondition) → IssuerCondition → Bool
unfolding has_condition
issuer_has_condition none c = false
issuer_has_condition (some cs) c = has_condition cs c

unfoldable pub set_issuer_condition :
    (now : ℕ)
    → List IssuerCondition
    → (observed_generation : ℕ) → (type status reason message : String) → List IssuerCondition
set_issuer_condition now cs g t s r m =
    set_condition
      (record {
        type = t;
        status = s;
        last_transition_time = some now;
        reason = r;
        message = m;
        observed_generation = g;
      })
      cs

unfoldable pub certificate_has_condition :
    Option (List CertificateCondition) → CertificateCondition → Bool
unfolding has_condition
certificate_has_condition none c = false
certificate_has_condition (some cs) c = has_condition cs c

unfoldable pub certificate_has_condition_with_observed_generation :
    Option (List CertificateCondition) → CertificateCondition → Bool
certificate_has_condition_with_observed_generation none c = false
certificate_has_condition_with_observed_generation (some cs) c =
    any
      (λ cond.
        c.type == cond.type
        && c.status == cond.status
        && leb c.observed_generation cond.observed_generation)
      cs

unfoldable pub get_certificate_condition :
    List CertificateCondition → String → Option CertificateCondition
get_certificate_condition cs t = get_condition cs t

unfoldable pub get_certificate_request_condition :
    List CertificateRequestCondition → String → Option CertificateRequestCondition
get_certificate_request_condition cs t = get_condition cs t

unfoldable pub set_certificate_condition :
    (now : ℕ)
    → List CertificateCondition
    → (observed_generation : ℕ) → (type status reason message : String) → List CertificateCondition
set_certificate_condition now cs g t s r m =
    set_condition
      (record {
        type = t;
        status = s;
        last_transition_time = some now;
        reason = r;
        message = m;
        observed_generation = g;
      })
      cs

unfoldable pub remove_certificate_condition :
    List CertificateCondition → String → List CertificateCondition
remove_certificate_condition cs t = remove_condition t cs

unfoldable pub set_certificate_request_condition :
    (now : ℕ)
    → List CertificateRequestCondition
    → (type status reason message : String) → List CertificateRequestCondition
set_certificate_request_condition now cs t s r m =
    set_condition
      (record { type = t; status = s; last_transition_time = some now; reason = r; message = m }) cs

unfoldable pub certificate_request_has_condition :
    Option (List CertificateRequestCondition) → CertificateRequestCondition → Bool
certificate_request_has_condition none c = false
certificate_request_has_condition (some cs) c =
    any
      (λ cond.
        (c.type == cond.type && c.status == cond.status)
        && (c.reason == "" || c.reason == cond.reason))
      cs

-- One pass of the inner loop of `CertificateRequestReadyReason`.
unfoldable pub has_ready_reason : List CertificateRequestCondition → String → Bool
has_ready_reason cs reason = any (λ con. con.type == request_ready && con.reason == reason) cs

-- The outer loop, over the reasons in the order of the source.
unfoldable pub first_ready_reason : List CertificateRequestCondition → List String → String
first_ready_reason cs [] = ""
first_ready_reason cs (reason ∷ rest) =
    if has_ready_reason cs reason then reason else first_ready_reason cs rest

abbrev pub ready_reasons : List String
ready_reasons = "Failed" ∷ "Issued" ∷ "Pending" ∷ "Denied" ∷ []

unfoldable pub certificate_request_ready_reason : List CertificateRequestCondition → String
unfolding first_ready_reason has_ready_reason
certificate_request_ready_reason cs = first_ready_reason cs ready_reasons

-- The loop that returns the message of the first condition of a type that is true.
unfoldable pub first_true_message : String → List CertificateRequestCondition → String
first_true_message t [] = ""
first_true_message t (con ∷ cs) =
    if con.type == t && con.status == condition_true then con.message else first_true_message t cs

unfoldable pub certificate_request_invalid_request_message :
    Option (List CertificateRequestCondition) → String
unfolding first_true_message
certificate_request_invalid_request_message none = ""
certificate_request_invalid_request_message (some cs) = first_true_message request_invalid cs

-- The loop that looks for a condition of a type that is true.
unfoldable pub has_true : String → List CertificateRequestCondition → Bool
has_true t cs = any (λ con. con.type == t && con.status == condition_true) cs

unfoldable pub certificate_request_has_invalid_request :
    Option (List CertificateRequestCondition) → Bool
unfolding has_true
certificate_request_has_invalid_request none = false
certificate_request_has_invalid_request (some cs) = has_true request_invalid cs

unfoldable pub certificate_request_is_approved : Option (List CertificateRequestCondition) → Bool
unfolding has_true
certificate_request_is_approved none = false
certificate_request_is_approved (some cs) = has_true request_approved cs

unfoldable pub certificate_request_is_denied : Option (List CertificateRequestCondition) → Bool
unfolding has_true
certificate_request_is_denied none = false
certificate_request_is_denied (some cs) = has_true request_denied cs
