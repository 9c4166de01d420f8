-- ===== src/Readiness/Condition.antt =====
-- The Ready condition that pkg/controller/certificates/readiness writes.
use cert_manager.Common.{
  some_injective, false≢true, ℕ, String, Bool, Option, none, some, List, ◌≡◌, ◌≢◌, ◌↔◌, refl, sym,
  ◌∙◌, ap, arith, ◌==◌, inl, inr, ◌⊎◌, Option-cases,
}
use cert_manager.Common.Int.{ℤ}
use cert_manager.Conditions.Entry.{CertificateCondition}
use cert_manager.Conditions.Certificates.{get-set_certificate_condition}
use cert_manager.Conditions.Operations.{
  set_certificate_condition, get_certificate_condition, condition_true, condition_false,
}
use cert_manager.Policies.Chains.{Chain, evaluate}
use cert_manager.Policies.Checks.{renewal_of}
use cert_manager.Policies.Input.{
  Input, Argument, Verdict, passed, failed, panicked, Pki, window_error,
}
use cert_manager.Readiness.Process.{
  Status, ReadyCertificate, ready_condition_of, build_ready_condition_from_chain,
  stored_certificate, set_window_error, status_of, status_with, next_status, process_item,
}
use cert_manager.Renewal.Windows.{RenewalError}
use cert_manager.Revisions.Collector.{found}

pub ready_condition-is :
    (sprintf : String → List Argument → String) (v : Verdict) (c : CertificateCondition)
    → ready_condition_of sprintf v ≡ some c
    → (c.type ≡ "Ready")
      × (((v ≡ passed) × (c.status ≡ "True")) ⊎ ((v ≢ passed) × (c.status ≡ "False")))
unfolding ready_condition_of
ready_condition-is sprintf passed c e = (
  ap (λ (x : CertificateCondition). x.type) (sym (some_injective e)),
  inl (refl, ap (λ (x : CertificateCondition). x.status) (sym (some_injective e))),
)
ready_condition-is sprintf (failed r f a) c e = (
  ap (λ (x : CertificateCondition). x.type) (sym (some_injective e)),
  inr ((λ e. ground arith), ap (λ (x : CertificateCondition). x.status) (sym (some_injective e))),
)
ready_condition-is sprintf panicked c e = absurd (ground arith)

false_ne : condition_false ≢ condition_true
false_ne e = false≢true (ap (λ (s : String). s == "True") e)

true_iff :
    (err : Option RenewalError) (v : Verdict) (s ready : String)
    → ((err ≡ none) × (s ≡ ready)) ⊎ ((err ≢ none) × (s ≡ "False"))
    → ((v ≡ passed) × (ready ≡ "True")) ⊎ ((v ≢ passed) × (ready ≡ "False"))
    → (s ≡ "True") ↔ ((v ≡ passed) × (err ≡ none))
true_iff err v s ready (inl a) (inl b) = ((λ e. (b.0, a.0)), λ e. a.1 ∙ b.1)
true_iff err v s ready (inl a) (inr b) =
    ((λ e. absurd (false_ne (sym (a.1 ∙ b.1) ∙ e))), λ e. absurd (b.0 e.0))
true_iff err v s ready (inr a) b = ((λ e. absurd (false_ne (sym a.1 ∙ e))), λ e. absurd (a.0 e.1))

module _ (sprintf : String → List Argument → String) (pki : Pki) (location : String → Option String)
    (cron_parse : String → String → Option (ℤ → ℤ)) where
  abbrev pub error_with : Input → Option pki.X509 → Option RenewalError
  error_with input none = none
  error_with input (some x509) = (renewal_of pki location cron_parse input x509).1

  -- The error of RenewalTime for the stored certificate.
  abbrev pub window_error_of : Input → Option RenewalError
  window_error_of input =
      error_with input (stored_certificate sprintf pki location cron_parse input)

  conditions-status_with :
      (now generation : ℕ) (input : Input) (cs : List CertificateCondition) (o : Option pki.X509)
      → (status_with sprintf pki location cron_parse now generation input cs o).conditions
        ≡ set_window_error sprintf pki location cron_parse now generation (error_with input o) cs
  unfolding status_with
  conditions-status_with now generation input cs none = refl
  conditions-status_with now generation input cs (some x) = refl

  pub conditions-status_of :
      (now generation : ℕ) (input : Input) (cs : List CertificateCondition)
      → (status_of sprintf pki location cron_parse now generation input cs).conditions
        ≡ set_window_error sprintf pki location cron_parse now generation (window_error_of input) cs
  unfolding status_of
  conditions-status_of now generation input cs =
      conditions-status_with now generation input cs
        (stored_certificate sprintf pki location cron_parse input)

  -- What ProcessItem has established when it writes a status.
  pub record Writes (policy_chain : Chain) (now : ℕ) (crt : ReadyCertificate) (input : Input)
      (st : Status) : Type 0 where
    pub condition : CertificateCondition
    pub built : build_ready_condition_from_chain sprintf policy_chain input ≡ some condition
    pub is_next : st ≡ next_status sprintf pki location cron_parse now crt input condition

  pub process_item-Writes :
      (deep_equal : Status → Status → Bool) (policy_chain : Chain) (now : ℕ)
      (crt : ReadyCertificate) (input : Input) (updated : Bool) (st : Status)
      → (process_item sprintf pki location cron_parse deep_equal policy_chain now
          (found crt)
          (some input)
          updated).written
        ≡ some st
      → Writes policy_chain now crt input st
  unfolding process_item
  process_item-Writes deep_equal policy_chain now crt input updated st h =
      elim (Option-cases (build_ready_condition_from_chain sprintf policy_chain input)) [
        | inl e ↦ absurd (ground arith)
        | inr (c, e) ↦ record { condition = c; built = e; is_next = ground arith }
      ]

  -- The Ready condition after a policy result and RenewalTime's, if it fails.
  ready_after :
      (now generation : ℕ) (err : Option RenewalError) (cs : List CertificateCondition)
      (s r m : String)
      → (c : CertificateCondition) × (get_certificate_condition
            (set_window_error sprintf pki location cron_parse now generation err
              (set_certificate_condition now cs generation "Ready" s r m))
            "Ready"
          ≡ some c)
        × (((err ≡ none) × (c.status ≡ s)) ⊎ ((err ≢ none) × (c.status ≡ "False")))
  ready_after now generation none cs s r m =
      (_, get-set_certificate_condition now cs generation "Ready" s r m, inl (refl, refl))
  ready_after now generation (some err) cs s r m = (
    _,
    get-set_certificate_condition now (set_certificate_condition now cs generation "Ready" s r m)
        generation "Ready" condition_false window_error _,
    inr ((λ e. ground arith), refl),
  )

  -- A status that ProcessItem writes has a Ready condition, which is true exactly when every policy of the
  -- chain passes and RenewalTime gives no error for the stored certificate.
  pub process_item-ready :
      (deep_equal : Status → Status → Bool) (policy_chain : Chain) (now : ℕ)
      (crt : ReadyCertificate) (input : Input) (updated : Bool) (st : Status)
      → (process_item sprintf pki location cron_parse deep_equal policy_chain now
          (found crt)
          (some input)
          updated).written
        ≡ some st
      → (c : CertificateCondition) × (get_certificate_condition st.conditions "Ready" ≡ some c)
        × ((c.status ≡ "True")
            ↔ ((evaluate policy_chain input ≡ passed) × (window_error_of input ≡ none)))
  unfolding next_status build_ready_condition_from_chain
  process_item-ready deep_equal policy_chain now crt input updated st h =
      let w = process_item-Writes deep_equal policy_chain now crt input updated st h in
      let (c, is, status) =
        ready_after now crt.generation (window_error_of input) crt.status.conditions
          w.condition.status w.condition.reason w.condition.message in
      let (ready, verdict) =
        ready_condition-is sprintf (evaluate policy_chain input) w.condition w.built in
      (
        c,
        ap (λ (x : Status). get_certificate_condition x.conditions "Ready") w.is_next
            ∙ (ap (λ l. get_certificate_condition l "Ready")
                  (conditions-status_of now crt.generation input _)
                ∙ (ap
                      (λ t.
                        get_certificate_condition
                          (set_window_error sprintf pki location cron_parse now crt.generation
                            (window_error_of input)
                            (set_certificate_condition now crt.status.conditions crt.generation t
                              w.condition.status w.condition.reason w.condition.message))
                          "Ready")
                      ready
                    ∙ is)),
        true_iff (window_error_of input) (evaluate policy_chain input) c.status w.condition.status
            status verdict,
      )
