-- ===== src/Trigger/Issuance.antt =====
-- When ProcessItem of pkg/controller/certificates/trigger/trigger_controller.go marks a Certificate for
-- issuance, and that it does so once.
use cert_manager.Common.{
  ℕ, String, Bool, true, false, Option, none, some, List, ◌≡◌, refl, sym, subst, ◌⊎◌, inl, inr,
  arith, Bool-cases, [], ◌∷◌, ◌==◌,
}
use cert_manager.Common.Int.{ℤ}
use cert_manager.Conditions.Entry.{CertificateCondition, certificate_entry}
use cert_manager.Conditions.Distinct.{IsDistinct}
use cert_manager.Conditions.Operations.{
  certificate_has_condition, set_certificate_condition, condition_true,
}
use cert_manager.Conditions.Certificates.{has-set_certificate_condition}
use cert_manager.Policies.Input.{Input, Argument, time, Verdict, passed, failed, panicked}
use cert_manager.Trigger.Process.{
  Candidate, Lookup, found, missing, failure, Gathered, Ending, ends, issuing_true, issuing_reason,
  issuing_message, reissue, backoff_of, process_owner, process_item,
}

module _ (sprintf : String → List Argument → String) {R : Type 0} (matches : R → Option ℕ)
    (should_reissue : Input → Verdict) (minimum_backoff : ℤ) where
  -- The reason and message that are shown for a violation.
  abbrev pub IsShown :
      (renewal_time : Option ℤ)
      → (reason format : String) → List Argument
      → (shown message : String) → Type 0
  IsShown at reason format args shown message =
      (((reason == "WindowError") ≡ true)
        × (shown ≡ "Renewing")
        × (message
            ≡ sprintf "Renewing certificate without satisfying renewal windows at: %s"
                (time at ∷ [])))
      ⊎ (((reason == "WindowError") ≡ false) × (shown ≡ reason) × (message ≡ sprintf format args))

  issuing-IsShown :
      (at : Option ℤ) (reason format : String) (args : List Argument)
      → IsShown at reason format args
          (issuing_reason sprintf reason)
          (issuing_message sprintf at reason format args)
  unfolding issuing_reason issuing_message
  issuing-IsShown at reason format args = elim (Bool-cases (reason == "WindowError")) [
    | inl e ↦ inl (e, rw e refl, rw e refl)
    | inr e ↦ inr (e, rw e refl, rw e refl)
  ]

  -- A Certificate that is marked, with all that led to it.
  pub record Triggers (now : ℕ) (fetched : Lookup) (owns : Option Bool)
      (gathered : Option (Gathered R)) (written : Option (List CertificateCondition)) : Type 0 where
    pub crt : Candidate
    pub data_of : Gathered R
    pub reason : String
    pub format : String
    pub args : List Argument
    pub is_fetched : fetched ≡ found crt
    pub is_live : crt.deleting ≡ false
    pub is_idle : certificate_has_condition (some crt.conditions) issuing_true ≡ false
    pub is_owner : owns ≡ some true
    pub is_gathered : gathered ≡ some data_of
    pub no_backoff :
        (backoff_of sprintf matches should_reissue minimum_backoff now crt data_of).0 ≡ false
    pub violated : should_reissue data_of.input ≡ failed reason format args
    pub shown : String
    pub message : String
    pub is_shown : IsShown crt.renewal_time reason format args shown message
    pub is_written :
        written
        ≡ some (
            set_certificate_condition now crt.conditions crt.generation "Issuing" condition_true
              shown message)

  Verdict-cases :
      (v : Verdict)
      → ((v ≡ passed) ⊎ (v ≡ panicked))
        ⊎ ((r : String) × (f : String) × (a : List Argument) × (v ≡ failed r f a))
  Verdict-cases passed = inl (inl refl)
  Verdict-cases panicked = inl (inr refl)
  Verdict-cases (failed r f a) = inr (r, f, a, refl)

  -- ProcessItem writes no status, or the Certificate exists, is not being deleted and not being issued
  -- already, owns its Secret, is not held back after a failure, and violates a policy; then what is
  -- written is its conditions with Issuing set to True, for the violation's reason and with its message, or
  -- for Renewing and with the message about the renewal windows where that reason is WindowError.
  pub process_item-Triggers :
      (now : ℕ) (fetched : Lookup) (owns : Option Bool) (gathered : Option (Gathered R))
      (update_ok : Bool)
      → ((process_item sprintf matches should_reissue minimum_backoff now fetched owns gathered
            update_ok).written
          ≡ none)
        ⊎ Triggers now fetched owns gathered
            (process_item sprintf matches should_reissue minimum_backoff now fetched owns gathered
              update_ok).written
  unfolding process_item process_owner reissue
  process_item-Triggers now failure owns gathered ok = inl refl
  process_item-Triggers now missing owns gathered ok = inl refl
  process_item-Triggers now (found crt) none gathered ok = inl (ground arith)
  process_item-Triggers now (found crt) (some false) gathered ok = inl (ground arith)
  process_item-Triggers now (found crt) (some true) none ok = inl (ground arith)
  process_item-Triggers now (found crt) (some true) (some g) ok = elim (Bool-cases crt.deleting) [
    | inl gone ↦ inl (rw gone)
    | inr live ↦ elim (Bool-cases (certificate_has_condition (some crt.conditions) issuing_true)) [
      | inl busy ↦ inl (rw (live, busy))
      | inr idle ↦
          elim (Bool-cases
            (backoff_of sprintf matches should_reissue minimum_backoff now crt g).0) [
              | inl held ↦ inl (rw (live, idle, held))
              | inr free ↦ elim (Verdict-cases (should_reissue g.input)) [
                | inl (inl e) ↦ inl (rw (live, idle, free, e))
                | inl (inr e) ↦ inl (rw (live, idle, free, e))
                | inr (r, f, a, e) ↦ inr (record {
                  crt = crt;
                  data_of = g;
                  reason = r;
                  format = f;
                  args = a;
                  is_fetched = refl;
                  is_live = live;
                  is_idle = idle;
                  is_owner = refl;
                  is_gathered = refl;
                  no_backoff = free;
                  violated = e;
                  shown = issuing_reason sprintf r;
                  message = issuing_message sprintf crt.renewal_time r f a;
                  is_shown = issuing-IsShown crt.renewal_time r f a;
                  is_written = rw (live, idle, free, e);
                })
              ]
            ]
    ]
  ]

  found_inj : {a b : Candidate} → ◌≡◌ {A = Lookup} (found a) (found b) → b ≡ a
  found_inj e = cc

  does_nothing :
      (now : ℕ) (crt : Candidate) (owns : Option Bool) (gathered : Option (Gathered R))
      (update_ok : Bool)
      → crt.deleting ≡ false
      → certificate_has_condition (some crt.conditions) issuing_true ≡ true
      → process_item sprintf matches should_reissue minimum_backoff now
          (found crt)
          owns
          gathered
          update_ok
        ≡ ends Ending.done
  unfolding process_item
  does_nothing now crt owns gathered ok live busy = rw (live, busy)

  -- Once ProcessItem has written the conditions of a Certificate that had one of each type, another
  -- ProcessItem on the Certificate with these conditions does nothing, whatever the time and the other
  -- inputs are.
  pub process_item-once :
      (now later : ℕ) (crt : Candidate) (owns owns' : Option Bool)
      (gathered gathered' : Option (Gathered R)) (update_ok update_ok' : Bool)
      (cs : List CertificateCondition)
      → IsDistinct crt.conditions
      → (process_item sprintf matches should_reissue minimum_backoff now
          (found crt)
          owns
          gathered
          update_ok).written
        ≡ some cs
      → process_item sprintf matches should_reissue minimum_backoff later
          (found (record crt { conditions = cs }))
          owns'
          gathered'
          update_ok'
        ≡ ends Ending.done
  process_item-once now later crt owns owns' gathered gathered' ok ok' cs d e =
      elim (process_item-Triggers now (found crt) owns gathered ok) [
        | inl n ↦ absurd (cc)
        | inr t ↦
            let same : t.crt ≡ crt = found_inj t.is_fetched in
            let live : crt.deleting ≡ false =
              subst (λ (c : Candidate). c.deleting ≡ false) same t.is_live in
            let written_conditions : cs
                ≡ set_certificate_condition now t.crt.conditions t.crt.generation "Issuing"
                    condition_true t.shown t.message =
              cc in
            let busy : certificate_has_condition (some cs) issuing_true ≡ true =
              rw written_conditions (
                (has-set_certificate_condition now t.crt.conditions t.crt.generation "Issuing"
                    condition_true t.shown t.message
                    (subst (λ (c : Candidate). IsDistinct c.conditions) (sym same) d)).1
                  issuing_true) in
            does_nothing later (record crt { conditions = cs }) owns' gathered' ok' live busy
      ]
