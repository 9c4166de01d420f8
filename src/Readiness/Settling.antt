-- ===== src/Readiness/Settling.antt =====
-- Whether repeated runs of pkg/controller/certificates/readiness come to rest.
use cert_manager.Common.{
  ℕ, String, Bool, true, false, Option, none, some, List, [], ◌∷◌, ◌≡◌, ◌≢◌, refl, sym, ◌∙◌, ap,
  subst, arith, eq_iff, eq_refl, inl, inr, Bool-cases,
}
use cert_manager.Common.Int.{ℤ}
use cert_manager.Conditions.Entry.{CertificateCondition, certificate_entry}
use cert_manager.Conditions.Update.{set_condition}
use cert_manager.Conditions.Certificates.{kept_time, get-set_certificate_condition}
use cert_manager.Conditions.Operations.{
  set_certificate_condition, get_certificate_condition, condition_true, condition_false,
}
use cert_manager.Policies.Chains.{Chain, evaluate}
use cert_manager.Policies.Input.{Input, Argument, passed, Pki, window_error}
use cert_manager.Readiness.Condition.{
  window_error_of, error_with, conditions-status_of, ready_condition-is, process_item-Writes,
}
use cert_manager.Readiness.Process.{
  Status, ReadyCertificate, ready_condition_of, build_ready_condition_from_chain,
  stored_certificate, set_window_error, status_of, status_with, next_status, process_item,
}
use cert_manager.Renewal.Windows.{RenewalError}
use cert_manager.Revisions.Collector.{found}

-- An update that has been made changes nothing when it is made again.
pub set-set_certificate_condition :
    (now later : ℕ) (cs : List CertificateCondition) (g : ℕ) (t s r m : String)
    → set_certificate_condition later (set_certificate_condition now cs g t s r m) g t s r m
      ≡ set_certificate_condition now cs g t s r m
unfolding set_certificate_condition set_condition
set-set_certificate_condition now later [] g t s r m = ground (arith, eq_refl t, eq_refl s)
set-set_certificate_condition now later (c ∷ cs) g t s r m = ground (
  arith,
  eq_refl t,
  eq_refl s,
  eq_iff c.type t,
  eq_iff c.status s,
  set-set_certificate_condition now later cs g t s r m,
)

module _ (sprintf : String → List Argument → String) (pki : Pki) (location : String → Option String)
    (cron_parse : String → String → Option (ℤ → ℤ)) where
  status_with-again :
      (now later generation : ℕ) (input : Input) (cs : List CertificateCondition) (s r m : String)
      (o : Option pki.X509)
      → error_with sprintf pki location cron_parse input o ≡ none
      → status_with sprintf pki location cron_parse later generation input
          (set_certificate_condition later
            (status_with sprintf pki location cron_parse now generation input
              (set_certificate_condition now cs generation "Ready" s r m)
              o).conditions
            generation
            "Ready"
            s
            r
            m)
          o
        ≡ status_with sprintf pki location cron_parse now generation input
            (set_certificate_condition now cs generation "Ready" s r m)
            o
  unfolding status_with
  status_with-again now later generation input cs s r m none e =
      rw (set-set_certificate_condition now later cs generation "Ready" s r m) refl
  status_with-again now later generation input cs s r m (some x) e =
      rw e (rw (set-set_certificate_condition now later cs generation "Ready" s r m) refl)

  next_status-again :
      (now later : ℕ) (crt : ReadyCertificate) (input : Input) (c : CertificateCondition)
      → c.type ≡ "Ready"
      → window_error_of sprintf pki location cron_parse input ≡ none
      → next_status sprintf pki location cron_parse later
          (record crt { status = next_status sprintf pki location cron_parse now crt input c })
          input
          c
        ≡ next_status sprintf pki location cron_parse now crt input c
  unfolding next_status status_of
  next_status-again now later crt input c ready e = rw ready (
      status_with-again now later crt.generation input crt.status.conditions c.status c.reason
        c.message (stored_certificate sprintf pki location cron_parse input) e)

  built_condition :
      (chain later_chain : Chain) (input : Input) (c : CertificateCondition)
      → evaluate later_chain input ≡ evaluate chain input
      → build_ready_condition_from_chain sprintf chain input ≡ some c
      → (build_ready_condition_from_chain sprintf later_chain input ≡ some c) × (c.type ≡ "Ready")
  unfolding build_ready_condition_from_chain
  built_condition chain later_chain input c e b =
      (rw e b, (ready_condition-is sprintf (evaluate chain input) c b).0)

  rests :
      (deep_equal : Status → Status → Bool) (chain : Chain) (now : ℕ) (crt : ReadyCertificate)
      (input : Input) (updated : Bool) (c : CertificateCondition)
      → build_ready_condition_from_chain sprintf chain input ≡ some c
      → deep_equal crt.status (next_status sprintf pki location cron_parse now crt input c) ≡ true
      → (process_item sprintf pki location cron_parse deep_equal chain now
          (found crt)
          (some input)
          updated).written
        ≡ none
  unfolding process_item
  rests deep_equal chain now crt input updated c b e = ground arith

  -- Where RenewalTime gives no error, a status that ProcessItem has written is at rest: a later run on the same
  -- input, with the same result of the policy chain, writes nothing.
  pub process_item-rests :
      (deep_equal : Status → Status → Bool) (chain later_chain : Chain) (now later : ℕ)
      (crt : ReadyCertificate) (input : Input) (updated updated' : Bool) (st : Status)
      → ((a : Status) → deep_equal a a ≡ true)
      → window_error_of sprintf pki location cron_parse input ≡ none
      → evaluate later_chain input ≡ evaluate chain input
      → (process_item sprintf pki location cron_parse deep_equal chain now
          (found crt)
          (some input)
          updated).written
        ≡ some st
      → (process_item sprintf pki location cron_parse deep_equal later_chain later
          (found (record crt { status = st }))
          (some input)
          updated').written
        ≡ none
  process_item-rests deep_equal chain later_chain now later crt input updated updated' st reflexive
        e same h =
      let w =
        process_item-Writes sprintf pki location cron_parse deep_equal chain now crt input updated
          st h in
      let (b, ready) = built_condition chain later_chain input w.condition same w.built in
      rests deep_equal later_chain later (record crt { status = st }) input updated' w.condition b
        (subst
          (λ x.
            deep_equal x (
              next_status sprintf pki location cron_parse later (record crt { status = x }) input
                w.condition)
            ≡ true)
          (sym w.is_next)
          (rw (next_status-again now later crt input w.condition ready e) (reflexive _)))

  window_error_time :
      (now generation : ℕ) (err : RenewalError) (cs : List CertificateCondition) (r m : String)
      → (c : CertificateCondition) × (get_certificate_condition
            (set_window_error sprintf pki location cron_parse now generation
              (some err)
              (set_certificate_condition now cs generation "Ready" "True" r m))
            "Ready"
          ≡ some c)
        × (c.last_transition_time ≡ some now)
  window_error_time now generation err cs r m = (
    _,
    get-set_certificate_condition now
        (set_certificate_condition now cs generation "Ready" "True" r m) generation "Ready"
        condition_false window_error _,
    ap (kept_time now condition_false)
        (get-set_certificate_condition now cs generation "Ready" "True" r m),
  )

  abbrev up_to_date : CertificateCondition
  up_to_date = record {
    type = "Ready";
    status = condition_true;
    last_transition_time = none;
    reason = "Ready";
    message = "Certificate is up to date and has not expired";
    observed_generation = 0;
  }

  built_up_to_date :
      (chain : Chain) (input : Input)
      → evaluate chain input ≡ passed
      → build_ready_condition_from_chain sprintf chain input ≡ some up_to_date
  unfolding build_ready_condition_from_chain ready_condition_of
  built_up_to_date chain input e = rw e refl

  next_status-time :
      (now : ℕ) (crt : ReadyCertificate) (input : Input) (err : RenewalError)
      → window_error_of sprintf pki location cron_parse input ≡ some err
      → (c : CertificateCondition) × (get_certificate_condition
            (next_status sprintf pki location cron_parse now crt input up_to_date).conditions
            "Ready"
          ≡ some c)
        × (c.last_transition_time ≡ some now)
  unfolding next_status
  next_status-time now crt input err e =
      let (c, is, at) =
        window_error_time now crt.generation err crt.status.conditions "Ready"
          "Certificate is up to date and has not expired" in
      (
        c,
        ap (λ l. get_certificate_condition l "Ready")
              (conditions-status_of sprintf pki location cron_parse now crt.generation input _)
            ∙ rw e is,
        at,
      )

  writes :
      (deep_equal : Status → Status → Bool) (chain : Chain) (now : ℕ) (crt : ReadyCertificate)
      (input : Input) (updated : Bool) (c : CertificateCondition)
      → crt.deleting ≡ false
      → build_ready_condition_from_chain sprintf chain input ≡ some c
      → deep_equal crt.status (next_status sprintf pki location cron_parse now crt input c) ≡ false
      → (process_item sprintf pki location cron_parse deep_equal chain now
          (found crt)
          (some input)
          updated).written
        ≡ some (next_status sprintf pki location cron_parse now crt input c)
  unfolding process_item
  writes deep_equal chain now crt input updated c d b e = ground arith

  -- While every policy passes and RenewalTime gives an error, ProcessItem never comes to rest: at any time other
  -- than the transition time of the Ready condition that is there it writes a status again, and the new
  -- condition's transition time is the time of that run.
  pub window_error-keeps_writing :
      (deep_equal : Status → Status → Bool) (chain : Chain) (now : ℕ) (crt : ReadyCertificate)
      (input : Input) (updated : Bool) (err : RenewalError)
      → ((a b : Status) → deep_equal a b ≡ true → a ≡ b)
      → crt.deleting ≡ false
      → evaluate chain input ≡ passed
      → window_error_of sprintf pki location cron_parse input ≡ some err
      → ((c : CertificateCondition)
          → get_certificate_condition crt.status.conditions "Ready" ≡ some c
          → c.last_transition_time ≢ some now)
      → (st : Status) × (c : CertificateCondition) × ((process_item sprintf pki location cron_parse
            deep_equal chain now
            (found crt)
            (some input)
            updated).written
          ≡ some st)
        × (get_certificate_condition st.conditions "Ready" ≡ some c)
        × (c.last_transition_time ≡ some now)
  window_error-keeps_writing deep_equal chain now crt input updated err sound d p e other =
      let (c, is, at) = next_status-time now crt input err e in
      elim (Bool-cases (
        deep_equal crt.status
          (next_status sprintf pki location cron_parse now crt input up_to_date))) [
            | inl same ↦ absurd (
                other c
                  (ap (λ (x : Status). get_certificate_condition x.conditions "Ready")
                      (sound _ _ same)
                    ∙ is)
                  at)
            | inr differs ↦ (
              next_status sprintf pki location cron_parse now crt input up_to_date,
              c,
              writes deep_equal chain now crt input updated up_to_date d
                  (built_up_to_date chain input p) differs,
              is,
              at,
            )
          ]
