-- ===== src/Trigger/Process.antt =====
-- ProcessItem of pkg/controller/certificates/trigger/trigger_controller.go. The policy chain is the
-- controller's field `shouldReissue`, `fmt.Sprintf` a parameter; what the listers and the API server answer
-- are arguments. The status is written by UpdateStatus (without server-side apply). Log lines and
-- events are left out.
use cert_manager.Common.{
  ℕ, String, Bool, true, false, Option, none, some, List, [], ◌∷◌, ◌==◌, if◌then◌else◌,
}
use cert_manager.Common.Int.{ℤ, pos, ltb_ℤ}
use cert_manager.Renewal.Time.{time_sub}
use cert_manager.Conditions.Entry.{CertificateCondition}
use cert_manager.Conditions.Operations.{
  certificate_has_condition, set_certificate_condition, condition_true,
}
use cert_manager.Policies.Input.{
  Input, Argument, time, Verdict, passed, failed, panicked, renewing, window_error,
}
use cert_manager.Trigger.Backoff.{should_backoff_reissuing_on_failure}

-- What the controller reads of a Certificate.
pub record Candidate : Type 0 where
  pub deleting : Bool
  pub generation : ℕ
  pub conditions : List CertificateCondition
  pub renewal_time : Option ℤ
  pub last_failure_time : Option ℕ
  pub failed_issuance_attempts : Option ℕ

pub data Lookup : Type 0 where
  found : Candidate → Lookup
  missing failure : Lookup

-- What dataForCertificate gathers, with the next request.
pub record Gathered {ℓ} (R : Type ℓ) : Type ℓ where
  pub input : Input
  pub next_revision_request : Option R

pub data Ending : Type 0 where
  done error nil_dereference : Ending

-- The delays of the re-checks that are queued, the conditions that are written, and the end.
pub record Effects : Type 0 where
  pub scheduled : List ℤ
  pub written : Option (List CertificateCondition)
  pub ending : Ending

abbrev pub ends : Ending → Effects
ends e = record { scheduled = []; written = none; ending = e }

abbrev pub issuing_true : CertificateCondition
issuing_true = record {
  type = "Issuing";
  status = condition_true;
  last_transition_time = none;
  reason = "";
  message = "";
  observed_generation = 0;
}

-- scheduleRecheckOfCertificateIfRequired
unfoldable pub recheck : ℤ → List ℤ
recheck d = if ltb_ℤ d (pos 0) then [] else d ∷ []

unfoldable pub renewal_recheck : (now : ℕ) → Option ℤ → List ℤ
renewal_recheck now none = []
renewal_recheck now (some at) = recheck (time_sub at (pos now))

abbrev pub three_minutes : ℤ
three_minutes = pos 180000000000

module _ (sprintf : String → List Argument → String) where
  -- The reason and message of the condition; a WindowError is reported as a renewal.
  unfoldable pub issuing_reason : (reason : String) → String
  issuing_reason reason = if reason == window_error then renewing else reason

  unfoldable pub issuing_message :
      (status_renewal_time : Option ℤ) → (reason format : String) → List Argument → String
  issuing_message at reason format args =
      if reason == window_error
      then sprintf "Renewing certificate without satisfying renewal windows at: %s" (time at ∷ [])
      else sprintf format args

  unfoldable pub reissue :
      (now : ℕ) → Candidate → (scheduled : List ℤ) → (update_ok : Bool) → Verdict → Effects
  unfolding issuing_reason issuing_message
  reissue now crt scheduled update_ok passed = record {
    scheduled = scheduled;
    written = none;
    ending = Ending.done;
  }
  reissue now crt scheduled update_ok panicked = record {
    scheduled = scheduled;
    written = none;
    ending = Ending.nil_dereference;
  }
  reissue now crt scheduled update_ok (failed reason format args) = record {
    scheduled = scheduled;
    written = some (
        set_certificate_condition now crt.conditions crt.generation "Issuing" condition_true
          (issuing_reason reason) (issuing_message crt.renewal_time reason format args));
    ending = if update_ok then Ending.done else Ending.error;
  }

  module _ {R : Type 0} (request_matches_spec : R → Option ℕ) (should_reissue : Input → Verdict)
      (minimum_backoff : ℤ) where
    abbrev pub backoff_of : (now : ℕ) → Candidate → Gathered R → Bool × ℤ
    backoff_of now crt g =
        should_backoff_reissuing_on_failure request_matches_spec now crt.last_failure_time
          crt.failed_issuance_attempts g.next_revision_request minimum_backoff

    unfoldable pub process_owner : (now : ℕ) → Candidate → Gathered R → (update_ok : Bool) → Effects
    unfolding reissue
    process_owner now crt g update_ok =
        if (backoff_of now crt g).0
        then record {
          scheduled = recheck (backoff_of now crt g).1;
          written = none;
          ending = Ending.done;
        }
        else reissue now crt (renewal_recheck now crt.renewal_time) update_ok
            (should_reissue g.input)

    -- `owns` is `none` where CertificateOwnsSecret fails, `gathered` where dataForCertificate does.
    unfoldable pub process_item :
        (now : ℕ)
        → Lookup
        → (owns : Option Bool) → (gathered : Option (Gathered R)) → (update_ok : Bool) → Effects
    unfolding process_owner
    process_item now failure owns gathered update_ok = ends Ending.error
    process_item now missing owns gathered update_ok = ends Ending.done
    process_item now (found crt) owns gathered update_ok =
        if crt.deleting
        then ends Ending.done
        else if certificate_has_condition (some crt.conditions) issuing_true
        then ends Ending.done
        else elim owns [
          | none ↦ ends Ending.error
          | some false ↦ record {
            scheduled = three_minutes ∷ [];
            written = none;
            ending = Ending.done;
          }
          | some true ↦ elim gathered [
            | none ↦ ends Ending.error
            | some g ↦ process_owner now crt g update_ok
          ]
        ]
