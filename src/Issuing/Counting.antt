-- ===== src/Issuing/Counting.antt =====
-- How pkg/controller/certificates/issuing counts the failures of an issuance.
use cert_manager.Common.{ℕ, ◌+◌, String, false, Option, some, ◌≡◌, refl, ap}
use cert_manager.Issuing.Process.{
  TargetCertificate, Status, Answers, Tools, attempts_after, fail_issue_certificate,
}
use cert_manager.Policies.Input.{Pki}
use cert_manager.Trigger.Process.{Ending}

attempts-again : (n : Option ℕ) → attempts_after (some (attempts_after n)) ≡ attempts_after n + 1
attempts-again n = refl

-- One failure whose status update the API server refuses is counted twice: the run returns an error, the retry
-- finds the count of the first run in the cache's entry, and the status that it writes has one more failed attempt
-- than a single failure makes.
pub refused_update-counts_twice :
    (pki : Pki) (tools : Tools pki) (answers retried : Answers) (now later : ℕ)
    (crt : TargetCertificate) (reason message : String)
    → answers.updated ≡ false
    → ((fail_issue_certificate pki tools answers now crt reason message).ending ≡ Ending.error)
      × ((st : Status) × ((fail_issue_certificate pki tools retried later
              (record crt {
                status = (fail_issue_certificate pki tools answers now crt reason message).cached;
              })
              reason
              message).written
            ≡ some st)
          × (st.failed_issuance_attempts
              ≡ some (attempts_after crt.status.failed_issuance_attempts + 1)))
unfolding fail_issue_certificate
refused_update-counts_twice pki tools answers retried now later crt reason message h =
    (rw h refl, (_, refl, ap (λ n. some n) (attempts-again crt.status.failed_issuance_attempts)))
