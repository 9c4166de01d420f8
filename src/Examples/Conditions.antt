-- ===== src/Examples/Conditions.antt =====
-- Runs of the condition updates and of the revision history.
use cert_manager.Common.{
  String, ◌≡◌, refl, false, Option, none, some, List, [], ◌∷◌, ◌==◌, if◌then◌else◌, ◌⊎◌,
}
use cert_manager.Common.Int.{ℤ, pos}
use cert_manager.Conditions.Entry.{
  CertificateCondition, CertificateRequestCondition, certificate_entry, request_entry,
}
use cert_manager.Conditions.Update.{get_condition}
use cert_manager.Conditions.Distinct.{IsDistinct}
use cert_manager.Conditions.Operations.{
  certificate_has_condition, get_certificate_condition, set_certificate_condition,
  set_certificate_request_condition,
}
use cert_manager.Conditions.Certificates.{
  kept_time, get-set_certificate_condition, has-set_certificate_condition,
}
use cert_manager.Revisions.Collector.{Request, Certificate, Fetch, Deletion, process_item}
use cert_manager.Revisions.Retention.{Collects, process_item-Collects}
use cert_manager.Examples.Sorting.{insertion_sorter}

abbrev condition : String → String → CertificateCondition
condition t s = record {
  type = t;
  status = s;
  last_transition_time = some 5;
  reason = "First";
  message = "";
  observed_generation = 1;
}

abbrev conditions : List CertificateCondition
conditions = condition "Issuing" "True" ∷ condition "Ready" "False" ∷ []

conditions-IsDistinct : IsDistinct conditions
unfolding get_condition
conditions-IsDistinct = (refl, (refl, tt))

get-set_certificate_condition_example :
    get_certificate_condition
      (set_certificate_condition 9 conditions 2 "Ready" "True" "Ready" "ok")
      "Ready"
    ≡ some (record {
      type = "Ready";
      status = "True";
      last_transition_time = kept_time 9 "True" (get_certificate_condition conditions "Ready");
      reason = "Ready";
      message = "ok";
      observed_generation = 2;
    })
get-set_certificate_condition_example =
    get-set_certificate_condition 9 conditions 2 "Ready" "True" "Ready" "ok"

has-set_certificate_condition_example :
    IsDistinct (set_certificate_condition 9 conditions 2 "Ready" "True" "Ready" "ok")
    × ((k : CertificateCondition)
        → certificate_has_condition
            (some (set_certificate_condition 9 conditions 2 "Ready" "True" "Ready" "ok"))
            k
          ≡ (if "Ready" == k.type
              then k.status == "True"
              else certificate_has_condition (some conditions) k))
has-set_certificate_condition_example =
    has-set_certificate_condition 9 conditions 2 "Ready" "True" "Ready" "ok" conditions-IsDistinct

abbrev requests : List CertificateRequestCondition
requests =
    record {
      type = "Approved";
      status = "True";
      last_transition_time = some 1;
      reason = "";
      message = "";
    }
    ∷ record {
      type = "Ready";
      status = "False";
      last_transition_time = some 2;
      reason = "Pending";
      message = "";
    }
    ∷ []

requests-IsDistinct : IsDistinct requests
unfolding get_condition
requests-IsDistinct = (refl, (refl, tt))

abbrev denied : List CertificateRequestCondition
denied = set_certificate_request_condition 7 requests "Denied" "True" "Policy" ""

-- Revisions 1 to 3 by their digit, and one request without a number.
abbrev atoi : String → Option ℤ
atoi s =
    if s == "1"
    then some (pos 1)
    else if s == "2"
    then some (pos 2)
    else if s == "3"
    then some (pos 3)
    else none

abbrev request : String → String → Request
request name revision = record {
  namespace = "ns";
  name = name;
  revision_annotation = some revision;
}

abbrev owned : List Request
owned = request "b" "2" ∷ request "x" "no" ∷ request "a" "1" ∷ request "c" "3" ∷ []

abbrev crt : Certificate
crt = record {
  deleting = false;
  conditions = condition "Ready" "True" ∷ [];
  revision_history_limit = none;
}

process_item-Collects_example :
    ((process_item insertion_sorter atoi (Fetch.found crt) (some owned) (Deletion.deleted ∷ [])).0
      ≡ [])
    ⊎ Collects insertion_sorter atoi
        (Fetch.found crt)
        (some owned)
        (process_item insertion_sorter atoi
          (Fetch.found crt)
          (some owned)
          (Deletion.deleted ∷ [])).0
process_item-Collects_example =
    process_item-Collects insertion_sorter atoi (Fetch.found crt) (some owned)
      (Deletion.deleted ∷ [])

abbrev answers : List Deletion
answers = Deletion.deleted ∷ Deletion.not_found ∷ Deletion.deleted ∷ Deletion.deleted ∷ []
