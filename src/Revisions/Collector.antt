-- ===== src/Revisions/Collector.antt =====
-- pkg/controller/certificates/revisionmanager/revisionmanager_controller.go. The sort is Go's;
-- `strconv.Atoi` and the API client are parameters. A request's revision annotation is `none` if it
-- has no annotations or not that one. Log lines are left out.
use cert_manager.Common.{
  ℕ, ◌-◌, String, Bool, true, false, Option, none, some, List, [], ◌∷◌, ltb, leb, ◌==◌,
  if◌then◌else◌, length, take, not,
}
use cert_manager.Common.Int.{ℤ, ltb_ℤ}
use cert_manager.Common.Order.{Sorter}
use cert_manager.Conditions.Entry.{CertificateCondition}
use cert_manager.Conditions.Operations.{certificate_has_condition, condition_true}

pub record Request : Type 0 where
  pub namespace : String
  pub name : String
  pub revision_annotation : Option String

pub record Revision : Type 0 where
  pub rev : ℤ
  pub namespace : String
  pub name : String

-- The revision of one request, if it has one that parses.
unfoldable pub request_revision : (String → Option ℤ) → Request → Option Revision
request_revision atoi req = elim req.revision_annotation [
  | none ↦ none
  | some text ↦ if text == "" then none else elim (atoi text) [
    | none ↦ none
    | some rn ↦ some (record { rev = rn; namespace = req.namespace; name = req.name })
  ]
]

-- `append(revisions, …)` or `continue`.
unfoldable pub add_revision : Option Revision → List Revision → List Revision
add_revision none rest = rest
add_revision (some r) rest = r ∷ rest

unfoldable pub valid_revisions : (String → Option ℤ) → List Request → List Revision
unfolding add_revision
valid_revisions atoi [] = []
valid_revisions atoi (req ∷ requests) =
    add_revision (request_revision atoi req) (valid_revisions atoi requests)

unfoldable pub revision_less : Revision → Revision → Bool
revision_less a b = ltb_ℤ a.rev b.rev

-- What the API server answers to a deletion.
pub data Deletion : Type 0 where
  deleted not_found refused : Deletion

-- The deletions that are asked for, one answer for each, and whether the loop returns an error. No
-- answer counts as an error.
unfoldable pub delete_all : List Revision → List Deletion → List Revision × Bool
delete_all [] answers = ([], false)
delete_all (r ∷ rs) [] = (r ∷ [], true)
delete_all (r ∷ rs) (refused ∷ answers) = (r ∷ [], true)
delete_all (r ∷ rs) (_ ∷ answers) =
    let (asked, failed) = delete_all rs answers in (r ∷ asked, failed)

pub record Certificate : Type 0 where
  pub deleting : Bool
  pub conditions : List CertificateCondition
  pub revision_history_limit : Option ℕ

-- What a lister answers.
pub data Fetch {ℓ} (A : Type ℓ) : Type ℓ where
  found : A → Fetch A
  missing failure : Fetch A

abbrev pub ready_true : CertificateCondition
ready_true = record {
  type = "Ready";
  status = condition_true;
  last_transition_time = none;
  reason = "";
  message = "";
  observed_generation = 0;
}

-- `int(*crt.Spec.RevisionHistoryLimit)`, 1 if it is not set.
unfoldable pub history_limit : Option ℕ → ℕ
history_limit none = 1
history_limit (some n) = n

module _ (sorter : Sorter Revision) (atoi : String → Option ℤ) where
  unfoldable pub certificate_requests_to_delete : (limit : ℕ) → List Request → List Revision
  certificate_requests_to_delete limit requests =
      let revisions = sorter.sort revision_less (valid_revisions atoi requests) in
      if leb (length requests) limit
      then []
      else if ltb (length revisions) limit
      then []
      else take (length revisions - limit) revisions

  -- The deletions that ProcessItem asks for, and whether it returns an error; `none` is a failure to
  -- list the requests that the certificate owns.
  unfoldable pub process_item :
      Fetch Certificate → Option (List Request) → List Deletion → List Revision × Bool
  unfolding history_limit
  process_item failure requests answers = ([], true)
  process_item missing requests answers = ([], false)
  process_item (found crt) requests answers =
      if crt.deleting
      then ([], false)
      else if not (certificate_has_condition (some crt.conditions) ready_true)
      then ([], false)
      else elim requests [
        | none ↦ ([], true)
        | some reqs ↦
            delete_all
              (certificate_requests_to_delete (history_limit crt.revision_history_limit) reqs)
              answers
      ]
