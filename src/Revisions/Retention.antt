-- ===== src/Revisions/Retention.antt =====
-- What the collector of pkg/controller/certificates/revisionmanager deletes and what it keeps.
use cert_manager.Common.{
  ℕ, zero, suc, ◌≡◌, refl, String, true, false, Option, none, some, List, [], ◌∷◌, ◌++◌, length,
  arith, min, All, Bool-cases, inl, inr, ◌⊎◌, ap,
}
use mathlib.Core.List.{Permᴰ}
use mathlib.Core.List.Permᴰ
use cert_manager.Common.Int.{ℤ, ◌≤ℤ◌}
use cert_manager.Common.Order.{Sorter}
use cert_manager.Conditions.Operations.{certificate_has_condition}
use cert_manager.Revisions.Collector.{
  Request, Revision, Certificate, Deletion, Fetch, found, missing, failure,
  certificate_requests_to_delete, delete_all, process_item, history_limit, ready_true,
}

drop : ℕ → List Revision → List Revision
drop zero xs = xs
drop (suc n) [] = []
drop (suc n) (x ∷ xs) = drop n xs

-- What is kept beside a deletion: together they are the valid revisions, nothing that is deleted is
-- newer than anything kept, and as many are kept as the limit allows.
pub record Retains (limit : ℕ) (valid gone : List Revision) : Type 0 where
  pub kept : List Revision
  pub all_of_them : Permᴰ (gone ++ kept) valid
  pub oldest : All (λ a. All (λ b. a.rev ≤ℤ b.rev) kept) gone
  pub as_many : length kept ≡ min limit (length valid)

delete_all-prefix :
    (rs : List Revision) (answers : List Deletion)
    → (rest : List Revision) × (rs ≡ (delete_all rs answers).0 ++ rest)
unfolding delete_all
delete_all-prefix [] answers = ([], refl)
delete_all-prefix (r ∷ rs) [] = (rs, refl)
delete_all-prefix (r ∷ rs) (Deletion.refused ∷ answers) = (rs, refl)
delete_all-prefix (r ∷ rs) (Deletion.deleted ∷ answers) =
    let (rest, e) = delete_all-prefix rs answers in (rest, ap (λ l. r ∷ l) e)
delete_all-prefix (r ∷ rs) (Deletion.not_found ∷ answers) =
    let (rest, e) = delete_all-prefix rs answers in (rest, ap (λ l. r ∷ l) e)

abbrev pub IsDone : Deletion → Type 0
IsDone Deletion.deleted = Unit
IsDone Deletion.not_found = Unit
IsDone Deletion.refused = ⊥

module _ (sorter : Sorter Revision) (atoi : String → Option ℤ) where
  -- The certificate on whose requests ProcessItem acts.
  pub record Collects (fetched : Fetch Certificate) (requests : Option (List Request))
      (asked : List Revision) : Type 0 where
    pub crt : Certificate
    pub owned : List Request
    pub spared : List Revision
    pub is_fetched : fetched ≡ found crt
    pub is_listed : requests ≡ some owned
    pub is_live : crt.deleting ≡ false
    pub is_ready : certificate_has_condition (some crt.conditions) ready_true ≡ true
    pub is_old :
        certificate_requests_to_delete sorter atoi (history_limit crt.revision_history_limit) owned
        ≡ asked ++ spared

  -- ProcessItem asks for no deletion at all, or the certificate exists, is not being deleted and is
  -- Ready, and the requests whose deletion is asked for are the first of those over its history
  -- limit.
  pub process_item-Collects :
      (fetched : Fetch Certificate) (requests : Option (List Request)) (answers : List Deletion)
      → ((process_item sorter atoi fetched requests answers).0 ≡ [])
        ⊎ Collects fetched requests (process_item sorter atoi fetched requests answers).0
  unfolding process_item
  process_item-Collects failure requests answers = inl refl
  process_item-Collects missing requests answers = inl refl
  process_item-Collects (found crt) none answers = inl (ground arith)
  process_item-Collects (found crt) (some reqs) answers = elim (Bool-cases crt.deleting) [
    | inl gone ↦ inl (rw gone)
    | inr live ↦ elim (Bool-cases (certificate_has_condition (some crt.conditions) ready_true)) [
      | inr unready ↦ inl (rw (live, unready))
      | inl ready ↦
          let old =
            certificate_requests_to_delete sorter atoi (history_limit crt.revision_history_limit)
              reqs in
          let cut = delete_all-prefix old answers in
          inr (
            simp (live, ready)
              (record {
                crt = crt;
                owned = reqs;
                spared = cut.0;
                is_fetched = refl;
                is_listed = refl;
                is_live = live;
                is_ready = ready;
                is_old = cut.1;
              }))
    ]
  ]

  -- The limit that the spec sets, or 1 where it sets none.
  abbrev pub IsLimit : Option ℕ → ℕ → Type 0
  IsLimit spec limit = (spec ≡ some limit) ⊎ ((spec ≡ none) × (limit ≡ 1))
