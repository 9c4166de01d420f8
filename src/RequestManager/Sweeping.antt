-- ===== src/RequestManager/Sweeping.antt =====
-- What the deleting loops of pkg/controller/certificates/requestmanager return.
use cert_manager.Common.{
  String, Bool, true, false, Option, none, some, List, [], ◌∷◌, ◌≡◌, ◌≢◌, ◌⊎◌, inl, inr, refl, ◌∙◌,
  if◌then◌else◌, arith, All, select, ap,
}
use cert_manager.Common.Int.{ℤ}
use cert_manager.RequestManager.Sweep.{
  Request, Decision, Remaining, Swept, keep, remove, fail, abandon, kept, abandoned, lost, sweep,
  sweep_one, keep_first, revision_of, decide_revision, requests_with_revision, add_matching,
  keep_revised, equal_ℤ,
}

abbrev pub is_keep : Decision → Bool
is_keep keep = true
is_keep _ = false

-- The request is kept, or its deletion succeeds.
abbrev pub IsSettled : Decision → (deleted : Bool) → Type 0
IsSettled d deleted = (d ≡ keep) ⊎ ((d ≡ remove) × (deleted ≡ true))

-- A pass that leaves requests kept.
record Keeps (d : Decision) (deleted : Bool) (r : Request) (rest : Swept) (ks : List Request)
    : Type 0 where
  settled : IsSettled d deleted
  others : List Request
  others_eq : rest.remaining ≡ kept others
  all_eq : ks ≡ (if is_keep d then r ∷ others else others)

Remaining-cases :
    (m : Remaining) → ((rs : List Request) × (m ≡ kept rs)) ⊎ ((m ≡ abandoned) ⊎ (m ≡ lost))
Remaining-cases (kept rs) = inl (rs, refl)
Remaining-cases abandoned = inr (inl refl)
Remaining-cases lost = inr (inr refl)

sweep_one-Keeps :
    (d : Decision) (deleted : Bool) (r : Request) (rest : Swept) (ks : List Request)
    → (sweep_one d deleted r rest).remaining ≡ kept ks
    → Keeps d deleted r rest ks
unfolding sweep_one
sweep_one-Keeps keep b r rest ks h = elim (Remaining-cases rest.remaining) [
  | inl (rs, e) ↦ record { settled = inl refl; others = rs; others_eq = e; all_eq = ground arith }
  | inr e ↦ absurd (ground arith)
]
sweep_one-Keeps remove true r rest ks h = record {
  settled = inr (refl, refl);
  others = ks;
  others_eq = h;
  all_eq = refl;
}
sweep_one-Keeps remove false r rest ks h = absurd (ground arith)
sweep_one-Keeps fail b r rest ks h = absurd (ground arith)
sweep_one-Keeps abandon b r rest ks h = absurd (ground arith)

sweep_one-settled :
    (d : Decision) (deleted : Bool) (r : Request) (rest : Swept) (ks : List Request)
    → IsSettled d deleted
    → rest.remaining ≡ kept ks
    → (sweep_one d deleted r rest).remaining ≡ kept (if is_keep d then r ∷ ks else ks)
unfolding sweep_one
sweep_one-settled keep b r rest ks s h = ap (keep_first r) h
sweep_one-settled remove true r rest ks s h = h
sweep_one-settled remove false r rest ks s h = absurd (ground arith)
sweep_one-settled fail b r rest ks s h = absurd (ground arith)
sweep_one-settled abandon b r rest ks s h = absurd (ground arith)

sweep_one-not-abandoned :
    (d : Decision) (deleted : Bool) (r : Request) (rest : Swept)
    → d ≢ abandon
    → rest.remaining ≢ abandoned
    → (sweep_one d deleted r rest).remaining ≢ abandoned
unfolding sweep_one
sweep_one-not-abandoned keep b r rest n h e = elim (Remaining-cases rest.remaining) [
  | inl (rs, k) ↦ ground arith
  | inr (inl k) ↦ h k
  | inr (inr k) ↦ ground arith
]
sweep_one-not-abandoned remove true r rest n h e = h e
sweep_one-not-abandoned remove false r rest n h e = ground arith
sweep_one-not-abandoned fail b r rest n h e = ground arith
sweep_one-not-abandoned abandon b r rest n h e = n refl

sweep_one-asked :
    (Q : Request → Type 0) (d : Decision) (deleted : Bool) (r : Request) (rest : Swept)
    → (d ≡ remove → Q r)
    → All Q rest.asked
    → All Q (sweep_one d deleted r rest).asked
unfolding sweep_one
sweep_one-asked Q keep b r rest f h = h
sweep_one-asked Q remove true r rest f h = (f refl, h)
sweep_one-asked Q remove false r rest f h = (f refl, tt)
sweep_one-asked Q fail b r rest f h = tt
sweep_one-asked Q abandon b r rest f h = tt

module _ (decide : Request → Decision) (deleted : Request → Bool) where
  pub sweep-settled :
      (rs : List Request)
      → All (λ r. IsSettled (decide r) (deleted r)) rs
      → (sweep decide deleted rs).remaining ≡ kept (select (λ r. is_keep (decide r)) rs)
  unfolding sweep
  sweep-settled [] h = refl
  sweep-settled (r ∷ rs) h =
      sweep_one-settled (decide r) (deleted r) r (sweep decide deleted rs)
        (select (λ q. is_keep (decide q)) rs) h.0 (sweep-settled rs h.1)

  pub sweep-kept :
      (rs ks : List Request)
      → (sweep decide deleted rs).remaining ≡ kept ks
      → (ks ≡ select (λ r. is_keep (decide r)) rs) × All (λ r. IsSettled (decide r) (deleted r)) rs
  unfolding sweep
  sweep-kept [] ks h = (ground arith, tt)
  sweep-kept (r ∷ rs) ks h =
      let k = sweep_one-Keeps (decide r) (deleted r) r (sweep decide deleted rs) ks h in
      let more = sweep-kept rs k.others k.others_eq in
      (k.all_eq ∙ ap (λ l. if is_keep (decide r) then r ∷ l else l) more.0, (k.settled, more.1))

  pub sweep-not-abandoned :
      (rs : List Request)
      → All (λ r. decide r ≢ abandon) rs
      → (sweep decide deleted rs).remaining ≢ abandoned
  unfolding sweep
  sweep-not-abandoned [] h = λ e. ground arith
  sweep-not-abandoned (r ∷ rs) h =
      sweep_one-not-abandoned (decide r) (deleted r) r (sweep decide deleted rs) h.0
        (sweep-not-abandoned rs h.1)

  -- What a loop asks to delete is what it decides to remove, of the requests that it is given.
  pub sweep-asked :
      (P : Request → Type 0) (rs : List Request)
      → All P rs
      → All (λ r. (decide r ≡ remove) × P r) (sweep decide deleted rs).asked
  unfolding sweep
  sweep-asked P [] h = tt
  sweep-asked P (r ∷ rs) h =
      sweep_one-asked (λ q. (decide q ≡ remove) × P q) (decide r) (deleted r) r
        (sweep decide deleted rs) (λ e. (e, h.0)) (sweep-asked P rs h.1)

abbrev pub is_revision : ℤ → Option ℤ → Bool
is_revision revision none = false
is_revision revision (some n) = equal_ℤ n revision

-- The requests of a revision.
abbrev pub of_revision : (parse_int : String → Option ℤ) → ℤ → Request → Bool
of_revision parse_int revision r = is_revision revision (revision_of parse_int r)

add_matching-select :
    (parse_int : String → Option ℤ) (revision : ℤ) (o : Option ℤ) (r : Request)
    (rest matching : List Request)
    → revision_of parse_int r ≡ o
    → requests_with_revision parse_int revision rest ≡ some matching
    → requests_with_revision parse_int revision
        (if is_keep (keep_revised o) then r ∷ rest else rest)
      ≡ some (if is_revision revision o then r ∷ matching else matching)
unfolding requests_with_revision add_matching
add_matching-select parse_int revision none r rest matching e h = h
add_matching-select parse_int revision (some n) r rest matching e h = rw e (rw h (ground arith))

-- requestsWithRevision never fails on what deleteRequestsWithoutRevision leaves: it returns the requests of
-- the revision.
pub requests_with_revision-decide_revision :
    (parse_int : String → Option ℤ) (revision : ℤ) (rs : List Request)
    → requests_with_revision parse_int revision
        (select (λ r. is_keep (decide_revision parse_int r)) rs)
      ≡ some (select (of_revision parse_int revision) rs)
unfolding requests_with_revision decide_revision
requests_with_revision-decide_revision parse_int revision [] = refl
requests_with_revision-decide_revision parse_int revision (r ∷ rs) =
    add_matching-select parse_int revision (revision_of parse_int r) r
      (select (λ q. is_keep (decide_revision parse_int q)) rs)
      (select (of_revision parse_int revision) rs) refl
      (requests_with_revision-decide_revision parse_int revision rs)
