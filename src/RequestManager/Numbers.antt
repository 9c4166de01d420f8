-- ===== src/RequestManager/Numbers.antt =====
-- The revisions of a Certificate and of its requests (pkg/controller/certificates/requestmanager), described without the
-- code's functions.
use cert_manager.Common.{
  true, false, Option, none, some, ◌≡◌, ◌≢◌, inl, inr, refl, sym, ap, ◌∙◌, String, ◌==◌, arith,
  Bool-cases, Option-cases,
}
use cert_manager.Common.Int.{ℤ, pos, negsuc, ◌+ℤ◌}
use cert_manager.RequestManager.Process.{next_revision}
use cert_manager.RequestManager.Sweep.{
  Request, remove, revision_of, decide_revision, keep_revised, equal_ℤ,
}
use cert_manager.RequestManager.Sweeping.{is_revision, of_revision}

equal_ℤ_sound : (a b : ℤ) → equal_ℤ a b ≡ true → a ≡ b
equal_ℤ_sound a b h = ground arith

equal_ℤ_refl : (a : ℤ) → equal_ℤ a a ≡ true
equal_ℤ_refl a = ground arith

abbrev max_int : ℤ
max_int = pos 9223372036854775807

-- The revision after the one of the status: 1 where that has none, one more where it has one, which wraps at
-- the largest int.
pub data IsNext (revision : Option ℤ) (next : ℤ) : Type 0 where
  first : revision ≡ none → next ≡ pos 1 → IsNext revision next
  later : (n : ℤ) → revision ≡ some n → n ≢ max_int → next ≡ n +ℤ pos 1 → IsNext revision next
  wraps : revision ≡ some max_int → next ≡ negsuc 9223372036854775807 → IsNext revision next

pub next_revision-IsNext : (o : Option ℤ) → IsNext o (next_revision o)
unfolding next_revision
next_revision-IsNext none = first refl refl
next_revision-IsNext (some n) = elim (Bool-cases (equal_ℤ n max_int)) [
  | inl e ↦ wraps (ap (λ x. some x) (equal_ℤ_sound n max_int e)) (rw e refl)
  | inr e ↦ later n refl (λ same. ground arith) (rw e refl)
]

next_some : (n : ℤ) → n ≢ max_int → next_revision (some n) ≡ n +ℤ pos 1
unfolding next_revision
next_some n h = elim (Bool-cases (equal_ℤ n max_int)) [
  | inl e ↦ absurd (h (equal_ℤ_sound n max_int e))
  | inr e ↦ rw e refl
]

pub IsNext-eq : (o : Option ℤ) (next : ℤ) → IsNext o next → next_revision o ≡ next
unfolding next_revision
IsNext-eq o next (first e h) = rw (e, next_revision) (sym h)
IsNext-eq o next (later n e k h) = ap next_revision e ∙ next_some n k ∙ sym h
IsNext-eq o next (wraps e h) = rw (e, next_revision) (sym h)

-- The request's annotation is a text that parses as the revision.
abbrev pub HasRevision : (parse_int : String → Option ℤ) → ℤ → Request → Type 0
HasRevision parse_int n r =
    (text : String) × (r.revision_annotation ≡ some text)
    × ((text == "") ≡ false)
    × (parse_int text ≡ some n)

revision_of-HasRevision :
    (parse_int : String → Option ℤ) (n : ℤ) (r : Request)
    → revision_of parse_int r ≡ some n
    → HasRevision parse_int n r
unfolding revision_of
revision_of-HasRevision parse_int n r h = elim (Option-cases r.revision_annotation) [
  | inl e ↦ absurd (ground arith)
  | inr (text, e) ↦ elim (Bool-cases (text == "")) [
    | inl b ↦ absurd (ground arith)
    | inr b ↦ (text, e, b, ground arith)
  ]
]

HasRevision-revision_of :
    (parse_int : String → Option ℤ) (n : ℤ) (r : Request)
    → HasRevision parse_int n r
    → revision_of parse_int r ≡ some n
unfolding revision_of
HasRevision-revision_of parse_int n r (text, e, b, p) = rw (e, revision_of) (rw b p)

is_revision-true : (n : ℤ) (o : Option ℤ) → is_revision n o ≡ true → o ≡ some n
is_revision-true n none h = absurd (ground arith)
is_revision-true n (some k) h = ap (λ x. some x) (equal_ℤ_sound k n h)

pub of_revision-HasRevision :
    (parse_int : String → Option ℤ) (n : ℤ) (r : Request)
    → of_revision parse_int n r ≡ true
    → HasRevision parse_int n r
of_revision-HasRevision parse_int n r h =
    revision_of-HasRevision parse_int n r (is_revision-true n (revision_of parse_int r) h)

pub HasRevision-of_revision :
    (parse_int : String → Option ℤ) (n : ℤ) (r : Request)
    → HasRevision parse_int n r
    → of_revision parse_int n r ≡ true
HasRevision-of_revision parse_int n r h =
    rw (HasRevision-revision_of parse_int n r h) (equal_ℤ_refl n)

keep_revised-remove : (o : Option ℤ) (n : ℤ) → keep_revised o ≡ remove → o ≢ some n
keep_revised-remove none n h e = ground arith
keep_revised-remove (some k) n h e = ground arith

pub decide_revision-removes :
    (parse_int : String → Option ℤ) (r : Request)
    → decide_revision parse_int r ≡ remove
    → (n : ℤ) → ¬ HasRevision parse_int n r
unfolding decide_revision
decide_revision-removes parse_int r h n v =
    keep_revised-remove (revision_of parse_int r) n h (HasRevision-revision_of parse_int n r v)
