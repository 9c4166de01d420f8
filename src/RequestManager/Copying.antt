-- ===== src/RequestManager/Copying.antt =====
-- Which annotations BuildAnnotationsToCopy of pkg/controller/util.go copies.
use cert_manager.Common.{
  String, Bool, true, false, Option, none, List, [], ◌∷◌, ◌++◌, ◌||◌, if◌then◌else◌, ◌≡◌, ◌∙◌, refl,
  All, arith,
}
use text.Mathlib.Text.{starts_with}
use cert_manager.RequestManager.Annotations.{
  trim_dash, includes_all, filter_annotation, filter_annotations, build_annotations_to_copy,
}

-- A prefix decides about a key: one with a dash if the key begins with what follows the dash, any other if
-- the key begins with it or all annotations are included.
abbrev pub decides : (include_all : Bool) → (k annotation : String) → Bool
decides include_all k annotation =
    if starts_with annotation "-"
    then starts_with k (trim_dash annotation)
    else include_all || starts_with k annotation

filter_annotation-undecided :
    (include_all : Bool) (k annotation : String) (value filtered : Option String)
    → decides include_all k annotation ≡ false
    → filter_annotation include_all k annotation value filtered ≡ filtered
unfolding filter_annotation
filter_annotation-undecided include_all k annotation value filtered h = ground arith

filter_annotation-decided :
    (include_all : Bool) (k annotation : String) (value filtered : Option String)
    → decides include_all k annotation ≡ true
    → filter_annotation include_all k annotation value filtered
      ≡ (if starts_with annotation "-" then none else value)
unfolding filter_annotation
filter_annotation-decided include_all k annotation value filtered h = ground arith

filter_annotations-undecided :
    (include_all : Bool) (k : String) (prefixes : List String) (value filtered : Option String)
    → All (λ a. decides include_all k a ≡ false) prefixes
    → filter_annotations include_all k prefixes value filtered ≡ filtered
unfolding filter_annotations
filter_annotations-undecided include_all k [] value filtered h = refl
filter_annotations-undecided include_all k (a ∷ prefixes) value filtered h =
    rw (filter_annotation-undecided include_all k a value filtered h.0)
      (filter_annotations-undecided include_all k prefixes value filtered h.1)

filter_annotations-last :
    (include_all : Bool) (k : String) (before : List String) (a : String) (later : List String)
    (value filtered : Option String)
    → decides include_all k a ≡ true
    → All (λ b. decides include_all k b ≡ false) later
    → filter_annotations include_all k (before ++ a ∷ later) value filtered
      ≡ (if starts_with a "-" then none else value)
unfolding filter_annotations
filter_annotations-last include_all k [] a later value filtered h n =
    filter_annotations-undecided include_all k later value
      (filter_annotation include_all k a value filtered) n
    ∙ filter_annotation-decided include_all k a value filtered h
filter_annotations-last include_all k (b ∷ before) a later value filtered h n =
    filter_annotations-last include_all k before a later value
      (filter_annotation include_all k b value filtered) h n

-- The last prefix that decides about a key is the one that counts: BuildAnnotationsToCopy copies the
-- annotation if that prefix has no dash and leaves it out if it has one, whatever the prefixes before it say.
pub build_annotations_to_copy-last :
    (all_annotations : String → Option String) (before : List String) (a : String)
    (later : List String) (k : String)
    → decides (includes_all (before ++ a ∷ later)) k a ≡ true
    → All (λ b. decides (includes_all (before ++ a ∷ later)) k b ≡ false) later
    → build_annotations_to_copy all_annotations (before ++ a ∷ later) k
      ≡ (if starts_with a "-" then none else all_annotations k)
unfolding build_annotations_to_copy
build_annotations_to_copy-last all_annotations before a later k h n =
    filter_annotations-last (includes_all (before ++ a ∷ later)) k before a later
      (all_annotations k) none h n
