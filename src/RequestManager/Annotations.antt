-- ===== src/RequestManager/Annotations.antt =====
-- BuildAnnotationsToCopy of pkg/controller/util.go, for one key: the map that it returns has `some v` at the
-- key, or nothing. The loops over the map write and delete each key by itself, in the order of `prefixes`.
use cert_manager.Common.{String, Bool, Option, none, List, [], ◌∷◌, ◌==◌, ◌||◌, any, if◌then◌else◌}
use text.Mathlib.Text.{starts_with}
use Prim.Native.String.{len, slice}

-- `strings.TrimPrefix(annotation, "-")`
abbrev pub trim_dash : String → String
trim_dash text = if starts_with text "-" then slice text 1 (len text) else text

abbrev pub includes_all : List String → Bool
includes_all prefixes = any (λ v. v == "*") prefixes

-- What one prefix does to the key's value in the map that is built.
unfoldable pub filter_annotation :
    (include_all : Bool) → (k annotation : String) → Option String → Option String → Option String
filter_annotation include_all k annotation value filtered =
    if starts_with annotation "-"
    then (if starts_with k (trim_dash annotation) then none else filtered)
    else if include_all || starts_with k annotation
    then value
    else filtered

unfoldable pub filter_annotations :
    (include_all : Bool)
    → (k : String) → List String
    → Option String
    → Option String
    → Option String
filter_annotations include_all k [] value filtered = filtered
filter_annotations include_all k (annotation ∷ prefixes) value filtered =
    filter_annotations include_all k prefixes value
      (filter_annotation include_all k annotation value filtered)

unfoldable pub build_annotations_to_copy :
    (String → Option String) → (prefixes : List String) → String → Option String
unfolding filter_annotations
build_annotations_to_copy all_annotations prefixes k =
    filter_annotations (includes_all prefixes) k prefixes (all_annotations k) none
