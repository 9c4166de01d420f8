-- ===== src/Usages/Reading.antt =====
-- The names of key usages are read back by KeyUsagesForCertificateOrCertificateRequest of
-- pkg/util/pki/csr.go.
use cert_manager.Common.{
  ℕ, ◌<◌, String, Bool, true, false, none, some, List, [], ◌∷◌, ◌++◌, eqb, if◌then◌else◌, ◌≡◌, ◌≢◌,
  refl, ◌∙◌, sym, ap, arith, All, ◌&&◌, Option-cases, inl, inr, subst,
}
use Prim.Native.Nat.{bit_or}
use mathlib.Core.List.{append-nil, append_assoc}
use cert_manager.Common.Below.{holds_below, holds_below_lem}
use cert_manager.Usages.Names.{
  key_usage_strings, ext_key_usage_strings, Usages, add_usage, add_usages,
  key_usages_for_certificate_or_certificate_request, cert_sign, ext_key_usage_string, or_defaults,
  key_usage_type, ext_key_usage_type,
}

abbrev start : Bool → Usages
start is_ca = record { ku = if is_ca then cert_sign else 0; eku = []; unk = [] }

abbrev is_nil : {A : Type 0} → List A → Bool
is_nil [] = true
is_nil (x ∷ xs) = false

-- The set that is read, with the bit for an authority.
abbrev pub expected : Bool → ℕ → ℕ
expected is_ca u = if is_ca then bit_or cert_sign u else u

-- Whether the names of `u` are read as `u` and nothing else.
reads : Bool → ℕ → Bool
reads is_ca u =
    let r = add_usages (start is_ca) (key_usage_strings u) in
    eqb r.ku (expected is_ca u) && is_nil r.eku && is_nil r.unk

reads_table : (is_ca : Bool) → holds_below (reads is_ca) 512 ≡ true
unfolding holds_below reads key_usage_strings add_usages add_usage
reads_table true = refl
reads_table false = refl

abbrev of_bits : ℕ → Usages
of_bits k = record { ku = k; eku = []; unk = [] }

reads_lem :
    (is_ca : Bool) (u : ℕ)
    → reads is_ca u ≡ true
    → add_usages (start is_ca) (key_usage_strings u) ≡ of_bits (expected is_ca u)
unfolding reads
reads_lem is_ca u h = ground arith

-- The names of the extended usages that have one.
ext_reads : ℕ → Bool
ext_reads e =
    let s = ext_key_usage_string e in
    elim (key_usage_type s) [
      | some v ↦ false
      | none ↦ elim (ext_key_usage_type s) [ none ↦ false | some v ↦ eqb v e ]
    ]

ext_table : holds_below ext_reads 12 ≡ true
unfolding holds_below ext_reads key_usage_type ext_key_usage_type ext_key_usage_string
ext_table = refl

add_usage_lem :
    (acc : Usages) (e : ℕ) (s : String)
    → key_usage_type s ≡ none
    → ext_key_usage_type s ≡ some e
    → add_usage acc s ≡ record acc { eku = acc.eku ++ e ∷ [] }
unfolding add_usage
add_usage_lem acc e s a b = rw (a, b, add_usage)

ext_reads_lem :
    (e : ℕ)
    → ext_reads e ≡ true
    → (key_usage_type (ext_key_usage_string e) ≡ none)
      × (ext_key_usage_type (ext_key_usage_string e) ≡ some e)
unfolding ext_reads
ext_reads_lem e h = elim (Option-cases (key_usage_type (ext_key_usage_string e))) [
  | inr (v, is) ↦ absurd (ground arith)
  | inl none_there ↦ elim (Option-cases (ext_key_usage_type (ext_key_usage_string e))) [
    | inl missing ↦ absurd (ground arith)
    | inr (v, is) ↦ (none_there, ground arith)
  ]
]

add_usages-append :
    (acc : Usages) (xs ys : List String)
    → add_usages acc (xs ++ ys) ≡ add_usages (add_usages acc xs) ys
unfolding add_usages
add_usages-append acc [] ys = refl
add_usages-append acc (x ∷ xs) ys = add_usages-append (add_usage acc x) xs ys

add_usages-ext :
    (acc : Usages) (es : List ℕ)
    → All (λ e. e < 12) es
    → add_usages acc (ext_key_usage_strings es) ≡ record acc { eku = acc.eku ++ es }
unfolding add_usages ext_key_usage_strings
add_usages-ext acc [] h = ap (λ (es : List ℕ). record acc { eku = es }) (sym (append-nil acc.eku))
add_usages-ext acc (e ∷ es) h =
    let known = ext_reads_lem e (holds_below_lem ext_reads 12 e h.0 ext_table) in
    ap (λ (a : Usages). add_usages a (ext_key_usage_strings es))
      (add_usage_lem acc e (ext_key_usage_string e) known.0 known.1)
    ∙ add_usages-ext (record acc { eku = acc.eku ++ e ∷ [] }) es h.1
    ∙ ap (λ (l : List ℕ). record acc { eku = l }) (append_assoc acc.eku (e ∷ []) es)

-- A set that is not empty has a name.
named : (u : ℕ) → 0 < u → u < 512 → key_usage_strings u ≢ []
named u pos lt e =
    let r = reads_lem false u (holds_below_lem (reads false) 512 u lt (reads_table false)) in
    let ends : add_usages (start false) [] ≡ of_bits u =
      subst (λ l. add_usages (start false) l ≡ of_bits u) e r in
    let same : start false ≡ of_bits u = unfold add_usages in ends in
    let zero_set : 0 ≡ u = ap (λ (a : Usages). a.ku) same in omega (arith, zero_set)

or_defaults-append : (xs ys : List String) → xs ≢ [] → or_defaults (xs ++ ys) ≡ xs ++ ys
or_defaults-append [] ys h = absurd (h refl)
or_defaults-append (x ∷ xs) ys h = refl

-- For a set of key usages that is not empty and a list of extended usages that have a name, in any
-- order: the names that KeyUsageStrings and ExtKeyUsageStrings give are read back by
-- KeyUsagesForCertificateOrCertificateRequest as the same set and the same list, with the bit for
-- signing certificates added for an authority, and no name is unknown.
pub key_usages-key_usage_strings :
    (is_ca : Bool) (u : ℕ) (es : List ℕ)
    → 0 < u
    → u < 512
    → All (λ e. e < 12) es
    → key_usages_for_certificate_or_certificate_request
        (key_usage_strings u ++ ext_key_usage_strings es)
        is_ca
      ≡ record { ku = expected is_ca u; eku = es; unk = [] }
unfolding key_usages_for_certificate_or_certificate_request
key_usages-key_usage_strings is_ca u es pos lt known =
    ap (add_usages (start is_ca))
      (or_defaults-append (key_usage_strings u) (ext_key_usage_strings es) (named u pos lt))
    ∙ add_usages-append (start is_ca) (key_usage_strings u) (ext_key_usage_strings es)
    ∙ ap (λ (a : Usages). add_usages a (ext_key_usage_strings es))
        (reads_lem is_ca u (holds_below_lem (reads is_ca) 512 u lt (reads_table is_ca)))
    ∙ add_usages-ext (of_bits (expected is_ca u)) es known
