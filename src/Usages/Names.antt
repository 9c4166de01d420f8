-- ===== src/Usages/Names.antt =====
-- The names of the key usages in pkg/api/util/usages.go, and KeyUsagesForCertificateOrCertificateRequest of
-- pkg/util/pki/csr.go. A set of key usages has the bits of crypto/x509, an extended one is its number
-- there. A map that the source ranges over is the list of its entries: apart from the two values that
-- are handled first, no value occurs twice, so their order does not matter.
use cert_manager.Common.{
  ℕ, zero, suc, ◌^◌, String, Bool, Option, none, some, List, [], ◌∷◌, ◌++◌, ◌==◌, eqb,
  if◌then◌else◌,
}
use Prim.Native.Nat.{bit_and, bit_or}

abbrev pub digital_signature : ℕ
digital_signature = 1

abbrev pub cert_sign : ℕ
cert_sign = 32

abbrev pub email_protection : ℕ
email_protection = 4

abbrev pub key_usages : List (String × ℕ)
key_usages =
    ("signing", 1)
    ∷ ("digital signature", 1)
    ∷ ("content commitment", 2)
    ∷ ("key encipherment", 4)
    ∷ ("key agreement", 16)
    ∷ ("data encipherment", 8)
    ∷ ("cert sign", 32)
    ∷ ("crl sign", 64)
    ∷ ("encipher only", 128)
    ∷ ("decipher only", 256)
    ∷ []

abbrev pub ext_key_usages : List (String × ℕ)
ext_key_usages =
    ("any", 0)
    ∷ ("server auth", 1)
    ∷ ("client auth", 2)
    ∷ ("code signing", 3)
    ∷ ("email protection", 4)
    ∷ ("s/mime", 4)
    ∷ ("ipsec end system", 5)
    ∷ ("ipsec tunnel", 6)
    ∷ ("ipsec user", 7)
    ∷ ("timestamping", 8)
    ∷ ("ocsp signing", 9)
    ∷ ("microsoft sgc", 10)
    ∷ ("netscape sgc", 11)
    ∷ []

-- A look-up in a map, and the loop that looks for a value.
unfoldable pub value_at : List (String × ℕ) → String → Option ℕ
value_at [] k = none
value_at ((j, v) ∷ m) k = if j == k then some v else value_at m k

unfoldable pub name_of : List (String × ℕ) → ℕ → String
name_of [] v = "unknown"
name_of ((k, w) ∷ m) v = if eqb v w then k else name_of m v

unfoldable pub key_usage_type : String → Option ℕ
unfolding value_at
key_usage_type usage = value_at key_usages usage

unfoldable pub ext_key_usage_type : String → Option ℕ
unfolding value_at
ext_key_usage_type usage = value_at ext_key_usages usage

unfoldable pub key_usage_string : ℕ → String
unfolding name_of
key_usage_string usage =
    if eqb usage digital_signature then "digital signature" else name_of key_usages usage

unfoldable pub ext_key_usage_string : ℕ → String
unfolding name_of
ext_key_usage_string usage =
    if eqb usage email_protection then "email protection" else name_of ext_key_usages usage

-- The loop of KeyUsageStrings from bit `i` on, by the rounds that are left.
unfoldable pub key_usage_strings_from : (rounds i : ℕ) → ℕ → List String
unfolding key_usage_string
key_usage_strings_from zero i usage = []
key_usage_strings_from (suc rounds) i usage =
    let rest = key_usage_strings_from rounds (suc i) usage in
    let v = bit_and usage (2 ^ i) in if eqb v 0 then rest else key_usage_string v ∷ rest

-- `bits.UintSize`
abbrev pub uint_size : ℕ
uint_size = 64

unfoldable pub key_usage_strings : ℕ → List String
unfolding key_usage_strings_from
key_usage_strings usage = key_usage_strings_from uint_size 0 usage

unfoldable pub ext_key_usage_strings : List ℕ → List String
unfolding ext_key_usage_string
ext_key_usage_strings [] = []
ext_key_usage_strings (u ∷ us) = ext_key_usage_string u ∷ ext_key_usage_strings us

-- What the loop over the usages collects.
pub record Usages : Type 0 where
  pub ku : ℕ
  pub eku : List ℕ
  pub unk : List String

unfoldable pub add_usage : Usages → String → Usages
unfolding key_usage_type ext_key_usage_type
add_usage acc u = elim (key_usage_type u) [
  | some kuse ↦ record acc { ku = bit_or acc.ku kuse }
  | none ↦ elim (ext_key_usage_type u) [
    | some ekuse ↦ record acc { eku = acc.eku ++ ekuse ∷ [] }
    | none ↦ record acc { unk = acc.unk ++ u ∷ [] }
  ]
]

unfoldable pub add_usages : Usages → List String → Usages
unfolding add_usage
add_usages acc [] = acc
add_usages acc (u ∷ us) = add_usages (add_usage acc u) us

abbrev pub default_key_usages : List String
default_key_usages = "digital signature" ∷ "key encipherment" ∷ []

abbrev pub or_defaults : List String → List String
or_defaults [] = default_key_usages
or_defaults (u ∷ us) = u ∷ us

-- An error is returned where `unk` is not empty.
unfoldable pub key_usages_for_certificate_or_certificate_request :
    List String → (is_ca : Bool) → Usages
unfolding add_usages
key_usages_for_certificate_or_certificate_request usages is_ca =
    add_usages (record { ku = if is_ca then cert_sign else 0; eku = []; unk = [] })
      (or_defaults usages)
