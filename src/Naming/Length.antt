-- ===== src/Naming/Length.antt =====
-- The lengths of the names that pkg/api/util/names.go returns.
use cert_manager.Common.{
  ℕ, zero, suc, ◌+◌, ◌-◌, ◌≤◌, ◌≡◌, ◌≢◌, refl, String, none, some, arith, inl, inr, Ordering,
  compare, Option-cases,
}
use Prim.Native.Char.{Char, len_utf8}
use Prim.Native.String.len
use Prim.Native.String.slice
use Prim.Native.String.{◌++◌, [], ◌∷◌, len, slice, fits}
use text.Mathlib.TextPositions.{len-append}
use cert_manager.Naming.Shorten.{
  up_to_last_match, dns_safe_shorten_to_n_characters,
  compute_secure_unique_deterministic_name_from_data, hyphenated,
}

fits-le :
    (o : Ordering) (c : Char) (text : String) (b : ℕ)
    → compare (len_utf8 c) b ≡ o
    → len text ≤ b - len_utf8 c
    → len (fits o c text) ≤ b
fits-le Ordering.lt c text b e h = ground (arith, len.cons c text)
fits-le Ordering.eq c text b e h = ground (arith, len.cons c text)
fits-le Ordering.gt c text b e h = ground (arith, len.nil)

slice-le : (text : String) (b : ℕ) → len (slice text 0 b) ≤ b
slice-le [] b = rw (slice.nil 0 b) (ground (arith, len.nil))
slice-le (c ∷ text) b =
    rw (slice.cons-zero c text b)
      (fits-le (compare (len_utf8 c) b) c _ b refl (slice-le text (b - len_utf8 c)))

up_to_last_match-le : (text : String) (n : ℕ) → len (up_to_last_match text n) ≤ n
unfolding up_to_last_match
up_to_last_match-le text zero = ground (arith, len.nil)
up_to_last_match-le text (suc i) = ground (arith, slice-le text (suc i), up_to_last_match-le text i)

shorten-le : (text : String) (n : ℕ) → len (dns_safe_shorten_to_n_characters text n) ≤ n
unfolding dns_safe_shorten_to_n_characters
shorten-le text n = ground (arith, len.nil, up_to_last_match-le text n)

len-hyphenated : (a b : String) → len (hyphenated a b) ≡ len a + 1 + len b
len-hyphenated a b = ground (arith, len-append a ("-" ++ b), len-append "-" b)

compute_name-le :
    (sha256_hex : String → String) (full_name name : String) (max_name_length : ℕ)
    → len (sha256_hex full_name) ≡ 64
    → compute_secure_unique_deterministic_name_from_data sha256_hex full_name max_name_length
      ≡ some name
    → len name ≤ max_name_length
unfolding compute_secure_unique_deterministic_name_from_data
compute_name-le sha256_hex full_name name n h e = ground (
  arith,
  shorten-le full_name (n - 64 - 1),
  len-hyphenated (dns_safe_shorten_to_n_characters full_name (n - 64 - 1)) (sha256_hex full_name),
)

pub compute_name_exists :
    (sha256_hex : String → String) (full_name : String) (max_name_length : ℕ)
    → 64 ≤ max_name_length
    → compute_secure_unique_deterministic_name_from_data sha256_hex full_name max_name_length ≢ none
unfolding compute_secure_unique_deterministic_name_from_data
compute_name_exists sha256_hex full_name n m = ground arith

-- With a hash of 64 characters, ComputeSecureUniqueDeterministicNameFromData returns a name of at
-- most the given length for every name, provided that the length is at least 64.
pub compute_name-fits :
    (sha256_hex : String → String) (full_name : String) (max_name_length : ℕ)
    → len (sha256_hex full_name) ≡ 64
    → 64 ≤ max_name_length
    → (name : String) × (compute_secure_unique_deterministic_name_from_data sha256_hex full_name
          max_name_length
        ≡ some name)
      × (len name ≤ max_name_length)
compute_name-fits sha256_hex full_name n h m =
    elim (Option-cases
      (compute_secure_unique_deterministic_name_from_data sha256_hex full_name n)) [
        | inl e ↦ absurd (compute_name_exists sha256_hex full_name n m e)
        | inr (name, e) ↦ (name, e, compute_name-le sha256_hex full_name name n h e)
      ]
