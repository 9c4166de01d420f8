-- ===== src/Naming/Shorten.antt =====
-- The functions of pkg/api/util/names.go that shorten a name. The hash of crypto/sha256, formatted with
-- `%08x`, is a parameter. A length is a number of bytes. ComputeName is left out.
use cert_manager.Common.{
  ℕ, zero, suc, ◌-◌, String, Bool, false, Option, none, some, ◌&&◌, ◌||◌, ltb, leb, if◌then◌else◌,
}
use Prim.Native.Char.{Char, code}
use Prim.Native.String.{◌++◌, len, slice}
use text.Mathlib.Text.{char_at?}

abbrev pub hyphenated : String → String → String
hyphenated a b = a ++ "-" ++ b

-- `[a-zA-Z\d]`
abbrev pub alpha_numeric : Char → Bool
alpha_numeric c =
    (leb 97 (code c) && leb (code c) 122)
    || ((leb 65 (code c) && leb (code c) 90) || (leb 48 (code c) && leb (code c) 57))

abbrev pub alpha_numeric_at : String → ℕ → Bool
alpha_numeric_at text i = elim (char_at? text i) [ none ↦ false | some c ↦ alpha_numeric c ]

-- The text up to the end of the last match before `n`.
unfoldable pub up_to_last_match : String → (n : ℕ) → String
up_to_last_match text zero = ""
up_to_last_match text (suc i) =
    let rest = up_to_last_match text i in
    if alpha_numeric_at text i then slice text 0 (suc i) else rest

-- A `max_length` below 0 acts as 0.
unfoldable pub dns_safe_shorten_to_n_characters : String → (max_length : ℕ) → String
unfolding up_to_last_match
dns_safe_shorten_to_n_characters text max_length =
    if ltb (len text) max_length
    then text
    else if leb max_length 0
    then ""
    else up_to_last_match text max_length

unfoldable pub dns_safe_shorten_to_52_characters : String → String
unfolding dns_safe_shorten_to_n_characters
dns_safe_shorten_to_52_characters text = dns_safe_shorten_to_n_characters text 52

-- `none` is an error. A write to a hash returns none.
unfoldable pub compute_secure_unique_deterministic_name_from_data :
    (sha256_hex : String → String) → (full_name : String) → (max_name_length : ℕ) → Option String
unfolding dns_safe_shorten_to_n_characters
compute_secure_unique_deterministic_name_from_data sha256_hex full_name max_name_length =
    if ltb max_name_length 64
    then none
    else if leb (len full_name) max_name_length
    then some full_name
    else let prefix = dns_safe_shorten_to_n_characters full_name (max_name_length - 64 - 1) in
      if leb (len prefix) 0
      then some (sha256_hex full_name)
      else some (hyphenated prefix (sha256_hex full_name))
