-- ===== src/Usages/Encoding.antt =====
-- MarshalKeyUsage, UnmarshalKeyUsage and their forms for extended usages in pkg/util/pki/keyusage.go. The
-- package encoding/asn1 is a parameter: Marshal and Unmarshal of a bit string and of a list of object
-- identifiers, and `At`.
use cert_manager.Common.{
  ℕ, zero, suc, ◌+◌, ◌-◌, ◌*◌, ◌/◌, ◌%◌, ◌^◌, ◌≤◌, ◌<◌, Bool, true, false, Option, none, some, List,
  [], ◌∷◌, ◌++◌, eqb, ltb, if◌then◌else◌, ◌≡◌, ◌&&◌, length, get_elem?, All,
}
use Prim.Native.Nat.{bit_and, bit_or}
use cert_manager.Common.Bytes.{Bytes}

-- asn1.BitString
pub record BitString : Type 0 where
  pub bytes : Bytes
  pub bit_length : ℕ

abbrev pub Oid : Type 0
Oid = List ℕ

abbrev pub byte_at : Bytes → ℕ → ℕ
byte_at bs i = elim (get_elem? bs i) [ none ↦ 0 | some b ↦ b ]

-- The bit of a bit string at an index, the most significant bit of a byte first.
abbrev pub bit_of : BitString → ℕ → ℕ
bit_of b i = if ltb i b.bit_length then byte_at b.bytes (i / 8) / 2 ^ (7 - i % 8) % 2 else 0

-- The bits of the last byte from its bit `bit_length % 8` on, of a byte that is not full, are zero.
abbrev pub IsPadded : (last bit_length : ℕ) → Type 0
IsPadded last bit_length = last % 2 ^ ((8 - bit_length % 8) % 8) ≡ 0

-- What Unmarshal of encoding/asn1 accepts of a bit string: the last byte is in use, and its padding is zero.
abbrev pub IsTight : BitString → Type 0
IsTight b =
    (b.bit_length ≤ 8 * length b.bytes)
    × (8 * length b.bytes < b.bit_length + 8)
    × IsPadded (byte_at b.bytes (length b.bytes - 1)) b.bit_length

-- An identifier whose arcs Unmarshal reads: it rejects numbers of 2^31 and more, and the number that stands for
-- the first two arcs is at most 80 above the second.
abbrev pub IsReadable : Oid → Type 0
IsReadable oid = All (λ arc. arc + 80 < 2 ^ 31) oid

-- What the source relies on of encoding/asn1: what Marshal has encoded, Unmarshal decodes, with no
-- data left, for bit strings with zero padding and identifiers with arcs below 2^31 - 80, and `At` reads a bit of a bit string, or 0 out of range.
pub record Asn1 : Type 0 where
  pub marshal_bits : BitString → Option Bytes
  pub unmarshal_bits : Bytes → Option (BitString × Bytes)
  pub marshal_oids : List Oid → Option Bytes
  pub unmarshal_oids : Bytes → Option (List Oid × Bytes)
  pub at : BitString → ℕ → ℕ
  pub bits_decode :
      (b : BitString) (v : Bytes)
      → IsTight b
      → marshal_bits b ≡ some v
      → unmarshal_bits v ≡ some (b, [])
  pub oids_decode :
      (os : List Oid) (v : Bytes)
      → All IsReadable os
      → marshal_oids os ≡ some v
      → unmarshal_oids v ≡ some (os, [])
  pub at-bit_of : (b : BitString) (i : ℕ) → at b i ≡ bit_of b i

-- `in>>4 | in<<4` and the like on bytes.
unfoldable pub reverse_bits_in_a_byte : ℕ → ℕ
reverse_bits_in_a_byte byte =
    let b1 = bit_or (byte / 16) (byte * 16 % 256) in
    let b2 = bit_or (bit_and (b1 / 4) 0x33) (bit_and (b1 * 4 % 256) 0xcc) in
    bit_or (bit_and (b2 / 2) 0x55) (bit_and (b2 * 2 % 256) 0xaa)

-- The inner loop of asn1BitLength from a bit on, by the rounds that are left: the length at which it
-- returns, if it does.
unfoldable pub used_bits : (rounds bit : ℕ) → (byte bit_len : ℕ) → Option ℕ
used_bits zero bit byte bit_len = none
used_bits (suc rounds) bit byte bit_len =
    if eqb (byte / 2 ^ bit % 2) 1
    then some bit_len
    else used_bits rounds (suc bit) byte (bit_len - 1)

-- The outer loop, over the bytes from the last on.
unfoldable pub bit_length_from : (reversed : Bytes) → ℕ → ℕ
unfolding used_bits
bit_length_from [] bit_len = 0
bit_length_from (b ∷ bs) bit_len =
    let rest = bit_length_from bs (bit_len - 8) in
    elim (used_bits 8 0 b bit_len) [ none ↦ rest | some n ↦ n ]

abbrev pub reversed : Bytes → Bytes → Bytes
reversed [] acc = acc
reversed (b ∷ bs) acc = reversed bs (b ∷ acc)

unfoldable pub asn1_bit_length : Bytes → ℕ
unfolding bit_length_from
asn1_bit_length bit_string = bit_length_from (reversed bit_string []) (length bit_string * 8)

-- The bit string of MarshalKeyUsage.
unfoldable pub key_usage_bits : ℕ → BitString
unfolding reverse_bits_in_a_byte asn1_bit_length
key_usage_bits usage =
    let a0 = reverse_bits_in_a_byte (bit_and usage 0xff) in
    let a1 = reverse_bits_in_a_byte (bit_and (usage / 256) 0xff) in
    let bytes = if eqb a1 0 then a0 ∷ [] else a0 ∷ a1 ∷ [] in
    record { bytes = bytes; bit_length = asn1_bit_length bytes }

-- The loop of UnmarshalKeyUsage from bit `i` on.
unfoldable pub collect_bits : (at : ℕ → ℕ) → (rounds i : ℕ) → ℕ → ℕ
collect_bits at zero i usage = usage
collect_bits at (suc rounds) i usage =
    collect_bits at rounds (suc i) (if eqb (at i) 0 then usage else bit_or usage (2 ^ i))

-- The object identifiers of extKeyUsageOIDs, by the number of the usage.
abbrev pub pkix_usage : ℕ → Oid
pkix_usage n = 1 ∷ 3 ∷ 6 ∷ 1 ∷ 5 ∷ 5 ∷ 7 ∷ 3 ∷ n ∷ []

abbrev pub ext_key_usage_oids : List (ℕ × Oid)
ext_key_usage_oids =
    (0, 2 ∷ 5 ∷ 29 ∷ 37 ∷ 0 ∷ [])
    ∷ (1, pkix_usage 1)
    ∷ (2, pkix_usage 2)
    ∷ (3, pkix_usage 3)
    ∷ (4, pkix_usage 4)
    ∷ (5, pkix_usage 5)
    ∷ (6, pkix_usage 6)
    ∷ (7, pkix_usage 7)
    ∷ (8, pkix_usage 8)
    ∷ (9, pkix_usage 9)
    ∷ (10, 1 ∷ 3 ∷ 6 ∷ 1 ∷ 4 ∷ 1 ∷ 311 ∷ 10 ∷ 3 ∷ 3 ∷ [])
    ∷ (11, 2 ∷ 16 ∷ 840 ∷ 1 ∷ 113730 ∷ 4 ∷ 1 ∷ [])
    ∷ (12, 1 ∷ 3 ∷ 6 ∷ 1 ∷ 4 ∷ 1 ∷ 311 ∷ 2 ∷ 1 ∷ 22 ∷ [])
    ∷ (13, 1 ∷ 3 ∷ 6 ∷ 1 ∷ 4 ∷ 1 ∷ 311 ∷ 61 ∷ 1 ∷ 1 ∷ [])
    ∷ []

-- `oid.Equal`
unfoldable pub oid_equal : Oid → Oid → Bool
oid_equal [] [] = true
oid_equal [] (y ∷ ys) = false
oid_equal (x ∷ xs) [] = false
oid_equal (x ∷ xs) (y ∷ ys) = eqb x y && oid_equal xs ys

unfoldable pub oid_of : List (ℕ × Oid) → ℕ → Option Oid
oid_of [] eku = none
oid_of ((k, oid) ∷ pairs) eku = if eqb eku k then some oid else oid_of pairs eku

unfoldable pub usage_of : List (ℕ × Oid) → Oid → Option ℕ
unfolding oid_equal
usage_of [] oid = none
usage_of ((k, o) ∷ pairs) oid = if oid_equal oid o then some k else usage_of pairs oid

unfoldable pub oid_from_ext_key_usage : ℕ → Option Oid
unfolding oid_of
oid_from_ext_key_usage eku = oid_of ext_key_usage_oids eku

unfoldable pub ext_key_usage_from_oid : Oid → Option ℕ
unfolding usage_of
ext_key_usage_from_oid oid = usage_of ext_key_usage_oids oid

-- The loop of MarshalExtKeyUsage; `none` is an unknown usage.
unfoldable pub usage_oids : List ℕ → Option (List Oid)
unfolding oid_from_ext_key_usage
usage_oids [] = some []
usage_oids (u ∷ us) = elim (oid_from_ext_key_usage u) [
  | none ↦ none
  | some oid ↦ elim (usage_oids us) [ none ↦ none | some oids ↦ some (oid ∷ oids) ]
]

-- The loop of UnmarshalExtKeyUsage.
unfoldable pub sort_oids : List Oid → List ℕ × List Oid
unfolding ext_key_usage_from_oid
sort_oids [] = ([], [])
sort_oids (o ∷ os) =
    let (usages, unknown) = sort_oids os in
    elim (ext_key_usage_from_oid o) [
      | some eku ↦ (eku ∷ usages, unknown)
      | none ↦ (usages, o ∷ unknown)
    ]

module _ (asn1 : Asn1) where
  unfoldable pub marshal_key_usage : ℕ → Option Bytes
  unfolding key_usage_bits
  marshal_key_usage usage = asn1.marshal_bits (key_usage_bits usage)

  unfoldable pub unmarshal_key_usage : Bytes → Option ℕ
  unfolding collect_bits
  unmarshal_key_usage value = elim (asn1.unmarshal_bits value) [
    | none ↦ none
    | some (bits, []) ↦ some (collect_bits (asn1.at bits) 9 0 0)
    | some (bits, x ∷ rest) ↦ none
  ]

  unfoldable pub marshal_ext_key_usage : List ℕ → List Oid → Option Bytes
  unfolding usage_oids
  marshal_ext_key_usage usages unknown = elim (usage_oids usages) [
    | none ↦ none
    | some oids ↦ asn1.marshal_oids (oids ++ unknown)
  ]

  unfoldable pub unmarshal_ext_key_usage : Bytes → Option (List ℕ × List Oid)
  unfolding sort_oids
  unmarshal_ext_key_usage value = elim (asn1.unmarshal_oids value) [
    | none ↦ none
    | some (oids, []) ↦ some (sort_oids oids)
    | some (oids, x ∷ rest) ↦ none
  ]
