-- ===== src/Usages/Extension.antt =====
-- The key usage extensions of pkg/util/pki/keyusage.go are read back.
use cert_manager.Common.{
  ℕ, ◌+◌, ◌-◌, ◌*◌, ◌%◌, ◌^◌, ◌<◌, Bool, true, false, none, some, List, [], ◌∷◌, ◌++◌, eqb, ltb,
  leb, ◌≡◌, refl, ap, arith, All, ◌&&◌, ◌||◌, Option-cases, inl, inr, length,
}
use mathlib.Core.Path.{fun_ext}
use cert_manager.Common.Below.{holds_below, holds_below_lem}
use cert_manager.Common.Bytes.{Bytes}
use cert_manager.Usages.Encoding.{
  Oid, byte_at, bit_of, IsTight, IsReadable, Asn1, key_usage_bits, collect_bits, marshal_key_usage,
  unmarshal_key_usage, usage_oids, sort_oids, marshal_ext_key_usage, unmarshal_ext_key_usage,
  oid_from_ext_key_usage, ext_key_usage_from_oid,
}

-- Whether the bit string of `u` ends in its last byte with zero padding, and has the bits of `u`.
encodes : ℕ → Bool
encodes u =
    let b = key_usage_bits u in
    (eqb u 0
      || (leb b.bit_length (8 * length b.bytes)
          && ltb (8 * length b.bytes) (b.bit_length + 8)
          && eqb (byte_at b.bytes (length b.bytes - 1) % 2 ^ ((8 - b.bit_length % 8) % 8)) 0))
    && eqb (collect_bits (bit_of b) 9 0 0) u

encodes_table : holds_below encodes 512 ≡ true
unfolding holds_below encodes key_usage_bits collect_bits
encodes_table = refl

encodes_lem :
    (u : ℕ)
    → 0 < u
    → encodes u ≡ true
    → IsTight (key_usage_bits u) × (collect_bits (bit_of (key_usage_bits u)) 9 0 0 ≡ u)
unfolding encodes
encodes_lem u pos e = ground arith

-- A set of key usages that is not empty, once MarshalKeyUsage has encoded it, is what
-- UnmarshalKeyUsage reads.
pub unmarshal-marshal_key_usage :
    (asn1 : Asn1) (u : ℕ) (v : Bytes)
    → 0 < u
    → u < 512
    → marshal_key_usage asn1 u ≡ some v
    → unmarshal_key_usage asn1 v ≡ some u
unfolding marshal_key_usage unmarshal_key_usage
unmarshal-marshal_key_usage asn1 u v pos lt h =
    let (tight, same) = encodes_lem u pos (holds_below_lem encodes 512 u lt encodes_table) in
    let reads_bits : asn1.at (key_usage_bits u) ≡ bit_of (key_usage_bits u) =
      fun_ext (asn1.at-bit_of (key_usage_bits u)) in
    rw (asn1.bits_decode (key_usage_bits u) v tight h, unmarshal_key_usage)
      (rw reads_bits (ap some same))

-- The object identifiers of the extended usages.
is_readable : Oid → Bool
is_readable [] = true
is_readable (arc ∷ arcs) = ltb (arc + 80) (2 ^ 31) && is_readable arcs

is_readable-IsReadable : (oid : Oid) → is_readable oid ≡ true → IsReadable oid
unfolding is_readable
is_readable-IsReadable [] h = tt
is_readable-IsReadable (arc ∷ arcs) h = (ground arith, is_readable-IsReadable arcs (ground arith))

has_oid : ℕ → Bool
has_oid e = elim (oid_from_ext_key_usage e) [
  | none ↦ false
  | some oid ↦ elim (ext_key_usage_from_oid oid) [
    | none ↦ false
    | some k ↦ eqb k e && is_readable oid
  ]
]

oid_table : holds_below has_oid 14 ≡ true
unfolding holds_below has_oid is_readable oid_from_ext_key_usage ext_key_usage_from_oid
oid_table = refl

has_oid_lem :
    (e : ℕ)
    → has_oid e ≡ true
    → (oid : Oid) × (oid_from_ext_key_usage e ≡ some oid)
      × (ext_key_usage_from_oid oid ≡ some e)
      × IsReadable oid
unfolding has_oid
has_oid_lem e h = elim (Option-cases (oid_from_ext_key_usage e)) [
  | inl missing ↦ absurd (ground arith)
  | inr (oid, is) ↦ elim (Option-cases (ext_key_usage_from_oid oid)) [
    | inl missing ↦ absurd (ground arith)
    | inr (k, back) ↦ (oid, is, ground arith, is_readable-IsReadable oid (ground arith))
  ]
]

-- Identifiers that stand for no usage are set aside in order.
sort-unknown :
    (os : List Oid) → All (λ o. ext_key_usage_from_oid o ≡ none) os → sort_oids os ≡ ([], os)
unfolding sort_oids
sort-unknown [] h = refl
sort-unknown (o ∷ os) h = rw (h.0, sort_oids) (rw (sort-unknown os h.1))

usage_oids_lem :
    (es : List ℕ) (unknown : List Oid)
    → All (λ e. e < 14) es
    → All (λ o. ext_key_usage_from_oid o ≡ none) unknown
    → All IsReadable unknown
    → (oids : List Oid) × (usage_oids es ≡ some oids)
      × (sort_oids (oids ++ unknown) ≡ (es, unknown))
      × All IsReadable (oids ++ unknown)
unfolding usage_oids sort_oids
usage_oids_lem [] unknown h k r = ([], refl, sort-unknown unknown k, r)
usage_oids_lem (e ∷ es) unknown h k r =
    let (oid, is, back, arcs) = has_oid_lem e (holds_below_lem has_oid 14 e h.0 oid_table) in
    let (oids, are, sorted, readable) = usage_oids_lem es unknown h.1 k r in
    (oid ∷ oids, rw (is, are, usage_oids), rw (back, sort_oids) (rw sorted), (arcs, readable))

-- Extended usages that crypto/x509 knows and object identifiers that stand for none of these and whose arcs
-- are below 2^31 - 80, once MarshalExtKeyUsage has encoded them, are what UnmarshalExtKeyUsage reads, each in its order.
pub unmarshal-marshal_ext_key_usage :
    (asn1 : Asn1) (es : List ℕ) (unknown : List Oid) (v : Bytes)
    → All (λ e. e < 14) es
    → All (λ o. ext_key_usage_from_oid o ≡ none) unknown
    → All IsReadable unknown
    → marshal_ext_key_usage asn1 es unknown ≡ some v
    → unmarshal_ext_key_usage asn1 v ≡ some (es, unknown)
unfolding marshal_ext_key_usage unmarshal_ext_key_usage
unmarshal-marshal_ext_key_usage asn1 es unknown v known new read h =
    let (oids, are, sorted, readable) = usage_oids_lem es unknown known new read in
    let h' : asn1.marshal_oids (oids ++ unknown) ≡ some v = ground arith in
    rw (asn1.oids_decode (oids ++ unknown) v readable h', unmarshal_ext_key_usage) (ap some sorted)
