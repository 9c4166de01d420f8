-- ===== src/Examples/Usages.antt =====
-- Runs of the functions on key usages, with a plain encoding in place of ASN.1.
use cert_manager.Common.{
  zero, suc, ◌≡◌, refl, sym, subst, ◌∙◌, ap, true, Option, none, some, List, [], ◌∷◌, ◌++◌, arith,
}
use mathlib.Core.List.{append-nil, append_assoc}
use cert_manager.Common.Bytes.{Bytes}
use cert_manager.Usages.Names.{
  key_usages_for_certificate_or_certificate_request, key_usage_strings, ext_key_usage_strings,
}
use cert_manager.Usages.Reading.{expected, key_usages-key_usage_strings}
use cert_manager.Usages.Encoding.{
  Asn1, BitString, Oid, bit_of, marshal_key_usage, unmarshal_key_usage, marshal_ext_key_usage,
  unmarshal_ext_key_usage, key_usage_bits, usage_oids, ext_key_usage_from_oid,
}
use cert_manager.Usages.Extension.{unmarshal-marshal_key_usage, unmarshal-marshal_ext_key_usage}

key_usages-key_usage_strings_example :
    key_usages_for_certificate_or_certificate_request
      (key_usage_strings 5 ++ ext_key_usage_strings (1 ∷ 4 ∷ []))
      true
    ≡ record { ku = expected true 5; eku = 1 ∷ 4 ∷ []; unk = [] }
key_usages-key_usage_strings_example =
    key_usages-key_usage_strings true 5 (1 ∷ 4 ∷ []) (omega arith) (omega arith)
      (omega arith, (omega arith, tt))

decode_bits : Bytes → Option (BitString × Bytes)
decode_bits [] = none
decode_bits (n ∷ bs) = some (record { bytes = bs; bit_length = n }, [])

-- The arcs of an identifier, each plus one, and a zero.
encode_oid : Oid → Bytes → Bytes
encode_oid [] rest = 0 ∷ rest
encode_oid (x ∷ xs) rest = suc x ∷ encode_oid xs rest

encode_oids : List Oid → Bytes
unfolding encode_oid
encode_oids [] = []
encode_oids (o ∷ os) = encode_oid o (encode_oids os)

decode_oids : Oid → Bytes → List Oid
decode_oids acc [] = []
decode_oids acc (zero ∷ bs) = acc ∷ decode_oids [] bs
decode_oids acc (suc x ∷ bs) = decode_oids (acc ++ x ∷ []) bs

decode-encode_oid :
    (acc o : Oid) (rest : Bytes)
    → decode_oids acc (encode_oid o rest) ≡ (acc ++ o) ∷ decode_oids [] rest
unfolding decode_oids encode_oid
decode-encode_oid acc [] rest = ap (λ (l : Oid). l ∷ decode_oids [] rest) (sym (append-nil acc))
decode-encode_oid acc (x ∷ xs) rest =
    decode-encode_oid (acc ++ x ∷ []) xs rest
    ∙ ap (λ (l : Oid). l ∷ decode_oids [] rest) (append_assoc acc (x ∷ []) xs)

decode-encode_oids : (os : List Oid) → decode_oids [] (encode_oids os) ≡ os
unfolding decode_oids encode_oids
decode-encode_oids [] = refl
decode-encode_oids (o ∷ os) =
    decode-encode_oid [] o (encode_oids os) ∙ ap (λ l. o ∷ l) (decode-encode_oids os)

some_eq : {a b : Bytes} → some a ≡ some b → a ≡ b
some_eq e = ground arith

abbrev plain : Asn1
plain = record {
  marshal_bits = λ b. some (b.bit_length ∷ b.bytes);
  unmarshal_bits = decode_bits;
  marshal_oids = λ os. some (encode_oids os);
  unmarshal_oids = λ v. some (decode_oids [] v, []);
  at = bit_of;
  bits_decode =
      λ b v t h. subst (λ w. decode_bits w ≡ some (b, [])) (some_eq h) (unfold decode_bits in refl);
  oids_decode = λ os v r h.
      ap (λ l. some (l, [])) (ap (decode_oids []) (sym (some_eq h)) ∙ decode-encode_oids os);
  at-bit_of = λ b i. refl;
}

key_usage_value : marshal_key_usage plain 0x105 ≡ some (9 ∷ 160 ∷ 128 ∷ [])
unfolding marshal_key_usage key_usage_bits
key_usage_value = refl

unmarshal-marshal_key_usage_example : unmarshal_key_usage plain (9 ∷ 160 ∷ 128 ∷ []) ≡ some 0x105
unmarshal-marshal_key_usage_example =
    unmarshal-marshal_key_usage plain 0x105 (9 ∷ 160 ∷ 128 ∷ []) (omega arith) (omega arith)
      key_usage_value

abbrev ext_value : Bytes
ext_value = 2 ∷ 4 ∷ 7 ∷ 2 ∷ 6 ∷ 6 ∷ 8 ∷ 4 ∷ 2 ∷ 0 ∷ 2 ∷ 3 ∷ 0 ∷ []

ext_marshals : marshal_ext_key_usage plain (1 ∷ []) ((1 ∷ 2 ∷ []) ∷ []) ≡ some ext_value
unfolding marshal_ext_key_usage usage_oids encode_oids
ext_marshals = refl

unmarshal-marshal_ext_key_usage_example :
    unmarshal_ext_key_usage plain ext_value ≡ some (1 ∷ [], (1 ∷ 2 ∷ []) ∷ [])
unfolding ext_key_usage_from_oid
unmarshal-marshal_ext_key_usage_example =
    unmarshal-marshal_ext_key_usage plain (1 ∷ []) ((1 ∷ 2 ∷ []) ∷ []) ext_value (omega arith, tt)
      (refl, tt) ((omega arith, (omega arith, tt)), tt) ext_marshals
