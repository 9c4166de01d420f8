-- ===== src/KeyManager/Holding.antt =====
-- Secrets that hold a private key as the spec wants it, described without the functions of
-- pkg/controller/certificates/keymanager.
use cert_manager.Common.{
  ℕ, String, Bool, true, false, Option, none, some, List, [], ◌∷◌, ◌≡◌, refl, ◌∙◌, ap, ◌⊎◌, inl,
  inr, arith, if◌then◌else◌,
}
use cert_manager.Common.Bytes.{Bytes}
use cert_manager.KeyManager.Process.{is_usable, key_data_of, rotation_policy_of}
use cert_manager.Policies.Checks.{is_empty, entry}
use cert_manager.Policies.Input.{Certificate, Pki, Secret}

-- The entry of the key is not empty, decodes, and the key is as the spec wants it.
pub record HoldsKey (pki : Pki) (spec : Certificate) (s : Secret) : Type 0 where
  pub byte : ℕ
  pub rest : Bytes
  pub data_eq : entry s "tls.key" ≡ byte ∷ rest
  pub key : pki.PrivateKey
  pub decoded : pki.decode_private_key_bytes (byte ∷ rest) ≡ inr key
  pub fits : pki.private_key_matches_spec key spec ≡ []

-- No policy is set, or the policy Always.
abbrev pub IsAlways : Option String → Type 0
IsAlways policy = (policy ≡ none) ⊎ ((policy ≡ some "") ⊎ (policy ≡ some "Always"))

pub rotation_policy_of-IsAlways : (o : Option String) → IsAlways o → rotation_policy_of o ≡ "Always"
unfolding rotation_policy_of
rotation_policy_of-IsAlways o (inl e) = rw (e, rotation_policy_of) refl
rotation_policy_of-IsAlways o (inr (inl e)) = rw (e, rotation_policy_of) refl
rotation_policy_of-IsAlways o (inr (inr e)) = rw (e, rotation_policy_of) refl

module _ (pki : Pki) (spec : Certificate) where
  nil_of : (l : List String) → is_empty l ≡ true → l ≡ []
  nil_of [] h = refl
  nil_of (x ∷ l) h = absurd (ground arith)

  holds_of :
      (s : Secret) (byte : ℕ) (rest : Bytes) (o : String ⊎ pki.PrivateKey)
      → entry s "tls.key" ≡ byte ∷ rest
      → pki.decode_private_key_bytes (byte ∷ rest) ≡ o
      → (elim o as (λ x. Bool) [
        | inl err ↦ false
        | inr pk ↦ is_empty (pki.private_key_matches_spec pk spec)
      ])
        ≡ true
      → HoldsKey pki spec s
  holds_of s byte rest (inl err) e d h = absurd (ground arith)
  holds_of s byte rest (inr key) e d h = record {
    byte = byte;
    rest = rest;
    data_eq = e;
    key = key;
    decoded = d;
    fits = nil_of (pki.private_key_matches_spec key spec) h;
  }

  data_cases :
      (s : Secret) (bytes : Bytes)
      → entry s "tls.key" ≡ bytes
      → (if is_empty bytes
          then false
          else elim (pki.decode_private_key_bytes bytes) as (λ x. Bool) [
            | inl err ↦ false
            | inr pk ↦ is_empty (pki.private_key_matches_spec pk spec)
          ])
        ≡ true
      → HoldsKey pki spec s
  data_cases s [] e h = absurd (ground arith)
  data_cases s (byte ∷ rest) e h =
      holds_of s byte rest (pki.decode_private_key_bytes (byte ∷ rest)) e refl h

  pub is_usable-HoldsKey : (s : Secret) → is_usable pki spec s ≡ true → HoldsKey pki spec s
  unfolding is_usable
  is_usable-HoldsKey s h = data_cases s (key_data_of s) refl h

  pub HoldsKey-is_usable : (s : Secret) → HoldsKey pki spec s → is_usable pki spec s ≡ true
  unfolding is_usable
  HoldsKey-is_usable s k = rw (k.data_eq, is_usable) (rw k.decoded (rw k.fits refl))

  pub HoldsKey-not_empty : (s : Secret) → HoldsKey pki spec s → is_empty (key_data_of s) ≡ false
  HoldsKey-not_empty s k = rw k.data_eq refl

  pub HoldsKey-decodes :
      (s : Secret) (k : HoldsKey pki spec s)
      → pki.decode_private_key_bytes (key_data_of s) ≡ inr k.key
  HoldsKey-decodes s k = ap pki.decode_private_key_bytes k.data_eq ∙ k.decoded
