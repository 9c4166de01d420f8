-- ===== src/Policies/Verdicts.antt =====
-- What the verdicts of Chain.Evaluate and of the chains mean
-- (internal/controller/certificates/policies).
use cert_manager.Common.{
  some, [], ◌∷◌, ◌++◌, ◌≡◌, ◌≢◌, refl, ap, inl, inr, arith, All, ◌⊎◌, Option-cases,
}
use cert_manager.Common.Int.{ℤ}
use cert_manager.Policies.Input.{Input, Secret, Verdict, passed, failed, panicked, Pki}
use cert_manager.Policies.Checks.{
  secret_does_not_exist, secret_is_missing_data, secret_public_keys_differ,
  secret_issuer_annotations_mismatch, secret_certificate_name_annotations_mismatch,
  secret_private_key_mismatches_spec, secret_public_key_differs_from_current_certificate_request,
  current_certificate_request_mismatches_spec, current_certificate_has_expired,
  public_key_differs_from_request, current_secret_valid_for_spec,
}
use cert_manager.Policies.Chains.{Chain, evaluate, new_readiness_policy_chain}

Verdict-cases : (v : Verdict) → (v ≡ passed) ⊎ (v ≢ passed)
Verdict-cases passed = inl refl
Verdict-cases (failed r f a) = inr (λ e. ground arith)
Verdict-cases panicked = inr (λ e. ground arith)

stops :
    (f : Input → Verdict) (c : Chain) (input : Input)
    → f input ≢ passed
    → evaluate (f ∷ c) input ≡ f input
unfolding evaluate
stops f c input ne = ground arith

-- Evaluate gives the verdict of the first policy function that does not pass, and passes if there is
-- none: either every function passes and so does the chain, or the chain is some functions that pass,
-- one whose verdict is another and is the chain's, and any others.
pub evaluate-first :
    (c : Chain) (input : Input)
    → (All (λ f. f input ≡ passed) c × (evaluate c input ≡ passed))
      ⊎ ((before : Chain) × (after : Chain) × (f : (Input → Verdict)) × (c ≡ before ++ f ∷ after)
          × All (λ g. g input ≡ passed) before
          × (f input ≢ passed)
          × (evaluate c input ≡ f input))
unfolding evaluate
evaluate-first [] input = inl (tt, refl)
evaluate-first (f ∷ c) input = elim (Verdict-cases (f input)) [
  | inl e ↦ elim (evaluate-first c input) [
    | inl (all, e') ↦ inl ((e, all), rw (e, evaluate) e')
    | inr (before, after, g, split, all, ne, e') ↦
        inr (f ∷ before, after, g, ap (λ t. f ∷ t) split, (e, all), ne, rw (e, evaluate) e')
  ]
  | inr ne ↦ inr ([], c, f, refl, tt, ne, stops f c input ne)
]

Safe : Input → (Input → Verdict) → Type 0
Safe input f = f input ≢ panicked

evaluate-Safe : (c : Chain) (input : Input) → All (Safe input) c → Safe input (evaluate c)
unfolding evaluate Safe
evaluate-Safe [] input h = ground arith
evaluate-Safe (f ∷ c) input h = ground (arith, evaluate-Safe c input h.1, h.0)

module _ (input : Input) (s : Secret) (h : input.secret ≡ some s) where
  does_not_exist-Safe : Safe input secret_does_not_exist
  unfolding secret_does_not_exist Safe
  does_not_exist-Safe = ground arith

  missing_data-Safe : Safe input secret_is_missing_data
  unfolding secret_is_missing_data Safe
  missing_data-Safe = ground arith

  issuer-Safe : Safe input secret_issuer_annotations_mismatch
  unfolding secret_issuer_annotations_mismatch Safe
  issuer-Safe = ground arith

  name-Safe : Safe input secret_certificate_name_annotations_mismatch
  unfolding secret_certificate_name_annotations_mismatch Safe
  name-Safe = ground arith

  module _ (pki : Pki) where
    keys-Safe : Safe input (secret_public_keys_differ pki)
    unfolding secret_public_keys_differ Safe
    keys-Safe = ground arith

    private_key-Safe : Safe input (secret_private_key_mismatches_spec pki)
    unfolding secret_private_key_mismatches_spec Safe
    private_key-Safe = ground arith

    request_key-Safe : Safe input (secret_public_key_differs_from_current_certificate_request pki)
    unfolding secret_public_key_differs_from_current_certificate_request
        public_key_differs_from_request Safe
    request_key-Safe = ground arith

    request-Safe : Safe input (current_certificate_request_mismatches_spec pki)
    unfolding current_certificate_request_mismatches_spec current_secret_valid_for_spec Safe
    request-Safe = ground arith

    expired-Safe : (now : ℤ) → Safe input (current_certificate_has_expired pki now)
    unfolding current_certificate_has_expired Safe
    expired-Safe now = ground arith

-- Whatever the input, the readiness policy chain ends with a verdict and never dereferences a nil
-- Secret.
pub new_readiness_policy_chain-Safe :
    (pki : Pki) (now : ℤ) (input : Input)
    → evaluate (new_readiness_policy_chain pki now) input ≢ panicked
unfolding Safe
new_readiness_policy_chain-Safe pki now input = elim (Option-cases input.secret) [
  | inl none_there ↦ unfold evaluate in unfold secret_does_not_exist in ground arith
  | inr (s, h) ↦ evaluate-Safe (new_readiness_policy_chain pki now) input (
    does_not_exist-Safe input s h,
    (
      missing_data-Safe input s h,
      (
        keys-Safe input s h pki,
        (
          issuer-Safe input s h,
          (
            name-Safe input s h,
            (
              private_key-Safe input s h pki,
              (
                request_key-Safe input s h pki,
                (request-Safe input s h pki, (expired-Safe input s h pki now, tt)),
              ),
            ),
          ),
        ),
      ),
    ),
  )
]
