-- ===== src/Common/Branches.antt =====
-- A property that fails in the branches that give up has to come from the branch that goes on.
use mathlib.Core.Path.{◌≡◌, refl}
use mathlib.Core.Logic.{◌⊎◌, inl, inr}
use mathlib.Core.Bool.{Bool, true, false}
use mathlib.Core.Option.{Option, none, some}
use cert_manager.Common.Tests.{if◌then◌else◌}

module _ {E : Type 0} (Q : E → Type 0) where
  pub past_guard :
      (b : Bool) (stop go : E) → ¬ Q stop → Q (if b then stop else go) → (b ≡ false) × Q go
  past_guard true stop go n q = absurd (n q)
  past_guard false stop go n q = (refl, q)

  pub past_test :
      (b : Bool) (stop go : E) → ¬ Q stop → Q (if b then go else stop) → (b ≡ true) × Q go
  past_test true stop go n q = (refl, q)
  past_test false stop go n q = absurd (n q)

  module _ {A : Type 0} where
    pub past_option :
        (o : Option A) (stop : E) (go : A → E)
        → ¬ Q stop
        → Q (elim o as (λ x. E) [ none ↦ stop | some a ↦ go a ])
        → (a : A) × (o ≡ some a) × Q (go a)
    past_option none stop go n q = absurd (n q)
    past_option (some a) stop go n q = (a, refl, q)

    pub past_sum :
        {B : Type 0} (o : B ⊎ A) (stop : B → E) (go : A → E)
        → ((b : B) → ¬ Q (stop b))
        → Q (elim o as (λ x. E) [ inl b ↦ stop b | inr a ↦ go a ])
        → (a : A) × (o ≡ inr a) × Q (go a)
    past_sum (inl b) stop go n q = absurd (n b q)
    past_sum (inr a) stop go n q = (a, refl, q)
