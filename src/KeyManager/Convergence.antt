-- ===== src/KeyManager/Convergence.antt =====
-- Where repeated runs of pkg/controller/certificates/keymanager lead.
use cert_manager.Common.{
  ℕ, zero, suc, String, Bool, true, false, Option, none, some, List, [], ◌∷◌, ◌≡◌, refl, sym, subst,
  ◌∙◌, ap, arith, inl, inr, ◌⊎◌, select,
}
use cert_manager.Conditions.Operations.{certificate_has_condition}
use cert_manager.Policies.Input.{Pki}
use cert_manager.KeyManager.Process.{
  NextSecret, KeyCertificate, Keys, Effects, contains, or_empty, process_item, clean_up,
  set_next_private_key_secret_name, delete_secret_resources,
}
use cert_manager.KeyManager.Cluster.{State, run, apply, answers_of, certificate_of, written}
use cert_manager.KeyManager.Deletions.{IsDistinct, one_left, remaining-skip, delete-asked}
use cert_manager.KeyManager.Holding.{HoldsKey-is_usable}
use cert_manager.KeyManager.Rounds.{
  IsIssuing, IsSettled, run_empty, run_checks, run_adopts, run_keeps, run_prunes,
}
use cert_manager.Policies.Input.{Secret}
use cert_manager.Revisions.Collector.{Fetch}
use cert_manager.Trigger.Process.{issuing_true}

with_parts :
    (P : State → Type 0) (st : State) (n : Option String) (l : List NextSecret)
    → st.next_name ≡ n
    → st.secrets ≡ l
    → P (record { next_name = n; secrets = l })
    → P st
with_parts P st n l e f p =
    subst P
      (ap (λ m. record { next_name = m; secrets = l }) (sym e)
        ∙ ap (λ k. record { next_name = st.next_name; secrets = k }) (sym f))
      p

module _ (fresh : List NextSecret → String) (pki : Pki) (keys : Keys pki) (base : KeyCertificate)
    (target : Fetch Secret) where
  -- A number of runs, one after the other.
  abbrev pub runs : ℕ → State → State
  runs zero st = st
  runs (suc k) st = runs k (run fresh pki keys base target st)

  module _ (h : IsIssuing fresh pki keys base target) where
    run_at_rest :
        (st : State)
        → IsSettled fresh pki keys base target st
        → run fresh pki keys base target st ≡ st
    run_at_rest st v =
        with_parts (λ x. run fresh pki keys base target x ≡ x) st _ _ v.named v.only
          (run_keeps fresh pki keys base target h v.the_secret
            (HoldsKey-is_usable pki base.spec v.the_secret.secret v.usable))

    runs_keep-IsSettled :
        (k : ℕ) (st : State)
        → IsSettled fresh pki keys base target st
        → IsSettled fresh pki keys base target (runs k st)
    runs_keep-IsSettled zero st v = v
    runs_keep-IsSettled (suc k) st v =
        runs_keep-IsSettled k (run fresh pki keys base target st)
          (subst (IsSettled fresh pki keys base target) (sym (run_at_rest st v)) v)

    after_empty :
        (k : ℕ) (st : State)
        → st.secrets ≡ []
        → IsSettled fresh pki keys base target (runs (suc k) st)
    after_empty k st e = runs_keep-IsSettled k (run fresh pki keys base target st) (
        with_parts (λ x. IsSettled fresh pki keys base target (run fresh pki keys base target x)) st
          st.next_name [] refl e (run_empty fresh pki keys base target h st.next_name))

    after_one_named :
        (s : NextSecret) (n : String)
        → IsSettled fresh pki keys base target
            (runs 2 (record { next_name = some n; secrets = s ∷ [] }))
    after_one_named s n = elim (run_checks fresh pki keys base target h s n) [
      | inl v ↦
          runs_keep-IsSettled 1
            (run fresh pki keys base target (record { next_name = some n; secrets = s ∷ [] })) v
      | inr e ↦
          after_empty 0
            (run fresh pki keys base target (record { next_name = some n; secrets = s ∷ [] })) e
    ]

    after_one :
        (n : Option String) (s : NextSecret)
        → IsSettled fresh pki keys base target (runs 3 (record { next_name = n; secrets = s ∷ [] }))
    after_one none s =
        subst (λ x. IsSettled fresh pki keys base target (runs 2 x))
          (sym (run_adopts fresh pki keys base target h s)) (after_one_named s s.name)
    after_one (some n) s =
        subst (IsSettled fresh pki keys base target)
          (sym (
            run_at_rest (runs 2 (record { next_name = some n; secrets = s ∷ [] }))
              (after_one_named s n)))
          (after_one_named s n)

    -- What follows a run that left nothing, or one Secret.
    after_pruning :
        (st : State) (l : List NextSecret)
        → st.secrets ≡ l
        → (l ≡ []) ⊎ ((s : NextSecret) × (l ≡ s ∷ []))
        → IsSettled fresh pki keys base target (runs 3 st)
    after_pruning st l e (inl f) = after_empty 2 st (e ∙ f)
    after_pruning st l e (inr (s, f)) =
        with_parts (λ x. IsSettled fresh pki keys base target (runs 3 x)) st st.next_name (s ∷ [])
          refl (e ∙ f) (after_one st.next_name s)

    after_runs :
        (n : Option String) (l : List NextSecret)
        → IsDistinct l
        → IsSettled fresh pki keys base target (runs 4 (record { next_name = n; secrets = l }))
    after_runs n [] d = after_empty 3 (record { next_name = n; secrets = [] }) refl
    after_runs n (s ∷ []) d =
        subst (IsSettled fresh pki keys base target)
          (sym (run_at_rest (runs 3 (record { next_name = n; secrets = s ∷ [] })) (after_one n s)))
          (after_one n s)
    after_runs n (s ∷ t ∷ rest) d =
        after_pruning
          (run fresh pki keys base target (record { next_name = n; secrets = s ∷ t ∷ rest })) _
          (run_prunes fresh pki keys base target h s t rest n)
          (elim (one_left (or_empty n) (s ∷ t ∷ rest) d) [
            | inl e ↦ inl e
            | inr (x, e, same) ↦ inr (x, e)
          ])

    -- For a Certificate that is being issued, is not being deleted and has the rotation policy Always, if a key can
    -- be generated for its spec, encoded, and read back as the spec wants it, and on a cluster that does what it is
    -- asked and whose listers are up to date: from any state in which the Secrets have different names, four runs
    -- of ProcessItem lead to a state with one Secret, named by the status, that holds a key as the spec wants it,
    -- and a further run leaves that state alone.
    pub runs-IsSettled :
        (st : State)
        → IsDistinct st.secrets
        → IsSettled fresh pki keys base target (runs 4 st)
          × (run fresh pki keys base target (runs 4 st) ≡ runs 4 st)
    runs-IsSettled st d =
        let v = after_runs st.next_name st.secrets d in (v, run_at_rest (runs 4 st) v)

  abbrev cleaning : State → Effects
  cleaning st = clean_up pki keys (answers_of fresh st) (certificate_of base st) st.secrets

  run-cleaning :
      (st : State)
      → base.deleting ≡ false
      → certificate_has_condition (some base.conditions) issuing_true ≡ false
      → run fresh pki keys base target st ≡ apply fresh (cleaning st) st
  unfolding run process_item
  run-cleaning st d i = rw d (rw i refl)

  cleaning-asked :
      (st : State) → (cleaning st).asked ≡ (delete_secret_resources (λ n. true) st.secrets []).0
  unfolding clean_up answers_of set_next_private_key_secret_name
  cleaning-asked st = ground arith

  cleaning-created : (st : State) → (cleaning st).created ≡ none
  unfolding clean_up set_next_private_key_secret_name
  cleaning-created st = ground arith

  cleaning-status : (st : State) → written (cleaning st).status st.next_name ≡ none
  unfolding clean_up answers_of set_next_private_key_secret_name
  cleaning-status st =
      ground (arith, ap (λ (x : List String × Bool). x.1) (delete-asked st.secrets []))

  nothing_left : (l : List NextSecret) → select (λ s. contains [] s.name) l ≡ []
  nothing_left [] = refl
  nothing_left (s ∷ rest) = nothing_left rest

  cleans : (st : State) → apply fresh (cleaning st) st ≡ record { next_name = none; secrets = [] }
  unfolding apply
  cleans st =
      with_parts (λ x. x ≡ record { next_name = none; secrets = [] }) (apply fresh (cleaning st) st)
        none [] (cleaning-status st)
        (rw (cleaning-created st)
          (rw (cleaning-asked st) (remaining-skip st.secrets [] ∙ nothing_left st.secrets)))
        refl

  -- When the Certificate is not being issued, one run of ProcessItem deletes every labelled Secret and
  -- clears the name in the status.
  pub run_cleans :
      (st : State)
      → base.deleting ≡ false
      → certificate_has_condition (some base.conditions) issuing_true ≡ false
      → run fresh pki keys base target st ≡ record { next_name = none; secrets = [] }
  run_cleans st d i = run-cleaning st d i ∙ cleans st
