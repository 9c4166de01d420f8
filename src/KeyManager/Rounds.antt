-- ===== src/KeyManager/Rounds.antt =====
-- One run of pkg/controller/certificates/keymanager for a Certificate that is being issued, by the Secrets that
-- it finds.
use cert_manager.Common.{
  String, true, false, Option, none, some, List, [], ◌∷◌, ◌≡◌, refl, sym, subst, ◌∙◌, ap, eq_iff,
  eq_refl, if◌then◌else◌, select, arith, Bool-cases, ==-cases, inl, inr, ◌⊎◌,
}
use cert_manager.Common.Bytes.{Bytes}
use cert_manager.Conditions.Operations.{certificate_has_condition}
use cert_manager.Policies.Input.{Pki, Secret}
use cert_manager.KeyManager.Process.{
  NextSecret, KeyCertificate, Effects, Keys, contains, process_item, process_secrets,
  create_by_policy, create_and_set_next_private_key, store_and_set, new_secret, name_after,
  set_next_private_key_secret_name, check_secret, is_usable, deletes, or_empty, same_name,
}
use cert_manager.KeyManager.Holding.{
  HoldsKey, IsAlways, rotation_policy_of-IsAlways, is_usable-HoldsKey,
}
use cert_manager.KeyManager.Cluster.{
  State, run, apply, answers_of, certificate_of, stored, given_name, written,
}
use cert_manager.KeyManager.Deletions.{remaining-skip}
use cert_manager.Revisions.Collector.{Fetch}
use cert_manager.Trigger.Process.{issuing_true}

module _ (fresh : List NextSecret → String) (pki : Pki) (keys : Keys pki) (base : KeyCertificate)
    (target : Fetch Secret) where
  -- The Certificate is being issued with a new key each time, and keys can be made, stored and read back.
  pub record IsIssuing : Type 0 where
    pub not_deleting : base.deleting ≡ false
    pub issuing : certificate_has_condition (some base.conditions) issuing_true ≡ true
    pub always : IsAlways base.rotation_policy
    pub key : pki.PrivateKey
    pub generated : keys.generate base.spec ≡ inr key
    pub bytes : Bytes
    pub encoded : keys.encode key ≡ some bytes
    pub readable : HoldsKey pki base.spec (stored "" bytes).secret

  -- There is one Secret, it is the one of the status and it holds a key as the spec wants it.
  pub record IsSettled (st : State) : Type 0 where
    pub the_secret : NextSecret
    pub only : st.secrets ≡ the_secret ∷ []
    pub named : st.next_name ≡ some the_secret.name
    pub usable : HoldsKey pki base.spec the_secret.secret

  module _ (h : IsIssuing) where
    named_lem :
        (n : Option String) (a : String)
        → written (if same_name (some a) n then none else some (some a)) n ≡ some a
    named_lem none a = refl
    named_lem (some b) a = ground (arith, eq_iff a b)

    -- The effects of storing the key, with no Secret there.
    abbrev storing : Option String → Effects
    storing n =
        store_and_set pki keys (answers_of fresh (record { next_name = n; secrets = [] }))
          (certificate_of base (record { next_name = n; secrets = [] })) h.key

    abbrev chosen : Option String → String
    chosen n = given_name fresh [] (or_empty n)

    storing-created :
        (n : Option String)
        → (storing n).created
          ≡ some (
              new_secret pki keys
                (answers_of fresh (record { next_name = n; secrets = [] }))
                (certificate_of base (record { next_name = n; secrets = [] }))
                (or_empty n)
                h.bytes)
    unfolding store_and_set answers_of name_after
    storing-created n = ground (arith, h.encoded)

    storing-status :
        (n : Option String)
        → (storing n).status
          ≡ (if same_name (some (chosen n)) n then none else some (some (chosen n)))
    unfolding store_and_set answers_of name_after set_next_private_key_secret_name
    storing-status n = ground (arith, h.encoded)

    stores :
        (n : Option String)
        → IsSettled (apply fresh (storing n) (record { next_name = n; secrets = [] }))
    unfolding apply new_secret
    stores n = record {
      the_secret = stored (chosen n) h.bytes;
      only = rw (storing-created n) refl;
      named = rw (storing-status n) (named_lem n (chosen n));
      usable = h.readable;
    }

    run-process_secrets :
        (st : State)
        → run fresh pki keys base target st
          ≡ apply fresh
              (process_secrets pki keys
                (answers_of fresh st)
                (certificate_of base st)
                target
                st.secrets)
              st
    unfolding run process_item
    run-process_secrets st = rw h.not_deleting (rw h.issuing refl)

    process_empty :
        (st : State)
        → process_secrets pki keys (answers_of fresh st) (certificate_of base st) target []
          ≡ store_and_set pki keys (answers_of fresh st) (certificate_of base st) h.key
    unfolding process_secrets create_by_policy create_and_set_next_private_key
    process_empty st =
        rw (rotation_policy_of-IsAlways base.rotation_policy h.always)
          (rw (h.generated, create_and_set_next_private_key) refl)

    -- Without a Secret one is made.
    pub run_empty :
        (n : Option String)
        → IsSettled (run fresh pki keys base target (record { next_name = n; secrets = [] }))
    run_empty n =
        subst IsSettled
          (sym (
            run-process_secrets (record { next_name = n; secrets = [] })
            ∙ ap (λ e. apply fresh e (record { next_name = n; secrets = [] }))
                (process_empty (record { next_name = n; secrets = [] }))))
          (stores n)

    -- One Secret and no name in the status: its name is written there.
    pub run_adopts :
        (s : NextSecret)
        → run fresh pki keys base target (record { next_name = none; secrets = s ∷ [] })
          ≡ record { next_name = some s.name; secrets = s ∷ [] }
    unfolding process_secrets check_secret set_next_private_key_secret_name apply answers_of
    run_adopts s = run-process_secrets (record { next_name = none; secrets = s ∷ [] }) ∙ refl

    -- One Secret and a name in the status: the Secret is left alone if it is that one and usable.
    pub run_keeps :
        (s : NextSecret)
        → is_usable pki base.spec s.secret ≡ true
        → run fresh pki keys base target (record { next_name = some s.name; secrets = s ∷ [] })
          ≡ record { next_name = some s.name; secrets = s ∷ [] }
    unfolding process_secrets check_secret apply answers_of
    run_keeps s u =
        run-process_secrets (record { next_name = some s.name; secrets = s ∷ [] })
        ∙ rw (eq_refl s.name) (rw u refl)

    -- Otherwise it is deleted.
    deletes_one :
        (s : NextSecret) (n : String)
        → (apply fresh
            (deletes
              (answers_of fresh (record { next_name = some n; secrets = s ∷ [] }))
              (s ∷ [])
              [])
            (record { next_name = some n; secrets = s ∷ [] })).secrets
          ≡ []
    unfolding apply answers_of
    deletes_one s n = remaining-skip (s ∷ []) []

    pub run_checks :
        (s : NextSecret) (n : String)
        → IsSettled
            (run fresh pki keys base target (record { next_name = some n; secrets = s ∷ [] }))
          ⊎ ((run fresh pki keys base target
                (record { next_name = some n; secrets = s ∷ [] })).secrets
              ≡ [])
    unfolding process_secrets check_secret
    run_checks s n = elim (==-cases n s.name) [
      | inr ne ↦ inr (
          ap (λ (st : State). st.secrets)
            (run-process_secrets (record { next_name = some n; secrets = s ∷ [] }))
          ∙ rw ne (deletes_one s n))
      | inl e ↦ elim (Bool-cases (is_usable pki base.spec s.secret)) [
        | inl u ↦ inl (
            subst IsSettled
              (sym (
                ap
                  (λ m.
                    run fresh pki keys base target
                      (record { next_name = some m; secrets = s ∷ [] }))
                  e
                ∙ run_keeps s u))
              (record {
                the_secret = s;
                only = refl;
                named = refl;
                usable = is_usable-HoldsKey pki base.spec s.secret u;
              }))
        | inr u ↦ inr (
            ap (λ (st : State). st.secrets)
              (run-process_secrets (record { next_name = some n; secrets = s ∷ [] }))
            ∙ rw ((eq_iff n s.name).1 e) (rw u (deletes_one s n)))
      ]
    ]

    -- Of several Secrets the one of the status is kept.
    pub run_prunes :
        (s t : NextSecret) (rest : List NextSecret) (n : Option String)
        → (run fresh pki keys base target
            (record { next_name = n; secrets = s ∷ t ∷ rest })).secrets
          ≡ select (λ x. contains (or_empty n ∷ []) x.name) (s ∷ t ∷ rest)
    unfolding process_secrets apply answers_of
    run_prunes s t rest n =
        ap (λ (st : State). st.secrets)
          (run-process_secrets (record { next_name = n; secrets = s ∷ t ∷ rest }))
        ∙ remaining-skip (s ∷ t ∷ rest) (or_empty n ∷ [])
