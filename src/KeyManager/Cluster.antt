-- ===== src/KeyManager/Cluster.antt =====
-- The key manager (pkg/controller/certificates/keymanager) on a cluster whose API server carries out what it is
-- asked to and whose listers are up to date: a run reads the state and its effects change it.
use cert_manager.Common.{
  String, true, Option, none, some, List, [], ◌∷◌, ◌++◌, ◌==◌, if◌then◌else◌, not, select,
}
use cert_manager.Common.Bytes.{Bytes}
use cert_manager.Policies.Input.{Pki, Secret}
use cert_manager.KeyManager.Process.{
  NextSecret, KeyCertificate, NewSecret, made, already_exists, Effects, Answers, Keys, contains,
  process_item,
}
use cert_manager.Revisions.Collector.{Fetch, found}

-- The status's nextPrivateKeySecretName, and the labelled Secrets that the Certificate owns.
pub record State : Type 0 where
  pub next_name : Option String
  pub secrets : List NextSecret

-- The Certificate with the state's status.
abbrev pub certificate_of : KeyCertificate → State → KeyCertificate
certificate_of base st = record base { next_private_key_secret_name = st.next_name }

abbrev pub names_of : List NextSecret → List String
names_of [] = []
names_of (s ∷ rest) = s.name ∷ names_of rest

-- Without the Secrets whose deletion is asked for.
abbrev pub remaining : (asked : List String) → List NextSecret → List NextSecret
remaining asked secrets = select (λ s. not (contains asked s.name)) secrets

abbrev pub stored : (name : String) → Bytes → NextSecret
stored name bytes = record {
  name = name;
  secret = record {
    entries = some (λ k. if k == "tls.key" then some bytes else none);
    annotations = λ k. none;
  };
}

abbrev pub written : Option (Option String) → Option String → Option String
written none name = name
written (some name) _ = name

-- `fresh` is the name that the API server makes from a generateName.
module _ (fresh : List NextSecret → String) where
  abbrev pub given_name : List NextSecret → (name : String) → String
  given_name secrets name = if name == "" then fresh secrets else name

  abbrev pub add_created : Option NewSecret → List NextSecret → List NextSecret
  add_created none secrets = secrets
  add_created (some new) secrets =
      if contains (names_of secrets) (given_name secrets new.name)
      then secrets
      else secrets ++ stored (given_name secrets new.name) new.key_data ∷ []

  unfoldable pub answers_of : State → Answers
  answers_of st = record {
    deleted = λ name. true;
    latest = some st.next_name;
    creation = λ name.
        if contains (names_of st.secrets) (given_name st.secrets name)
        then already_exists
        else made (given_name st.secrets name);
    existing = λ name. some name;
    updated = true;
  }

  unfoldable pub apply : Effects → State → State
  apply e st = record {
    next_name = written e.status st.next_name;
    secrets = add_created e.created (remaining e.asked st.secrets);
  }

  module _ (pki : Pki) (keys : Keys pki) (base : KeyCertificate) (target : Fetch Secret) where
    -- One ProcessItem and its effects.
    unfoldable pub run : State → State
    unfolding answers_of apply
    run st =
        apply
          (process_item pki keys (answers_of st) (found (certificate_of base st)) (some st.secrets)
            target)
          st
