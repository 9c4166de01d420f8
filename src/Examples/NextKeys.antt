-- ===== src/Examples/NextKeys.antt =====
-- Runs of the key manager, and of the request manager after it.
use cert_manager.Common.{inl, String, ◌≡◌, refl, false, none, some, List, [], ◌∷◌, inr}
use cert_manager.Conditions.Distinct.{has_condition}
use cert_manager.Conditions.Operations.{certificate_has_condition}
use cert_manager.Examples.Policies.{toy_pki, web, web_secret}
use cert_manager.Examples.Requests.{tools, options, answers, issuing_web}
use cert_manager.KeyManager.Process.{
  NextSecret, KeyCertificate, Keys, rotation_policy_of, is_usable,
}
use cert_manager.KeyManager.Cluster.{State, run}
use cert_manager.KeyManager.Rounds.{IsIssuing, IsSettled}
use cert_manager.KeyManager.Convergence.{runs, runs-IsSettled}
use cert_manager.Lifecycle.{issuing-Creates, secret_at}
use cert_manager.RequestManager.Liveness.{Creates}
use cert_manager.RequestManager.Process.{IssuingCertificate, process_item}
use cert_manager.Revisions.Collector.{Fetch, missing, found}
use cert_manager.Policies.Input.{Secret}
use cert_manager.Trigger.Process.{issuing_true}

abbrev keys : Keys toy_pki
keys = record { generate = λ c. inr 9; encode = λ k. some (k ∷ []) }

abbrev fresh : List NextSecret → String
fresh l = "web-x1"

abbrev base : KeyCertificate
base = record {
  name = "web";
  uid = "u1";
  deleting = false;
  conditions = issuing_true ∷ [];
  rotation_policy = none;
  next_private_key_secret_name = none;
  spec = web;
}

abbrev idle_base : KeyCertificate
idle_base = record base { conditions = [] }

abbrev no_secret : Fetch Secret
no_secret = missing

-- One Secret is usable and the other is empty; the status names a third.
abbrev two_secrets : State
two_secrets = record {
  next_name = some "web-old";
  secrets =
      record { name = "web-a"; secret = web_secret }
      ∷ record { name = "web-b"; secret = record { entries = none; annotations = λ k. none } }
      ∷ [];
}

base-IsIssuing : IsIssuing fresh toy_pki keys base no_secret
unfolding certificate_has_condition has_condition rotation_policy_of is_usable
base-IsIssuing = record {
  not_deleting = refl;
  issuing = refl;
  always = inl refl;
  key = 9;
  generated = refl;
  bytes = 9 ∷ [];
  encoded = refl;
  readable = record { byte = 9; rest = []; data_eq = refl; key = 9; decoded = refl; fits = refl };
}

runs-IsSettled_example :
    IsSettled fresh toy_pki keys base no_secret
      (runs fresh toy_pki keys base no_secret 4 two_secrets)
    × (run fresh toy_pki keys base no_secret (runs fresh toy_pki keys base no_secret 4 two_secrets)
        ≡ runs fresh toy_pki keys base no_secret 4 two_secrets)
runs-IsSettled_example =
    runs-IsSettled fresh toy_pki keys base no_secret base-IsIssuing two_secrets (refl, (refl, tt))

abbrev web_with_key : IssuingCertificate
web_with_key = record issuing_web {
  next_private_key_secret_name = (runs fresh toy_pki keys base no_secret 4 two_secrets).next_name;
}

issuing-Creates_example : Creates (
    process_item toy_pki tools options answers
      (found web_with_key)
      (secret_at (runs fresh toy_pki keys base no_secret 4 two_secrets).secrets)
      (some []))
unfolding certificate_has_condition has_condition
issuing-Creates_example =
    issuing-Creates fresh toy_pki keys base no_secret tools options answers web_with_key two_secrets
      base-IsIssuing (refl, (refl, tt)) refl refl refl (λ key. (key ∷ [], refl)) (λ r. refl) refl
      refl
