-- ===== src/KeyManager/Process.antt =====
-- ProcessItem of pkg/controller/certificates/keymanager/keymanager_controller.go and the methods that it
-- calls. GeneratePrivateKeyForCertificate and EncodePrivateKey are parameters; what the listers and the API
-- server answer is an argument. The status is written by UpdateStatus. Log lines and events are left out.
use cert_manager.Common.{
  String, Bool, true, false, Option, none, some, List, [], ◌∷◌, ◌==◌, if◌then◌else◌, any, not, ◌⊎◌,
  inl, inr,
}
use cert_manager.Common.Bytes.{Bytes}
use cert_manager.Conditions.Entry.{CertificateCondition}
use cert_manager.Conditions.Operations.{certificate_has_condition}
use cert_manager.Naming.Shorten.{hyphenated}
use cert_manager.Policies.Checks.{is_empty, entry}
use cert_manager.Policies.Input.{Certificate, Pki, Secret}
use cert_manager.Revisions.Collector.{Fetch, found, missing, failure}
use cert_manager.Trigger.Process.{issuing_true}

-- A Secret that the Certificate owns and that is labelled as holding a next private key.
pub record NextSecret : Type 0 where
  pub name : String
  pub secret : Secret

-- What the controller reads of a Certificate; `rotation_policy` is `none` without `spec.privateKey`.
pub record KeyCertificate : Type 0 where
  pub name : String
  pub uid : String
  pub deleting : Bool
  pub conditions : List CertificateCondition
  pub rotation_policy : Option String
  pub next_private_key_secret_name : Option String
  pub spec : Certificate

-- The Secret that is sent to the API server; `owner` is the UID of its controller reference.
pub record NewSecret : Type 0 where
  pub name : String
  pub generate_name : String
  pub owner : String
  pub key_data : Bytes

-- The API server's answer to a creation: the name of the new Secret, that there is one of the name, or another
-- error.
pub data Creation : Type 0 where
  made : String → Creation
  already_exists refused : Creation

-- The deletions asked for, the Secret whose creation is asked for, the value that the status's
-- nextPrivateKeySecretName is set to, and whether an error is returned.
pub record Effects : Type 0 where
  pub asked : List String
  pub created : Option NewSecret
  pub status : Option (Option String)
  pub error : Bool

abbrev pub stops : Bool → Effects
stops error = record { asked = []; created = none; status = none; error = error }

-- What the API server answers: to each deletion, to the live read of the Certificate (its
-- nextPrivateKeySecretName, `none` for an error), to the creation of a Secret of a name, to the read of a
-- Secret that exists already (its name) and to the status update.
pub record Answers : Type 0 where
  pub deleted : String → Bool
  pub latest : Option (Option String)
  pub creation : String → Creation
  pub existing : String → Option String
  pub updated : Bool

pub record Keys (pki : Pki) : Type 0 where
  pub generate : Certificate → String ⊎ pki.PrivateKey
  pub encode : pki.PrivateKey → Option Bytes

abbrev pub contains : List String → String → Bool
contains names name = any (λ n. n == name) names

-- SetRuntimeDefaults_Certificate of internal/apis/certmanager/v1/defaults.go.
unfoldable pub rotation_policy_of : Option String → String
rotation_policy_of none = "Always"
rotation_policy_of (some policy) = if policy == "" then "Always" else policy

abbrev pub key_data_of : Secret → Bytes
key_data_of s = entry s "tls.key"

-- The deletions asked for, and whether the loop returns an error.
unfoldable pub delete_secret_resources :
    (deleted : String → Bool) → List NextSecret → (skip : List String) → List String × Bool
delete_secret_resources deleted [] skip = ([], false)
delete_secret_resources deleted (s ∷ rest) skip =
    let more = delete_secret_resources deleted rest skip in
    if contains skip s.name
    then more
    else if deleted s.name
    then (s.name ∷ more.0, more.1)
    else (s.name ∷ [], true)

abbrev pub same_name : Option String → Option String → Bool
same_name none none = true
same_name none (some b) = false
same_name (some a) none = false
same_name (some a) (some b) = a == b

unfoldable pub set_next_private_key_secret_name :
    KeyCertificate → (updated : Bool) → (name : Option String) → Effects
set_next_private_key_secret_name crt updated name =
    if same_name name crt.next_private_key_secret_name
    then stops false
    else record { asked = []; created = none; status = some name; error = not updated }

abbrev pub deletes : Answers → List NextSecret → (skip : List String) → Effects
deletes answers secrets skip =
    let done = delete_secret_resources answers.deleted secrets skip in
    record { asked = done.0; created = none; status = none; error = done.1 }

abbrev pub or_empty : Option String → String
or_empty none = ""
or_empty (some name) = name

-- The name of the Secret that a creation leaves, `none` for an error.
unfoldable pub name_after :
    (existing : String → Option String) → (name : String) → Creation → Option String
name_after existing name (made given) = some given
name_after existing name already_exists = if name == "" then none else existing name
name_after existing name refused = none

module _ (pki : Pki) where
  -- The Secret holds a private key as the spec wants it.
  unfoldable pub is_usable : Certificate → Secret → Bool
  is_usable spec s =
      if is_empty (key_data_of s)
      then false
      else elim (pki.decode_private_key_bytes (key_data_of s)) [
        | inl err ↦ false
        | inr pk ↦ is_empty (pki.private_key_matches_spec pk spec)
      ]

module _ (pki : Pki) (keys : Keys pki) (answers : Answers) where
  unfoldable pub new_secret : KeyCertificate → (name : String) → Bytes → NewSecret
  new_secret crt name bytes = record {
    name = name;
    generate_name = if name == "" then hyphenated crt.name "" else "";
    owner = crt.uid;
    key_data = bytes;
  }

  -- createNewPrivateKeySecret, and setNextPrivateKeySecretName with the name of the Secret.
  unfoldable pub store_and_set : KeyCertificate → pki.PrivateKey → Effects
  unfolding new_secret name_after set_next_private_key_secret_name
  store_and_set crt pk = elim answers.latest [
    | none ↦ stops true
    | some latest ↦ elim (keys.encode pk) [
      | none ↦ stops true
      | some bytes ↦
          let name = or_empty latest in
          let new = new_secret crt name bytes in
          elim (name_after answers.existing name (answers.creation name)) [
            | none ↦ record { asked = []; created = some new; status = none; error = true }
            | some given ↦
                record (set_next_private_key_secret_name crt answers.updated (some given)) {
                  created = some new;
                }
          ]
    ]
  ]

  unfoldable pub create_and_set_next_private_key : KeyCertificate → Effects
  unfolding store_and_set
  create_and_set_next_private_key crt = elim (keys.generate crt.spec) [
    | inl err ↦ stops true
    | inr pk ↦ store_and_set crt pk
  ]

  -- `target` is the lister's answer for the Secret of `spec.secretName`.
  unfoldable pub create_next_private_key_rotation_policy_never :
      KeyCertificate → (target : Fetch Secret) → Effects
  unfolding create_and_set_next_private_key
  create_next_private_key_rotation_policy_never crt missing = create_and_set_next_private_key crt
  create_next_private_key_rotation_policy_never crt failure = stops true
  create_next_private_key_rotation_policy_never crt (found s) =
      if is_empty (key_data_of s)
      then create_and_set_next_private_key crt
      else elim (pki.decode_private_key_bytes (key_data_of s)) [
        | inl err ↦ create_and_set_next_private_key crt
        | inr pk ↦
            if is_empty (pki.private_key_matches_spec pk crt.spec)
            then store_and_set crt pk
            else stops false
      ]

  unfoldable pub create_by_policy :
      KeyCertificate → (policy : String) → (target : Fetch Secret) → Effects
  unfolding create_next_private_key_rotation_policy_never
  create_by_policy crt policy target =
      if policy == "Never"
      then create_next_private_key_rotation_policy_never crt target
      else if policy == "Always"
      then create_and_set_next_private_key crt
      else stops false

  -- The one Secret that there is.
  unfoldable pub check_secret : KeyCertificate → NextSecret → Effects
  unfolding is_usable set_next_private_key_secret_name
  check_secret crt s = elim crt.next_private_key_secret_name [
    | none ↦ set_next_private_key_secret_name crt answers.updated (some s.name)
    | some name ↦
        if not (name == s.name)
        then deletes answers (s ∷ []) []
        else if is_usable pki crt.spec s.secret
        then stops false
        else deletes answers (s ∷ []) []
  ]

  unfoldable pub process_secrets :
      KeyCertificate → (target : Fetch Secret) → List NextSecret → Effects
  unfolding create_by_policy check_secret rotation_policy_of
  process_secrets crt target [] =
      create_by_policy crt (rotation_policy_of crt.rotation_policy) target
  process_secrets crt target (s ∷ []) = check_secret crt s
  process_secrets crt target (s ∷ t ∷ rest) =
      deletes answers (s ∷ t ∷ rest) (or_empty crt.next_private_key_secret_name ∷ [])

  -- deleteSecretResources, and setNextPrivateKeySecretName with nil unless it fails.
  unfoldable pub clean_up : KeyCertificate → List NextSecret → Effects
  unfolding set_next_private_key_secret_name
  clean_up crt secrets =
      let done = delete_secret_resources answers.deleted secrets [] in
      if done.1
      then record { asked = done.0; created = none; status = none; error = true }
      else record (set_next_private_key_secret_name crt answers.updated none) { asked = done.0 }

  -- `secrets` is `none` where the Secrets cannot be listed.
  unfoldable pub process_item :
      Fetch KeyCertificate
      → (secrets : Option (List NextSecret)) → (target : Fetch Secret) → Effects
  unfolding process_secrets clean_up
  process_item failure secrets target = stops true
  process_item missing secrets target = stops false
  process_item (found crt) secrets target = if crt.deleting then stops false else elim secrets [
    | none ↦ stops true
    | some listed ↦
        if not (certificate_has_condition (some crt.conditions) issuing_true)
        then clean_up crt listed
        else process_secrets crt target listed
  ]
