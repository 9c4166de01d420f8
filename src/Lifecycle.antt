-- ===== src/Lifecycle.antt =====
-- The key manager and the request manager of one Certificate together (pkg/controller/certificates/keymanager and
-- pkg/controller/certificates/requestmanager): the second reads the state that the first leaves.
use cert_manager.Common.{
  true, false, some, List, [], ◌∷◌, ◌≡◌, refl, ◌∙◌, ap, String, ◌==◌, eq_refl, if◌then◌else◌, inr,
}
use cert_manager.Common.Bytes.{Bytes}
use cert_manager.Conditions.Operations.{certificate_has_condition}
use cert_manager.Policies.Input.{Pki, Secret}
use cert_manager.KeyManager.Process.{NextSecret, KeyCertificate, Keys}
use cert_manager.KeyManager.Cluster.{State}
use cert_manager.KeyManager.Deletions.{IsDistinct}
use cert_manager.KeyManager.Holding.{HoldsKey-not_empty, HoldsKey-decodes}
use cert_manager.KeyManager.Rounds.{IsIssuing}
use cert_manager.KeyManager.Convergence.{runs, runs-IsSettled}
use cert_manager.RequestManager.Liveness.{Creates, process_item-Creates}
use cert_manager.RequestManager.Process.{
  IssuingCertificate, Tools, Answers, Options, process_item, next_revision,
}
use cert_manager.RequestManager.Numbers.{next_revision-IsNext}
use cert_manager.RequestManager.Sweep.{Request}
use cert_manager.Revisions.Collector.{Fetch, found, missing}
use cert_manager.Trigger.Process.{issuing_true}

-- What the lister of Secrets answers in a state.
abbrev pub secret_at : List NextSecret → String → Fetch Secret
secret_at [] name = missing
secret_at (s ∷ rest) name = if name == s.name then found s.secret else secret_at rest name

module _ (fresh : List NextSecret → String) (pki : Pki) (keys : Keys pki) (base : KeyCertificate)
    (target : Fetch Secret) (tools : Tools pki) (options : Options) (answers : Answers) where
  -- For a Certificate that is being issued, is not being deleted, has the rotation policy Always and owns no
  -- request, in any state of its next private keys in which the Secrets have different names: after four runs of the
  -- key manager, on a cluster that does what it is asked and whose listers are up to date, the request manager, which
  -- reads the name and the Secret that these leave, creates a request and returns no error, provided that a key can
  -- be generated for the spec, encoded, and read back as the spec wants it, that a request can be signed with any
  -- key, that deletions succeed, and that the API server creates the request and the lister shows it.
  pub issuing-Creates :
      (crt : IssuingCertificate) (st : State)
      → IsIssuing fresh pki keys base target
      → IsDistinct st.secrets
      → crt.next_private_key_secret_name ≡ (runs fresh pki keys base target 4 st).next_name
      → crt.deleting ≡ false
      → certificate_has_condition (some crt.conditions) issuing_true ≡ true
      → ((key : pki.PrivateKey) → (pem : Bytes) × (tools.csr_pem crt key ≡ some (inr pem)))
      → ((r : Request) → answers.deleted r ≡ true)
      → answers.creation ≡ true
      → answers.appears ≡ true
      → Creates (
          process_item pki tools options answers
            (found crt)
            (secret_at (runs fresh pki keys base target 4 st).secrets)
            (some []))
  issuing-Creates crt st h d name n i signs del c a =
      let v = (runs-IsSettled fresh pki keys base target h st d).0 in
      let k = v.usable in
      process_item-Creates pki tools options answers crt
        (secret_at (runs fresh pki keys base target 4 st).secrets) [] v.the_secret.name
        v.the_secret.secret k.key (signs k.key).0 (next_revision crt.revision) n i (name ∙ v.named)
        (ap (λ l. secret_at l v.the_secret.name) v.only ∙ rw (eq_refl v.the_secret.name) refl)
        (HoldsKey-not_empty pki base.spec v.the_secret.secret k)
        (HoldsKey-decodes pki base.spec v.the_secret.secret k) (next_revision-IsNext crt.revision)
        del tt tt (signs k.key).1 c a
