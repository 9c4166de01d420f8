-- ===== src/Conditions/Certificates.antt =====
-- What SetCertificateCondition, RemoveCertificateCondition, GetCertificateCondition and
-- CertificateHasCondition of pkg/api/util/conditions.go do to one another.
use cert_manager.Common.{
  ℕ, String, ◌≡◌, Option, none, some, List, arith, ◌==◌, eq_iff, eq_refl, if◌then◌else◌,
}
use mathlib.Core.Option
use cert_manager.Conditions.Entry.{CertificateCondition, certificate_entry}
use cert_manager.Conditions.Update.{get-set_self, get-set_ne}
use cert_manager.Conditions.Distinct.{
  IsDistinct, get-remove, set_condition-IsDistinct, remove_condition-IsDistinct,
  has_condition-eq-get,
}
use cert_manager.Conditions.Operations.{
  certificate_has_condition, get_certificate_condition, set_certificate_condition,
  remove_certificate_condition,
}

-- The transition time that an update to status `s` at time `now` leaves.
abbrev pub kept_time : (now : ℕ) → (s : String) → Option CertificateCondition → Option ℕ
kept_time now s none = some now
kept_time now s (some c) = if c.status == s then c.last_transition_time else some now

-- After SetCertificateCondition the condition of that type has the given status, reason, message
-- and generation. Its transition time is that of the condition which was there if the status is
-- the same, and the present time if the status differs or there was no condition of the type.
pub get-set_certificate_condition :
    (now : ℕ) (cs : List CertificateCondition) (g : ℕ) (t s r m : String)
    → get_certificate_condition (set_certificate_condition now cs g t s r m) t
      ≡ some (record {
        type = t;
        status = s;
        last_transition_time = kept_time now s (get_certificate_condition cs t);
        reason = r;
        message = m;
        observed_generation = g;
      })
unfolding get_certificate_condition set_certificate_condition
get-set_certificate_condition now cs g t s r m =
    let new : CertificateCondition = record {
      type = t;
      status = s;
      last_transition_time = some now;
      reason = r;
      message = m;
      observed_generation = g;
    } in
    ground (arith, get-set_self new cs)

-- On a list with one condition of each type, SetCertificateCondition keeps it so, and
-- CertificateHasCondition then finds of the given type exactly the given status, and of any
-- other type what it found before.
pub has-set_certificate_condition :
    (now : ℕ) (cs : List CertificateCondition) (g : ℕ) (t s r m : String)
    → IsDistinct cs
    → IsDistinct (set_certificate_condition now cs g t s r m)
      × ((k : CertificateCondition)
          → certificate_has_condition (some (set_certificate_condition now cs g t s r m)) k
            ≡ (if t == k.type then k.status == s else certificate_has_condition (some cs) k))
unfolding set_certificate_condition certificate_has_condition
has-set_certificate_condition now cs g t s r m h =
    let new : CertificateCondition = record {
      type = t;
      status = s;
      last_transition_time = some now;
      reason = r;
      message = m;
      observed_generation = g;
    } in
    let kept = set_condition-IsDistinct new cs h in
    (
      kept,
      λ k. ground (
        arith,
        eq_iff t k.type,
        has_condition-eq-get k _ kept,
        has_condition-eq-get k cs h,
        get-set_self new cs,
        get-set_ne new cs k.type,
      ),
    )

-- Two updates to the same status leave the transition time of the first one, whenever the second
-- is made and whatever its reason, message and generation are.
pub transition_time_stable :
    (now later : ℕ) (cs : List CertificateCondition) (g g' : ℕ) (t s r m r' m' : String)
    → Option.map
        (λ (c : CertificateCondition). c.last_transition_time)
        (get_certificate_condition
          (set_certificate_condition later
            (set_certificate_condition now cs g t s r m)
            g'
            t
            s
            r'
            m')
          t)
      ≡ some (kept_time now s (get_certificate_condition cs t))
transition_time_stable now later cs g g' t s r m r' m' =
    rw get-set_certificate_condition (rw get-set_certificate_condition (ground (arith, eq_refl s)))

-- RemoveCertificateCondition leaves no condition of the type, those of the other types as they
-- were, and one condition of each type if there was one of each.
pub get-remove_certificate_condition :
    (cs : List CertificateCondition) (t j : String)
    → IsDistinct cs
    → (get_certificate_condition (remove_certificate_condition cs t) j
        ≡ (if t == j then none else get_certificate_condition cs j))
      × IsDistinct (remove_certificate_condition cs t)
unfolding get_certificate_condition remove_certificate_condition
get-remove_certificate_condition cs t j h = (get-remove t j cs, remove_condition-IsDistinct t cs h)
