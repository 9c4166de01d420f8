-- ===== src/Conditions/Entry.antt =====
-- The three condition structs of pkg/apis/certmanager/v1 and the interface by which the loops of
-- pkg/api/util/conditions.go, which are written once for each struct, are modelled once.
-- A time is a number of nanoseconds; `*metav1.Time` is an `Option`.
use cert_manager.Common.{ℕ, String, ◌≡◌, refl, Option}

pub record IssuerCondition : Type 0 where
  pub type : String
  pub status : String
  pub last_transition_time : Option ℕ
  pub reason : String
  pub message : String
  pub observed_generation : ℕ

pub record CertificateCondition : Type 0 where
  pub type : String
  pub status : String
  pub last_transition_time : Option ℕ
  pub reason : String
  pub message : String
  pub observed_generation : ℕ

pub record CertificateRequestCondition : Type 0 where
  pub type : String
  pub status : String
  pub last_transition_time : Option ℕ
  pub reason : String
  pub message : String

-- What the loops read and write of a condition.
pub record Entry (C : Type 0) : Type 0 where
  pub kind : C → String
  pub state : C → String
  pub time : C → Option ℕ
  pub stamp : Option ℕ → C → C
  pub kind-stamp : (t : Option ℕ) (c : C) → kind (stamp t c) ≡ kind c
  pub state-stamp : (t : Option ℕ) (c : C) → state (stamp t c) ≡ state c
  pub time-stamp : (t : Option ℕ) (c : C) → time (stamp t c) ≡ t
  pub stamp-stamp : (t u : Option ℕ) (c : C) → stamp t (stamp u c) ≡ stamp t c

instance abbrev pub issuer_entry : Entry IssuerCondition
issuer_entry = record {
  kind = λ c. c.type;
  state = λ c. c.status;
  time = λ c. c.last_transition_time;
  stamp = λ t c. record c { last_transition_time = t };
  kind-stamp = λ t c. refl;
  state-stamp = λ t c. refl;
  time-stamp = λ t c. refl;
  stamp-stamp = λ t u c. refl;
}

instance abbrev pub certificate_entry : Entry CertificateCondition
certificate_entry = record {
  kind = λ c. c.type;
  state = λ c. c.status;
  time = λ c. c.last_transition_time;
  stamp = λ t c. record c { last_transition_time = t };
  kind-stamp = λ t c. refl;
  state-stamp = λ t c. refl;
  time-stamp = λ t c. refl;
  stamp-stamp = λ t u c. refl;
}

instance abbrev pub request_entry : Entry CertificateRequestCondition
request_entry = record {
  kind = λ c. c.type;
  state = λ c. c.status;
  time = λ c. c.last_transition_time;
  stamp = λ t c. record c { last_transition_time = t };
  kind-stamp = λ t c. refl;
  state-stamp = λ t c. refl;
  time-stamp = λ t c. refl;
  stamp-stamp = λ t u c. refl;
}
