-- ===== src/KeyManager/Deletions.antt =====
-- What is left after the deletions of pkg/controller/certificates/keymanager.
use cert_manager.Common.{
  String, Bool, true, false, List, [], ◌∷◌, ◌≡◌, refl, eq_iff, eq_refl, not, select, arith, inl,
  inr, ◌&&◌, ap, All, ==-cases, ◌⊎◌,
}
use cert_manager.Common.Pairs.{All-map}
use cert_manager.KeyManager.Process.{NextSecret, contains, delete_secret_resources}
use cert_manager.KeyManager.Cluster.{names_of, remaining}

-- Where every deletion succeeds, all but those to skip are asked for, and no error is returned.
pub delete-asked :
    (secrets : List NextSecret) (skip : List String)
    → delete_secret_resources (λ n. true) secrets skip
      ≡ (names_of (select (λ s. not (contains skip s.name)) secrets), false)
unfolding delete_secret_resources
delete-asked [] skip = refl
delete-asked (s ∷ rest) skip = ground (arith, delete-asked rest skip)

contains-names_of :
    (q : String → Bool) (secrets : List NextSecret) (name : String)
    → contains (names_of (select (λ s. q s.name) secrets)) name
      ≡ (q name && contains (names_of secrets) name)
contains-names_of q [] name = ground arith
contains-names_of q (s ∷ rest) name =
    ground (arith, contains-names_of q rest name, eq_iff s.name name, ap q)

select_kept :
    (p : String → Bool) (secrets all : List NextSecret)
    → All (λ s. contains (names_of all) s.name ≡ true) secrets
    → remaining (names_of (select (λ s. not (p s.name)) all)) secrets
      ≡ select (λ s. p s.name) secrets
select_kept p [] all h = refl
select_kept p (s ∷ rest) all h =
    ground (arith, contains-names_of (λ n. not (p n)) all s.name, select_kept p rest all h.1)

contains-own :
    (secrets : List NextSecret) → All (λ s. contains (names_of secrets) s.name ≡ true) secrets
contains-own [] = tt
contains-own (s ∷ rest) =
    (ground (arith, eq_refl s.name), All-map rest (λ t h. ground arith) (contains-own rest))

-- Deleting all but those to skip leaves those to skip.
pub remaining-skip :
    (secrets : List NextSecret) (skip : List String)
    → remaining (delete_secret_resources (λ n. true) secrets skip).0 secrets
      ≡ select (λ s. contains skip s.name) secrets
remaining-skip secrets skip =
    rw (delete-asked secrets skip)
      (select_kept (contains skip) secrets secrets (contains-own secrets))

abbrev pub IsDistinct : List NextSecret → Type 0
IsDistinct [] = Unit
IsDistinct (s ∷ rest) = (contains (names_of rest) s.name ≡ false) × IsDistinct rest

none_left :
    (name : String) (secrets : List NextSecret)
    → contains (names_of secrets) name ≡ false
    → select (λ s. contains (name ∷ []) s.name) secrets ≡ []
none_left name [] h = refl
none_left name (s ∷ rest) h =
    ground (arith, eq_iff name s.name, eq_iff s.name name, none_left name rest)

-- Of Secrets with different names one at most has a given name.
pub one_left :
    (name : String) (secrets : List NextSecret)
    → IsDistinct secrets
    → (select (λ s. contains (name ∷ []) s.name) secrets ≡ [])
      ⊎ ((s : NextSecret) × (select (λ s. contains (name ∷ []) s.name) secrets ≡ s ∷ [])
          × (name ≡ s.name))
one_left name [] h = inl refl
one_left name (s ∷ rest) h = elim (==-cases name s.name) [
  | inl e ↦ inr (s, ground (arith, eq_iff name s.name, none_left name rest), e)
  | inr ne ↦ elim (one_left name rest h.1) [
    | inl nothing ↦ inl (ground arith)
    | inr (t, is, e) ↦ inr (t, ground arith, e)
  ]
]
