-- ===== src/Conditions/Update.antt =====
-- The loops over a list of conditions, over any condition struct, and their laws.
-- pkg/api/util/conditions.go
use cert_manager.Common.{
  String, ◌≡◌, ◌≢◌, refl, Option, none, some, List, [], ◌∷◌, arith, ◌==◌, eq_iff, eq_refl,
  if◌then◌else◌, ==_false,
}
use cert_manager.Conditions.Entry.{Entry}

module _ {C : Type 0} ⦃e : Entry C⦄ where
  -- The first condition of a type: the loop with `return &Conditions[i]`.
  unfoldable pub get_condition : List C → String → Option C
  get_condition [] k = none
  get_condition (c ∷ cs) k = if e.kind c == k then some c else get_condition cs k

  -- The loop that overwrites the first condition of the new one's type, or appends.
  unfoldable pub set_condition : C → List C → List C
  set_condition new [] = new ∷ []
  set_condition new (c ∷ cs) =
      if e.kind c == e.kind new
      then (if e.state c == e.state new then e.stamp (e.time c) new else new) ∷ cs
      else c ∷ set_condition new cs

  -- The loop that keeps the conditions of other types.
  unfoldable pub remove_condition : String → List C → List C
  remove_condition k [] = []
  remove_condition k (c ∷ cs) =
      let rest = remove_condition k cs in if e.kind c == k then rest else c ∷ rest

  -- What the update leaves at the new condition's type, given what was there.
  abbrev pub merged : C → Option C → C
  merged new none = new
  merged new (some c) = if e.state c == e.state new then e.stamp (e.time c) new else new

  pub kind-merged : (new : C) (o : Option C) → e.kind (merged new o) ≡ e.kind new
  kind-merged new none = refl
  kind-merged new (some c) = ground (arith, e.kind-stamp (e.time c) new)

  pub get-set_self :
      (new : C) (cs : List C)
      → get_condition (set_condition new cs) (e.kind new)
        ≡ some (merged new (get_condition cs (e.kind new)))
  unfolding get_condition set_condition
  get-set_self new [] = rw eq_refl
  get-set_self new (c ∷ cs) = ground (
    arith,
    eq_iff (e.kind new) (e.kind new),
    kind-merged new (some c),
    eq_refl (e.kind new),
    get-set_self new cs,
  )

  pub get-set_ne :
      (new : C) (cs : List C) (k : String)
      → e.kind new ≢ k
      → get_condition (set_condition new cs) k ≡ get_condition cs k
  unfolding get_condition set_condition
  get-set_ne new [] k h = rw (==_false h)
  get-set_ne new (c ∷ cs) k h = ground (
    arith,
    ==_false h,
    eq_iff (e.kind c) (e.kind new),
    eq_iff (e.kind c) k,
    kind-merged new (some c),
    get-set_ne new cs k h,
  )
