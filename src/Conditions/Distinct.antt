-- ===== src/Conditions/Distinct.antt =====
-- Lists of conditions with one condition of each type, which is how the API declares them
-- (`listType=map`, `listMapKey=type`), under the loops of pkg/api/util/conditions.go.
use cert_manager.Common.{
  String, ◌≡◌, refl, Bool, false, Option, none, some, List, [], ◌∷◌, arith, ◌==◌, eq_iff,
  if◌then◌else◌, any, ◌&&◌, ◌||◌,
}
use cert_manager.Conditions.Entry.{Entry}
use cert_manager.Conditions.Update.{
  get_condition, set_condition, remove_condition, get-set_ne, kind-merged,
}

module _ {C : Type 0} ⦃e : Entry C⦄ where
  abbrev pub IsDistinct : List C → Type 0
  IsDistinct [] = Unit
  IsDistinct (c ∷ cs) = (get_condition cs (e.kind c) ≡ none) × IsDistinct cs

  pub get-remove :
      (k j : String) (cs : List C)
      → get_condition (remove_condition k cs) j ≡ (if k == j then none else get_condition cs j)
  unfolding get_condition remove_condition
  get-remove k j [] = ground arith
  get-remove k j (c ∷ cs) =
      ground (arith, get-remove k j cs, eq_iff (e.kind c) k, eq_iff (e.kind c) j, eq_iff k j)

  pub set_condition-IsDistinct :
      (new : C) (cs : List C) → IsDistinct cs → IsDistinct (set_condition new cs)
  unfolding get_condition set_condition
  set_condition-IsDistinct new [] h = (refl, tt)
  set_condition-IsDistinct new (c ∷ cs) h = ground (
    arith,
    eq_iff (e.kind c) (e.kind new),
    kind-merged new (some c),
    get-set_ne new cs (e.kind c),
    set_condition-IsDistinct new cs h.1,
  )

  pub remove_condition-IsDistinct :
      (k : String) (cs : List C) → IsDistinct cs → IsDistinct (remove_condition k cs)
  unfolding remove_condition
  remove_condition-IsDistinct k [] h = tt
  remove_condition-IsDistinct k (c ∷ cs) h =
      ground (
        arith,
        get-remove k (e.kind c) cs,
        eq_iff (e.kind c) k,
        remove_condition-IsDistinct k cs h.1,
      )

  -- The loop that looks for a condition of a type and status.
  unfoldable pub has_condition : List C → C → Bool
  has_condition [] k = false
  has_condition (c ∷ cs) k = (e.kind k == e.kind c && e.state k == e.state c) || has_condition cs k

  pub has_condition-none :
      (k : C) (cs : List C) → get_condition cs (e.kind k) ≡ none → has_condition cs k ≡ false
  unfolding get_condition has_condition
  has_condition-none k [] h = refl
  has_condition-none k (c ∷ cs) h =
      ground
        (arith, eq_iff (e.kind c) (e.kind k), eq_iff (e.kind k) (e.kind c), has_condition-none k cs)

  abbrev pub state_is : C → Option C → Bool
  state_is k none = false
  state_is k (some c) = e.state k == e.state c

  -- With one condition of each type the search by type and status is a look at the condition of
  -- that type.
  pub has_condition-eq-get :
      (k : C) (cs : List C)
      → IsDistinct cs
      → has_condition cs k ≡ state_is k (get_condition cs (e.kind k))
  unfolding get_condition has_condition
  has_condition-eq-get k [] h = refl
  has_condition-eq-get k (c ∷ cs) h = ground (
    arith,
    eq_iff (e.kind c) (e.kind k),
    eq_iff (e.kind k) (e.kind c),
    has_condition-none k cs,
    has_condition-eq-get k cs h.1,
  )

  abbrev pub at_option : (C → Bool) → Option C → Bool
  at_option p none = false
  at_option p (some c) = p c

  any-none :
      (k : String) (p : C → Bool) (cs : List C)
      → get_condition cs k ≡ none
      → any (λ c. e.kind c == k && p c) cs ≡ false
  unfolding get_condition
  any-none k p [] h = refl
  any-none k p (c ∷ cs) h = ground (arith, any-none k p cs)

  -- With one condition of each type, a search among those of one type is a look at that one.
  pub any-eq-get :
      (k : String) (p : C → Bool) (cs : List C)
      → IsDistinct cs
      → any (λ c. e.kind c == k && p c) cs ≡ at_option p (get_condition cs k)
  unfolding get_condition
  any-eq-get k p [] h = refl
  any-eq-get k p (c ∷ cs) h =
      ground (arith, eq_iff (e.kind c) k, any-none k p cs, any-eq-get k p cs h.1)
