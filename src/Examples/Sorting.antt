-- ===== src/Examples/Sorting.antt =====
-- An insertion sort: a sort as the models assume Go's to be.
use cert_manager.Common.{
  Bool, true, false, ◌≡◌, refl, List, [], ◌∷◌, if◌then◌else◌, All, Bool-cases, inl, inr, arith,
}
use mathlib.Core.List.Permᴰ
use mathlib.Core.List.{Permᴰ}
use cert_manager.Common.Pairs.{All-map}
use cert_manager.Common.Order.{IsStrictWeak, IsSorted, Sorter}

module _ {A : Type 0} where
  unfoldable pub insert : (A → A → Bool) → A → List A → List A
  insert less x [] = x ∷ []
  insert less x (y ∷ ys) = let rest = insert less x ys in if less y x then y ∷ rest else x ∷ y ∷ ys

  unfoldable pub insertion_sort : (A → A → Bool) → List A → List A
  unfolding insert
  insertion_sort less [] = []
  insertion_sort less (x ∷ xs) = insert less x (insertion_sort less xs)

  insert-perm : (less : A → A → Bool) (x : A) (ys : List A) → Permᴰ (insert less x ys) (x ∷ ys)
  unfolding insert
  insert-perm less x [] = Permᴰ.refl (x ∷ [])
  insert-perm less x (y ∷ ys) = elim (Bool-cases (less y x)) [
    | inl e ↦ rw e (Permᴰ.trans (Permᴰ.cons refl (insert-perm less x ys)) (Permᴰ.swap refl refl))
    | inr e ↦ rw e (Permᴰ.refl (x ∷ y ∷ ys))
  ]

  pub insertion_sort-perm : (less : A → A → Bool) (xs : List A) → Permᴰ (insertion_sort less xs) xs
  unfolding insertion_sort
  insertion_sort-perm less [] = Permᴰ.refl []
  insertion_sort-perm less (x ∷ xs) =
      Permᴰ.trans (insert-perm less x (insertion_sort less xs))
        (Permᴰ.cons refl (insertion_sort-perm less xs))

  insert-All :
      (P : A → Type 0) (less : A → A → Bool) (x : A) (ys : List A)
      → P x
      → All P ys
      → All P (insert less x ys)
  unfolding insert
  insert-All P less x [] p h = (p, tt)
  insert-All P less x (y ∷ ys) p h = elim (Bool-cases (less y x)) [
    | inl e ↦ rw e (h.0, insert-All P less x ys p h.1)
    | inr e ↦ rw e (p, h)
  ]

  asym : (less : A → A → Bool) → IsStrictWeak less → (a b : A) → less a b ≡ true → less b a ≡ false
  asym less w a b e = ground (arith, w.irrefl a, w.trans a b a e)

  insert-IsSorted :
      (less : A → A → Bool)
      → IsStrictWeak less
      → (x : A) (ys : List A) → IsSorted less ys
      → IsSorted less (insert less x ys)
  unfolding insert
  insert-IsSorted less w x [] h = (tt, tt)
  insert-IsSorted less w x (y ∷ ys) h = elim (Bool-cases (less y x)) [
    | inl e ↦ rw e (
      insert-All (λ b. less b y ≡ false) less x ys (asym less w y x e) h.0,
      insert-IsSorted less w x ys h.1,
    )
    | inr e ↦ rw e ((e, All-map ys (λ b q. w.cotrans b y x q e) h.0), h)
  ]

  pub insertion_sort-IsSorted :
      (less : A → A → Bool) (xs : List A)
      → IsStrictWeak less
      → IsSorted less (insertion_sort less xs)
  unfolding insertion_sort
  insertion_sort-IsSorted less [] w = tt
  insertion_sort-IsSorted less (x ∷ xs) w =
      insert-IsSorted less w x (insertion_sort less xs) (insertion_sort-IsSorted less xs w)

  abbrev pub insertion_sorter : Sorter A
  insertion_sorter = record {
    sort = insertion_sort;
    sort-perm = insertion_sort-perm;
    sort-IsSorted = insertion_sort-IsSorted;
  }
