-- ===== src/Challenges/Distinct.antt =====
-- What a pass over a sorted list of challenges keeps when it drops the ones that follow one of the same
-- domain and type, as dedupeChallenges of pkg/controller/acmechallenges/scheduler/scheduler.go means to.
use cert_manager.Common.{
  ◌≤◌, ◌≡◌, refl, sym, subst, true, false, inl, inr, List, [], ◌∷◌, arith, Bool-cases, All,
  Ordering,
}
use mathlib.Core.List.{Memᴰ}
use cert_manager.Common.Pairs.{AllPairs, AllPairs-map, All-map}
use cert_manager.Common.Order.{IsSorted}
use cert_manager.Challenges.Keys.{
  compare_lt_of_ne, compare_lt_trans, older_of_same, same_challenge_refl, ne_of_compare_lt,
}
use cert_manager.Challenges.Scheduler.{
  compare_challenges, challenge_less, Challenge, same_challenge,
}

-- The challenges of a sorted list, less those that follow one of the same domain and type.
unfoldable pub distinct_from : Challenge → List Challenge → List Challenge
distinct_from x [] = x ∷ []
distinct_from x (y ∷ ys) = elim (same_challenge x y) [
  | true ↦ distinct_from x ys
  | false ↦ x ∷ distinct_from y ys
]

pub distinct_from_same :
    (x y : Challenge) (ys : List Challenge)
    → same_challenge x y ≡ true
    → distinct_from x (y ∷ ys) ≡ distinct_from x ys
unfolding distinct_from
distinct_from_same x y ys h = rw (h, distinct_from)

pub distinct_from_ne :
    (x y : Challenge) (ys : List Challenge)
    → same_challenge x y ≡ false
    → distinct_from x (y ∷ ys) ≡ x ∷ distinct_from y ys
unfolding distinct_from
distinct_from_ne x y ys h = rw (h, distinct_from)

unfoldable pub distinct : List Challenge → List Challenge
unfolding distinct_from
distinct [] = []
distinct (x ∷ xs) = distinct_from x xs

-- What `distinct_from` keeps of a property of all.
distinct_from-All :
    (P : Challenge → Type 0) (x : Challenge) (xs : List Challenge)
    → P x
    → All P xs
    → All P (distinct_from x xs)
unfolding distinct_from
distinct_from-All P x [] p h = (p, tt)
distinct_from-All P x (y ∷ ys) p h = elim (Bool-cases (same_challenge x y)) [
  | inl same ↦ rw (same, distinct_from) (distinct_from-All P x ys p h.1)
  | inr differ ↦ rw (differ, distinct_from) (p, distinct_from-All P y ys h.0 h.1)
]

pub distinct-All : (P : Challenge → Type 0) (xs : List Challenge) → All P xs → All P (distinct xs)
unfolding distinct
distinct-All P [] h = tt
distinct-All P (x ∷ xs) h = distinct_from-All P x xs h.0 h.1

-- Of a sorted list: an earlier challenge that is kept is for another domain or type than a later.
distinct_from-AllPairs :
    (x : Challenge) (xs : List Challenge)
    → IsSorted challenge_less (x ∷ xs)
    → AllPairs (λ a b. compare_challenges a b ≡ Ordering.lt) (distinct_from x xs)
unfolding distinct_from
distinct_from-AllPairs x [] h = (tt, tt)
distinct_from-AllPairs x (y ∷ ys) h = elim (Bool-cases (same_challenge x y)) [
  | inl same ↦ rw (same, distinct_from) (distinct_from-AllPairs x ys (h.0.1, h.1.1))
  | inr differ ↦
      rw (differ, distinct_from)
        (
          distinct_from-All (λ b. compare_challenges x b ≡ Ordering.lt) y ys
              (compare_lt_of_ne x y differ h.0.0)
              (All-map ys (λ z k. compare_lt_trans x y z (compare_lt_of_ne x y differ h.0.0) k)
                h.1.0),
          distinct_from-AllPairs y ys h.1,
        )
]

-- `z` stands for `y` among the kept ones: it is for the same domain and type, and no younger.
pub record StandsFor (kept : List Challenge) (y : Challenge) : Type 0 where
  pub representative : Challenge
  pub kept_one : Memᴰ representative kept
  pub same_key : same_challenge representative y ≡ true
  pub older : representative.creation_timestamp ≤ y.creation_timestamp

pub StandsFor-mono :
    {xs ys : List Challenge} {y : Challenge}
    → ((z : Challenge) → Memᴰ z xs → Memᴰ z ys)
    → StandsFor xs y
    → StandsFor ys y
StandsFor-mono f s = record {
  representative = s.representative;
  kept_one = f s.representative s.kept_one;
  same_key = s.same_key;
  older = s.older;
}

distinct_from-head : (x : Challenge) (xs : List Challenge) → Memᴰ x (distinct_from x xs)
unfolding distinct_from
distinct_from-head x [] = Memᴰ.head refl
distinct_from-head x (y ∷ ys) = elim (Bool-cases (same_challenge x y)) [
  | inl same ↦ rw (same, distinct_from) (distinct_from-head x ys)
  | inr differ ↦ rw (differ, distinct_from) (Memᴰ.head refl)
]

distinct_from-StandsFor :
    (x : Challenge) (xs : List Challenge)
    → IsSorted challenge_less (x ∷ xs)
    → All (StandsFor (distinct_from x xs)) (x ∷ xs)
distinct_from-StandsFor x [] h =
    unfold distinct_from in
    (
      record {
        representative = x;
        kept_one = Memᴰ.head refl;
        same_key = same_challenge_refl x;
        older = omega arith;
      },
      tt,
    )
distinct_from-StandsFor x (y ∷ ys) h = elim (Bool-cases (same_challenge x y)) [
  | inl same ↦
      let rest = distinct_from-StandsFor x ys (h.0.1, h.1.1) in
      subst (λ l. All (StandsFor l) (x ∷ y ∷ ys)) (sym (distinct_from_same x y ys same))
        (
          rest.0,
          (
            record {
              representative = x;
              kept_one = distinct_from-head x ys;
              same_key = same;
              older = older_of_same x y same h.0.0;
            },
            rest.1,
          ),
        )
  | inr differ ↦
      subst (λ l. All (StandsFor l) (x ∷ y ∷ ys)) (sym (distinct_from_ne x y ys differ))
        (
          record {
            representative = x;
            kept_one = Memᴰ.head refl;
            same_key = same_challenge_refl x;
            older = omega arith;
          },
          All-map (y ∷ ys) (λ z s. StandsFor-mono (λ w m. Memᴰ.tail m) s)
              (distinct_from-StandsFor y ys h.1),
        )
]

-- Of a sorted list, no two kept challenges are for one domain and type, and each challenge has a
-- kept one that stands for it.
pub distinct-AllPairs :
    (xs : List Challenge)
    → IsSorted challenge_less xs
    → AllPairs (λ a b. same_challenge a b ≡ false) (distinct xs)
unfolding distinct
distinct-AllPairs [] h = tt
distinct-AllPairs (x ∷ xs) h =
    AllPairs-map (distinct_from x xs) ne_of_compare_lt (distinct_from-AllPairs x xs h)

pub distinct-StandsFor :
    (xs : List Challenge) → IsSorted challenge_less xs → All (StandsFor (distinct xs)) xs
unfolding distinct
distinct-StandsFor [] h = tt
distinct-StandsFor (x ∷ xs) h = distinct_from-StandsFor x xs h
