-- ===== src/Challenges/Dedupe.antt =====
-- The in-place deduplication of dedupeChallenges in
-- pkg/controller/acmechallenges/scheduler/scheduler.go.
use cert_manager.Common.{
  ℕ, suc, ◌-◌, ◌≡◌, refl, ap, sym, true, false, ◌∙◌, inl, inr, List, [], ◌∷◌, ◌++◌, arith, eqb,
  length, take, get_elem?, set, some, Bool-cases, length-append, take-length-append,
  get_elem?-append, set-append,
}
use mathlib.Core.List.{append_assoc}
use cert_manager.Challenges.Scheduler.{
  Challenge, same_challenge, dedupe_loop, dedupe_sorted, same_at?, swap, swap?,
}
use cert_manager.Challenges.Distinct.{distinct_from, distinct}

-- The array in the loop: what is kept, the last one kept, what is dropped, what is to come.
abbrev array : List Challenge → Challenge → List Challenge → List Challenge → List Challenge
array kept x dropped rest = (kept ++ x ∷ dropped) ++ rest

get_at :
    (xs : List Challenge) (y : Challenge) (ys : List Challenge) (i : ℕ)
    → i ≡ length xs
    → get_elem? (xs ++ y ∷ ys) i ≡ some y
get_at xs y ys i h = rw h (get_elem?-append xs y ys)

set_at :
    (xs : List Challenge) (y z : Challenge) (ys : List Challenge) (i : ℕ)
    → i ≡ length xs
    → set (xs ++ y ∷ ys) i z ≡ xs ++ z ∷ ys
set_at xs y z ys i h = rw h (set-append xs y z ys)

read_kept :
    (kept : List Challenge) (x : Challenge) (dropped rest : List Challenge) (j : ℕ)
    → j ≡ length kept
    → get_elem? (array kept x dropped rest) j ≡ some x
read_kept kept x dropped rest j h = rw append_assoc (get_at kept x (dropped ++ rest) j h)

-- What is dropped after a swap.
rotate : List Challenge → List Challenge
rotate [] = []
rotate (d ∷ ds) = ds ++ d ∷ []

length-rotate : (ds : List Challenge) → length (rotate ds) ≡ length ds
unfolding rotate
length-rotate [] = refl
length-rotate (d ∷ ds) = omega (arith, length-append ds (d ∷ []))

-- The array with the first dropped one in front.
regroup :
    (kept : List Challenge) (x d : Challenge) (ds : List Challenge) (rest : List Challenge)
    → (kept ++ x ∷ d ∷ ds) ++ rest ≡ (kept ++ x ∷ []) ++ d ∷ (ds ++ rest)
regroup kept x d ds rest = simp append_assoc

swap-array :
    (kept : List Challenge) (x : Challenge) (dropped : List Challenge) (y : Challenge)
    (ys : List Challenge) (i j : ℕ)
    → j ≡ length kept
    → i ≡ length (kept ++ x ∷ dropped)
    → swap (array kept x dropped (y ∷ ys)) i (suc j) ≡ array (kept ++ x ∷ []) y (rotate dropped) ys
unfolding swap swap? rotate
swap-array kept x [] y ys i j hj hi =
    let hs : suc j ≡ length (kept ++ x ∷ []) = omega (arith, length-append kept (x ∷ [])) in
    rw (get_at (kept ++ x ∷ []) y ys i hi) (
      rw (get_at (kept ++ x ∷ []) y ys (suc j) hs) (
        rw (set_at (kept ++ x ∷ []) y y ys i hi)
          (rw (set_at (kept ++ x ∷ []) y y ys (suc j) hs) (simp append_assoc))))
swap-array kept x (d ∷ ds) y ys i j hj hi =
    let hs : suc j ≡ length (kept ++ x ∷ []) = omega (arith, length-append kept (x ∷ [])) in
    rw (get_at (kept ++ x ∷ d ∷ ds) y ys i hi) (
      rw
        (ap (λ zs. get_elem? zs (suc j)) (regroup kept x d ds (y ∷ ys))
          ∙ get_at (kept ++ x ∷ []) d (ds ++ y ∷ ys) (suc j) hs)
        (rw (set_at (kept ++ x ∷ d ∷ ds) y d ys i hi) (
          rw regroup
            (rw (set_at (kept ++ x ∷ []) d y (ds ++ d ∷ ys) (suc j) hs) (simp append_assoc)))))

take_kept :
    (kept : List Challenge) (x : Challenge) (zs : List Challenge) (j : ℕ)
    → j ≡ length kept
    → take (suc j) (kept ++ x ∷ zs) ≡ kept ++ x ∷ []
take_kept kept x zs j h =
    let e : suc j ≡ length (kept ++ x ∷ []) = omega (arith, length-append kept (x ∷ [])) in
    rw e (
      ap (take (length (kept ++ x ∷ []))) (sym (append_assoc kept (x ∷ []) zs))
      ∙ take-length-append (kept ++ x ∷ []) zs)

-- What the loop leaves in front of its last index.
abbrev front : List Challenge × ℕ → List Challenge
front (ys, j) = take (suc j) ys

-- One round, by the answer of its test.
round_same :
    (r i j : ℕ) (xs : List Challenge)
    → same_at? (get_elem? xs j) (get_elem? xs i) ≡ true
    → dedupe_loop (suc r) i j xs ≡ dedupe_loop r (suc i) j xs
unfolding dedupe_loop
round_same r i j xs h = rw (h, dedupe_loop)

round_differ :
    (r i j : ℕ) (xs : List Challenge)
    → same_at? (get_elem? xs j) (get_elem? xs i) ≡ false
    → dedupe_loop (suc r) i j xs ≡ dedupe_loop r (suc i) (suc j) (swap xs i (suc j))
unfolding dedupe_loop
round_differ r i j xs h = rw (h, dedupe_loop)

dedupe_loop_lem :
    (rest kept : List Challenge) (x : Challenge) (dropped : List Challenge) (i j : ℕ)
    → j ≡ length kept
    → i ≡ length (kept ++ x ∷ dropped)
    → front (dedupe_loop (length rest) i j (array kept x dropped rest))
      ≡ kept ++ distinct_from x rest
unfolding dedupe_loop distinct_from
dedupe_loop_lem [] kept x dropped i j hj hi =
    rw append_assoc (take_kept kept x (dropped ++ []) j hj)
dedupe_loop_lem (y ∷ ys) kept x dropped i j hj hi =
    let next : suc i ≡ length (kept ++ x ∷ (dropped ++ y ∷ [])) = omega (
      arith,
      length-append kept (x ∷ dropped),
      length-append kept (x ∷ (dropped ++ y ∷ [])),
      length-append dropped (y ∷ []),
    ) in
    let after : suc i ≡ length ((kept ++ x ∷ []) ++ y ∷ rotate dropped) = omega (
      arith,
      length-append kept (x ∷ dropped),
      length-append kept (x ∷ []),
      length-append (kept ++ x ∷ []) (y ∷ rotate dropped),
      length-rotate dropped,
    ) in
    let further : suc j ≡ length (kept ++ x ∷ []) = omega (arith, length-append kept (x ∷ [])) in
    let test : same_at? (get_elem? (array kept x dropped (y ∷ ys)) j)
          (get_elem? (array kept x dropped (y ∷ ys)) i)
        ≡ same_challenge x y =
      rw (read_kept kept x dropped (y ∷ ys) j hj, get_at (kept ++ x ∷ dropped) y ys i hi) in
    elim (Bool-cases (same_challenge x y)) [
      | inl same ↦
          rw (round_same (length ys) i j _ (test ∙ same), same, distinct_from)
            (ap (λ zs. front (dedupe_loop (length ys) (suc i) j zs)) (simp append_assoc)
              ∙ dedupe_loop_lem ys kept x (dropped ++ y ∷ []) (suc i) j hj next)
      | inr differ ↦
          rw
            (
              round_differ (length ys) i j _ (test ∙ differ),
              differ,
              distinct_from,
              swap-array kept x dropped y ys i j hj hi,
            )
            (dedupe_loop_lem ys (kept ++ x ∷ []) y (rotate dropped) (suc i) (suc j) further after
              ∙ append_assoc kept (x ∷ []) (distinct_from y ys))
    ]

-- The loop over the sorted array leaves what a plain pass over the sorted list keeps.
pub dedupe_sorted-eq-distinct : (xs : List Challenge) → dedupe_sorted xs ≡ distinct xs
unfolding dedupe_sorted distinct
dedupe_sorted-eq-distinct [] = refl
dedupe_sorted-eq-distinct (x ∷ xs) =
    let rounds : length (x ∷ xs) - 1 ≡ length xs = omega arith in
    let filled : eqb (length (x ∷ xs)) 0 ≡ false = ground arith in
    rw (rounds, filled, dedupe_sorted) (dedupe_loop_lem xs [] x [] 1 0 refl refl)
