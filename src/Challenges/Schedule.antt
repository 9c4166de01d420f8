-- ===== src/Challenges/Schedule.antt =====
-- The promises of ScheduleN in pkg/controller/acmechallenges/scheduler/scheduler.go.
use cert_manager.Common.{
  ℕ, zero, suc, ◌+◌, ◌-◌, ◌≤◌, ◌≡◌, refl, sym, true, false, ◌⊎◌, inl, inr, List, [], ◌∷◌, arith,
  min, max, ltb, leb, length, take, All, Bool-cases, length-take, All-take,
}
use mathlib.Core.List.{Memᴰ}
use cert_manager.Common.Pairs.{AllPairs, AllPairs-take, All-mem}
use cert_manager.Common.Order.{Sorter, IsSorted}
use cert_manager.Challenges.Scheduler.{
  Challenge, same_challenge, timestamp_less, processing_challenges, schedule_n,
  select_challenges_to_schedule,
}
use cert_manager.Challenges.Selection.{NotSame}
use cert_manager.Challenges.Candidates.{
  MayStart, candidates, candidates-MayStart, candidates-AllPairs, candidates-IsSorted,
  candidates-StandsFor, determine-eq-candidates,
}

select-eq-take : (cs : List Challenge) (n : ℕ) → select_challenges_to_schedule cs n ≡ take n cs
unfolding select_challenges_to_schedule
select-eq-take cs n = elim (Bool-cases (ltb n (length cs))) [
  | inl e ↦ rw e
  | inr e ↦ rw e (sym (take_all n cs (ground arith)))
]
  where
    take_all : (n : ℕ) (cs : List Challenge) → length cs ≤ n → take n cs ≡ cs
    take_all zero [] h = refl
    take_all zero (c ∷ cs) h = absurd (omega arith)
    take_all (suc n) [] h = refl
    take_all (suc n) (c ∷ cs) h = rw (take_all n cs (omega arith))

module _ (sorter : Sorter Challenge) (max_concurrent n : ℕ) (store : List Challenge) where
  -- How many challenges this pass may start.
  abbrev pub room : ℕ
  room = min n (max_concurrent - length (processing_challenges store))

  abbrev scheduled : List Challenge
  scheduled = schedule_n sorter max_concurrent n store

  schedule_n-eq-take : scheduled ≡ take room (candidates sorter store)
  unfolding schedule_n
  schedule_n-eq-take =
      let busy = length (processing_challenges store) in
      elim (Bool-cases (leb max_concurrent busy)) [
        | inl full ↦
            let none_left : room ≡ 0 = ground arith in
            rw
              (determine-eq-candidates sorter store max_concurrent, full, select-eq-take, none_left)
        | inr free ↦ rw (determine-eq-candidates sorter store max_concurrent, free, select-eq-take)
      ]

  -- ScheduleN starts only challenges of the store that are neither processing nor in a final state
  -- and for whose domain and type no challenge is processing; no two of them are for one domain and
  -- type; and they are sorted by creation time.
  pub schedule_n_sound :
      All (MayStart store) scheduled
      × AllPairs NotSame scheduled
      × IsSorted timestamp_less scheduled
  schedule_n_sound = rw schedule_n-eq-take (
    All-take (MayStart store) room (candidates sorter store) (candidates-MayStart sorter store),
    AllPairs-take NotSame room (candidates sorter store) (candidates-AllPairs sorter store),
    AllPairs-take (λ a b. timestamp_less b a ≡ false) room (candidates sorter store)
        (candidates-IsSorted sorter store),
  )

  -- ScheduleN returns at most n challenges, and with those that are processing already they are at
  -- most the configured maximum; where more than the maximum are processing it returns none.
  pub schedule_n_bound :
      (length scheduled ≤ n)
      × (length scheduled + length (processing_challenges store)
          ≤ max max_concurrent (length (processing_challenges store)))
  schedule_n_bound = rw schedule_n-eq-take (
    omega (arith, length-take room (candidates sorter store)),
    omega (arith, length-take room (candidates sorter store)),
  )

  take_or_below :
      (k : ℕ) (cs : List Challenge) {r : Challenge}
      → IsSorted timestamp_less cs
      → Memᴰ r cs
      → Memᴰ r (take k cs)
        ⊎ ((length (take k cs) ≡ k)
            × All (λ s. s.creation_timestamp ≤ r.creation_timestamp) (take k cs))
  take_or_below zero cs h m = inr (refl, tt)
  take_or_below (suc k) [] h m = elim m [ ]
  take_or_below (suc k) (c ∷ cs) h (Memᴰ.head e) = inl (Memᴰ.head e)
  take_or_below (suc k) (c ∷ cs) {r} h (Memᴰ.tail m) = elim (take_or_below k cs h.1 m) [
    | inl kept ↦ inl (Memᴰ.tail kept)
    | inr (full, below) ↦ inr (
      omega arith,
      (
        unfold timestamp_less in ground (arith, All-mem (λ s. timestamp_less s c ≡ false) cs h.0 m),
        below,
      ),
    )
  ]

  -- No challenge that may be started is passed over for a younger one. For each of them there is a
  -- challenge of the same domain and type that is no younger and is either scheduled in this pass,
  -- or the pass is full and everything scheduled is no younger than that challenge.
  pub schedule_n_fair :
      {ch : Challenge}
      → MayStart store ch
      → (r : Challenge) × (same_challenge r ch ≡ true)
        × (r.creation_timestamp ≤ ch.creation_timestamp)
        × (Memᴰ r scheduled
            ⊎ ((length scheduled ≡ room)
                × All (λ s. s.creation_timestamp ≤ r.creation_timestamp) scheduled))
  schedule_n_fair h =
      let s = candidates-StandsFor sorter store h in
      (
        s.representative,
        s.same_key,
        s.older,
        rw schedule_n-eq-take (
            take_or_below room (candidates sorter store) (candidates-IsSorted sorter store)
              s.kept_one),
      )
