-- ===== src/Challenges/Candidates.antt =====
-- What determineChallengeCandidates of pkg/controller/acmechallenges/scheduler/scheduler.go finds,
-- and what scheduleN makes of it.
use cert_manager.Common.{ℕ, ◌≡◌, refl, ◌∙◌, List, [], arith, leb, if◌then◌else◌, length, All}
use cert_manager.Common.Pairs.{
  AllPairs, AllPairs-perm, All-map, All-mem, All-perm, mem-perm, perm_symm,
}
use cert_manager.Common.Order.{Sorter, IsSorted}
use cert_manager.Challenges.Scheduler.{
  Challenge, challenge_less, timestamp_less, filter_challenges, processing_challenges,
  none_in_progress, dedupe_challenges, sort_challenges_by_timestamp, determine_challenge_candidates,
}
use cert_manager.Challenges.Keys.{
  challenge_less-IsStrictWeak, timestamp_less-IsStrictWeak, same_challenge_comm,
  same_challenge_trans,
}
use cert_manager.Challenges.Dedupe.{dedupe_sorted-eq-distinct}
use cert_manager.Challenges.Distinct.{
  distinct, distinct-All, distinct-AllPairs, distinct-StandsFor, StandsFor,
}
use cert_manager.Challenges.Selection.{
  IsIdle, IsFree, NotSame, unfiltered, unfiltered-IsIdle, IsIdle-mem, filter_challenges-All,
  filter_challenges-AllPairs, filter_challenges-mem, any_false→All, All→any_false,
}

-- What holds of a challenge that may be started.
pub record MayStart (store : List Challenge) (ch : Challenge) : Type 0 where
  pub open_one : IsIdle store ch
  pub free : IsFree store ch

module _ (sorter : Sorter Challenge) (store : List Challenge) where
  open sorter use {sort, sort-perm, sort-IsSorted}

  deduped : List Challenge
  deduped = dedupe_challenges sorter (unfiltered store)

  sorted : List Challenge
  sorted = sort challenge_less (unfiltered store)

  deduped-eq-distinct : deduped ≡ distinct sorted
  unfolding deduped sorted dedupe_challenges
  deduped-eq-distinct = dedupe_sorted-eq-distinct (sort challenge_less (unfiltered store))

  deduped-IsIdle : All (IsIdle store) deduped
  deduped-IsIdle = rw deduped-eq-distinct (
      unfold sorted in
      distinct-All (IsIdle store) (sort challenge_less (unfiltered store)) (
        All-perm (IsIdle store) (perm_symm (sort-perm challenge_less (unfiltered store)))
          (unfiltered-IsIdle store)))

  sorted-IsSorted : IsSorted challenge_less sorted
  unfolding sorted
  sorted-IsSorted = sort-IsSorted challenge_less (unfiltered store) challenge_less-IsStrictWeak

  deduped-AllPairs : AllPairs NotSame deduped
  deduped-AllPairs = rw deduped-eq-distinct (distinct-AllPairs sorted sorted-IsSorted)

  deduped-StandsFor : {ch : Challenge} → IsIdle store ch → StandsFor deduped ch
  deduped-StandsFor {ch} h = rw deduped-eq-distinct (
      All-mem (StandsFor (distinct sorted)) sorted (distinct-StandsFor sorted sorted-IsSorted) (
        unfold sorted in
        mem-perm (perm_symm (sort-perm challenge_less (unfiltered store))) (IsIdle-mem store h)))

  free_ones : List Challenge
  free_ones = filter_challenges (none_in_progress (processing_challenges store)) deduped

  pub candidates : List Challenge
  candidates = sort_challenges_by_timestamp sorter free_ones

  free_ones-MayStart : All (MayStart store) free_ones
  unfolding free_ones none_in_progress
  free_ones-MayStart =
      All-map free_ones
        (λ ch h. record {
          open_one = h.0;
          free = any_false→All ch (processing_challenges store) (ground (arith, h.1));
        })
        (filter_challenges-All (none_in_progress (processing_challenges store)) (IsIdle store)
          deduped deduped-IsIdle)

  -- Every candidate may be started, no two are for one domain and type, and they are sorted by age.
  pub candidates-MayStart : All (MayStart store) candidates
  unfolding candidates sort_challenges_by_timestamp
  candidates-MayStart =
      All-perm (MayStart store) (perm_symm (sort-perm timestamp_less free_ones)) free_ones-MayStart

  pub candidates-AllPairs : AllPairs NotSame candidates
  unfolding candidates sort_challenges_by_timestamp free_ones
  candidates-AllPairs =
      AllPairs-perm NotSame (λ a b h. same_challenge_comm b a ∙ h)
        (perm_symm (sort-perm timestamp_less free_ones))
        (filter_challenges-AllPairs (none_in_progress (processing_challenges store)) NotSame deduped
          deduped-AllPairs)

  pub candidates-IsSorted : IsSorted timestamp_less candidates
  unfolding candidates sort_challenges_by_timestamp
  candidates-IsSorted = sort-IsSorted timestamp_less free_ones timestamp_less-IsStrictWeak

  -- Every challenge that may be started has a candidate that stands for it.
  pub candidates-StandsFor : {ch : Challenge} → MayStart store ch → StandsFor candidates ch
  unfolding candidates sort_challenges_by_timestamp free_ones none_in_progress
  candidates-StandsFor {ch} h =
      let s = deduped-StandsFor h.open_one in
      let r = s.representative in
      let is_free : All (λ p. NotSame r p) (processing_challenges store) =
        All-map (processing_challenges store)
          (λ p n. ground (arith, same_challenge_trans r ch p s.same_key, n)) h.free in
      record {
        representative = r;
        kept_one = mem-perm (perm_symm (sort-perm timestamp_less free_ones)) (
            filter_challenges-mem (none_in_progress (processing_challenges store)) deduped
              s.kept_one (rw (All→any_false r (processing_challenges store) is_free)));
        same_key = s.same_key;
        older = s.older;
      }

  pub determine-eq-candidates :
      (max_concurrent : ℕ)
      → determine_challenge_candidates sorter max_concurrent store ≡ (
          if leb max_concurrent (length (processing_challenges store))
          then ([], length (processing_challenges store))
          else (candidates, length (processing_challenges store)))
  unfolding determine_challenge_candidates candidates free_ones deduped unfiltered
  determine-eq-candidates max_concurrent = refl
