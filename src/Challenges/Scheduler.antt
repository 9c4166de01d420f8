-- ===== src/Challenges/Scheduler.antt =====
-- pkg/controller/acmechallenges/scheduler/scheduler.go, IsFinalState of pkg/acme and runScheduler of
-- pkg/controller/acmechallenges/controller.go. Texts that are ordered are lists of bytes; a creation
-- timestamp is a number of nanoseconds. Log lines and events are left out.
use cert_manager.Common.{
  ℕ, zero, suc, ◌-◌, String, Bool, true, false, not, ◌||◌, Option, some, List, [], ◌∷◌, Ordering,
  min, ltb, leb, eqb, ◌==◌, if◌then◌else◌, length, take, get_elem?, set, any,
}
use cert_manager.Common.Bytes.{Bytes, bytes_lt}
use cert_manager.Common.Order.{Sorter}

pub record Challenge : Type 0 where
  pub name : String
  pub creation_timestamp : ℕ
  pub dns_name : Bytes
  pub type : Bytes
  pub processing : Bool
  pub state : String

unfoldable pub is_failure_state : String → Bool
is_failure_state s = s == "invalid" || s == "expired" || s == "errored"

unfoldable pub is_final_state : String → Bool
unfolding is_failure_state
is_final_state s = if s == "valid" then true else is_failure_state s

-- -1, 0 and 1 are `lt`, `eq` and `gt`.
unfoldable pub compare_challenges : Challenge → Challenge → Ordering
compare_challenges l r =
    if bytes_lt l.dns_name r.dns_name
    then Ordering.lt
    else if bytes_lt r.dns_name l.dns_name
    then Ordering.gt
    else if bytes_lt l.type r.type
    then Ordering.lt
    else if bytes_lt r.type l.type
    then Ordering.gt
    else Ordering.eq

unfoldable pub same_challenge : Challenge → Challenge → Bool
unfolding compare_challenges
same_challenge a b = elim (compare_challenges a b) [ Ordering.eq ↦ true | _ ↦ false ]

unfoldable pub filter_challenges : (Challenge → Bool) → List Challenge → List Challenge
filter_challenges fn [] = []
filter_challenges fn (ch ∷ chs) =
    let ret = filter_challenges fn chs in if fn ch then ch ∷ ret else ret

unfoldable pub not_processing_challenges : List Challenge → List Challenge
not_processing_challenges = filter_challenges (λ ch. not ch.processing)

unfoldable pub processing_challenges : List Challenge → List Challenge
processing_challenges = filter_challenges (λ ch. ch.processing)

unfoldable pub incomplete_challenges : List Challenge → List Challenge
incomplete_challenges = filter_challenges (λ ch. not (is_final_state ch.state))

-- The `less` of sortChallenges and that of sortChallengesByTimestamp.
unfoldable pub challenge_less : Challenge → Challenge → Bool
unfolding compare_challenges
challenge_less a b = elim (compare_challenges a b) [
  | Ordering.lt ↦ true
  | Ordering.gt ↦ false
  | Ordering.eq ↦ ltb a.creation_timestamp b.creation_timestamp
]

unfoldable pub timestamp_less : Challenge → Challenge → Bool
timestamp_less a b = ltb a.creation_timestamp b.creation_timestamp

-- `compareChallenges(in[j], in[i]) == 0`; the indices are in range where the loop reads them.
unfoldable pub same_at? : Option Challenge → Option Challenge → Bool
unfolding same_challenge
same_at? (some a) (some b) = same_challenge a b
same_at? _ _ = false

-- `in[i], in[j] = in[j], in[i]`
unfoldable pub swap? : List Challenge → ℕ → ℕ → Option Challenge → Option Challenge → List Challenge
swap? xs i j (some a) (some b) = set (set xs i b) j a
swap? xs i j _ _ = xs

unfoldable pub swap : List Challenge → ℕ → ℕ → List Challenge
unfolding swap?
swap xs i j = swap? xs i j (get_elem? xs i) (get_elem? xs j)

-- The loop of dedupeChallenges, by the rounds that are left: the array and the last `j`.
unfoldable pub dedupe_loop : ℕ → (i j : ℕ) → List Challenge → List Challenge × ℕ
unfolding same_at? swap
dedupe_loop zero i j xs = (xs, j)
dedupe_loop (suc rounds) i j xs = elim (same_at? (get_elem? xs j) (get_elem? xs i)) [
  | true ↦ dedupe_loop rounds (suc i) j xs
  | false ↦ dedupe_loop rounds (suc i) (suc j) (swap xs i (suc j))
]

-- What dedupeChallenges does with the sorted array.
unfoldable pub dedupe_sorted : List Challenge → List Challenge
unfolding dedupe_loop
dedupe_sorted xs =
    let (ys, j) = dedupe_loop (length xs - 1) 1 0 xs in
    if eqb (length xs) 0 then xs else take (suc j) ys

-- The test of the last filter of determineChallengeCandidates.
unfoldable pub none_in_progress : List Challenge → Challenge → Bool
unfolding same_challenge
none_in_progress in_progress ch = not (any (λ p. same_challenge ch p) in_progress)

unfoldable pub select_challenges_to_schedule : List Challenge → ℕ → List Challenge
select_challenges_to_schedule candidates n =
    if ltb n (length candidates) then take n candidates else candidates

-- `updateStatus` in runScheduler, one outcome for each call, in order: the first failure ends the
-- loop. A challenge is named by its namespace and name.
unfoldable pub mark_processing : String → List Challenge → List Challenge
mark_processing name [] = []
mark_processing name (ch ∷ chs) =
    (if ch.name == name then record ch { processing = true } else ch) ∷ mark_processing name chs

unfoldable pub start_all : List Challenge → List Bool → List Challenge → List Challenge
unfolding mark_processing
start_all [] outcomes store = store
start_all (ch ∷ chs) [] store = store
start_all (ch ∷ chs) (false ∷ outcomes) store = store
start_all (ch ∷ chs) (true ∷ outcomes) store =
    start_all chs outcomes (mark_processing ch.name store)

-- The sort is Go's; `max_concurrent` is the scheduler's field.
module _ (sorter : Sorter Challenge) where
  open sorter use {sort}

  unfoldable pub sort_challenges : List Challenge → List Challenge
  sort_challenges chs = sort challenge_less chs

  unfoldable pub sort_challenges_by_timestamp : List Challenge → List Challenge
  sort_challenges_by_timestamp chs = sort timestamp_less chs

  unfoldable pub dedupe_challenges : List Challenge → List Challenge
  unfolding sort_challenges
  dedupe_challenges chs = dedupe_sorted (sort_challenges chs)

  unfoldable pub determine_challenge_candidates :
      (max_concurrent : ℕ) → List Challenge → List Challenge × ℕ
  unfolding sort_challenges_by_timestamp
  determine_challenge_candidates max_concurrent all =
      let in_progress = processing_challenges all in
      let deduped = dedupe_challenges (not_processing_challenges (incomplete_challenges all)) in
      let candidates = filter_challenges (none_in_progress in_progress) deduped in
      if leb max_concurrent (length in_progress)
      then ([], length in_progress)
      else (sort_challenges_by_timestamp candidates, length in_progress)

  unfoldable pub schedule_n : (max_concurrent n : ℕ) → List Challenge → List Challenge
  unfolding determine_challenge_candidates
  schedule_n max_concurrent n all =
      let (candidates, in_progress) = determine_challenge_candidates max_concurrent all in
      select_challenges_to_schedule candidates (min n (max_concurrent - in_progress))

  unfoldable pub run_scheduler :
      (max_concurrent n : ℕ) → (outcomes : List Bool) → List Challenge → List Challenge
  unfolding schedule_n
  run_scheduler max_concurrent n outcomes store =
      start_all (schedule_n max_concurrent n store) outcomes store
