-- ===== src/Examples/Scheduling.antt =====
-- Runs of the challenge scheduler.
use cert_manager.Common.{
  ℕ, ◌+◌, ◌-◌, ◌≤◌, String, ◌≡◌, ◌≢◌, refl, sym, ◌∙◌, Bool, true, false, List, [], ◌∷◌, ◌==◌,
  eq_refl, arith, All, length, min, max, false≢true, ◌⊎◌,
}
use mathlib.Core.List.{Memᴰ}
use cert_manager.Common.Bytes.{bytes_lt}
use cert_manager.Common.Pairs.{AllPairs}
use cert_manager.Challenges.Scheduler.{
  Challenge, schedule_n, run_scheduler, processing_challenges, filter_challenges, is_final_state,
  is_failure_state, same_challenge, compare_challenges, dedupe_sorted, timestamp_less,
}
use cert_manager.Challenges.Runs.{IsConsistent, run_scheduler-IsConsistent}
use cert_manager.Challenges.Schedule.{schedule_n_sound, schedule_n_bound, schedule_n_fair}
use cert_manager.Challenges.Candidates.{MayStart}
use cert_manager.Challenges.Selection.{NotSame}
use cert_manager.Challenges.Dedupe.{dedupe_sorted-eq-distinct}
use cert_manager.Challenges.Distinct.{distinct}
use cert_manager.Common.Order.{IsSorted}
use cert_manager.Examples.Sorting.{insertion_sorter}

differ : (s t : String) → (s == t) ≡ false → s ≢ t
differ s t h e = false≢true (sym h ∙ rw e (eq_refl t))

-- One challenge that is being presented, two for another domain and one that is over.
abbrev challenge : String → ℕ → ℕ → Bool → String → Challenge
challenge name at domain processing state = record {
  name = name;
  creation_timestamp = at;
  dns_name = domain ∷ [];
  type = 100 ∷ [];
  processing = processing;
  state = state;
}

abbrev running : Challenge
running = challenge "a" 5 97 true "pending"

abbrev waiting : Challenge
waiting = challenge "b" 3 98 false "pending"

abbrev twin : Challenge
twin = challenge "c" 4 98 false ""

abbrev over : Challenge
over = challenge "d" 1 99 false "valid"

abbrev store : List Challenge
store = running ∷ waiting ∷ twin ∷ over ∷ []

store-IsConsistent : IsConsistent 2 store
unfolding processing_challenges filter_challenges
store-IsConsistent = record {
  unique = (
    (differ "a" "b" refl, (differ "a" "c" refl, (differ "a" "d" refl, tt))),
    ((differ "b" "c" refl, (differ "b" "d" refl, tt)), ((differ "c" "d" refl, tt), (tt, tt))),
  );
  exclusive = (tt, tt);
  bounded = omega arith;
}

run_scheduler-IsConsistent_example :
    IsConsistent 2 (run_scheduler insertion_sorter 2 20 (true ∷ true ∷ []) store)
run_scheduler-IsConsistent_example =
    run_scheduler-IsConsistent insertion_sorter 2 20 (true ∷ true ∷ []) store store-IsConsistent

schedule_n_bound_example :
    (length (schedule_n insertion_sorter 2 20 store) ≤ 20)
    × (length (schedule_n insertion_sorter 2 20 store) + length (processing_challenges store)
        ≤ max 2 (length (processing_challenges store)))
schedule_n_bound_example = schedule_n_bound insertion_sorter 2 20 store

dedupe_sorted-eq-distinct_example :
    dedupe_sorted (waiting ∷ twin ∷ over ∷ []) ≡ distinct (waiting ∷ twin ∷ over ∷ [])
dedupe_sorted-eq-distinct_example = dedupe_sorted-eq-distinct (waiting ∷ twin ∷ over ∷ [])

schedule_n_sound_example :
    All (MayStart store) (schedule_n insertion_sorter 2 20 store)
    × AllPairs NotSame (schedule_n insertion_sorter 2 20 store)
    × IsSorted timestamp_less (schedule_n insertion_sorter 2 20 store)
schedule_n_sound_example = schedule_n_sound insertion_sorter 2 20 store

twin-MayStart : MayStart store twin
unfolding processing_challenges filter_challenges is_final_state is_failure_state same_challenge
    compare_challenges bytes_lt
twin-MayStart = record {
  open_one = record {
    known = Memᴰ.tail (Memᴰ.tail (Memᴰ.head refl));
    idle = refl;
    incomplete = refl;
  };
  free = (refl, tt);
}

schedule_n_fair_example :
    (r : Challenge) × (same_challenge r twin ≡ true)
    × (r.creation_timestamp ≤ 4)
    × (Memᴰ r (schedule_n insertion_sorter 2 20 store)
        ⊎ ((length (schedule_n insertion_sorter 2 20 store)
              ≡ min 20 (2 - length (processing_challenges store)))
            × All
                (λ s. s.creation_timestamp ≤ r.creation_timestamp)
                (schedule_n insertion_sorter 2 20 store)))
schedule_n_fair_example = schedule_n_fair insertion_sorter 2 20 store {ch = twin} twin-MayStart
