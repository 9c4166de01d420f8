-- ===== src/Challenges/Selection.antt =====
-- What scheduleN of pkg/controller/acmechallenges/scheduler/scheduler.go selects.
use cert_manager.Common.{
  ◌≡◌, refl, Bool, true, false, not, inl, inr, List, [], ◌∷◌, arith, any, All, Bool-cases,
}
use mathlib.Core.List.{Memᴰ}
use cert_manager.Common.Pairs.{AllPairs, All-map, All-of_mem}
use cert_manager.Challenges.Scheduler.{
  Challenge, same_challenge, is_final_state, filter_challenges, processing_challenges,
  not_processing_challenges, incomplete_challenges,
}

-- A filter keeps exactly the members that pass.
pub filter_challenges-All :
    (fn : Challenge → Bool) (P : Challenge → Type 0) (chs : List Challenge)
    → All P chs
    → All (λ ch. P ch × (fn ch ≡ true)) (filter_challenges fn chs)
unfolding filter_challenges
filter_challenges-All fn P [] h = tt
filter_challenges-All fn P (ch ∷ chs) h = elim (Bool-cases (fn ch)) [
  | inl e ↦ rw e ((h.0, e), filter_challenges-All fn P chs h.1)
  | inr e ↦ rw e (filter_challenges-All fn P chs h.1)
]

pub filter_challenges-AllPairs :
    (fn : Challenge → Bool) (R : Challenge → Challenge → Type 0) (chs : List Challenge)
    → AllPairs R chs
    → AllPairs R (filter_challenges fn chs)
unfolding filter_challenges
filter_challenges-AllPairs fn R [] h = tt
filter_challenges-AllPairs fn R (ch ∷ chs) h = elim (Bool-cases (fn ch)) [
  | inl e ↦ rw e (
    All-map (filter_challenges fn chs) (λ a p. p.0) (filter_challenges-All fn (R ch) chs h.0),
    filter_challenges-AllPairs fn R chs h.1,
  )
  | inr e ↦ rw e (filter_challenges-AllPairs fn R chs h.1)
]

pub filter_challenges-mem :
    (fn : Challenge → Bool) {ch : Challenge} (chs : List Challenge)
    → Memᴰ ch chs
    → fn ch ≡ true
    → Memᴰ ch (filter_challenges fn chs)
unfolding filter_challenges
filter_challenges-mem fn [] m h = elim m [ ]
filter_challenges-mem fn (c ∷ chs) (Memᴰ.head e) h = rw (← e, h) (Memᴰ.head refl)
filter_challenges-mem fn (c ∷ chs) (Memᴰ.tail m) h = elim (Bool-cases (fn c)) [
  | inl e ↦ rw e (Memᴰ.tail (filter_challenges-mem fn chs m h))
  | inr e ↦ rw e (filter_challenges-mem fn chs m h)
]

-- A challenge of the store that may be started: it is neither processing nor in a final state.
pub record IsIdle (store : List Challenge) (ch : Challenge) : Type 0 where
  pub known : Memᴰ ch store
  pub idle : ch.processing ≡ false
  pub incomplete : is_final_state ch.state ≡ false

abbrev pub NotSame : Challenge → Challenge → Type 0
NotSame a b = same_challenge a b ≡ false

members : (xs : List Challenge) → All (λ ch. Memᴰ ch xs) xs
members xs = All-of_mem (λ ch. Memᴰ ch xs) xs (λ a m. m)

unfoldable pub unfiltered : List Challenge → List Challenge
unfiltered store = not_processing_challenges (incomplete_challenges store)

pub unfiltered-IsIdle : (store : List Challenge) → All (IsIdle store) (unfiltered store)
unfolding unfiltered not_processing_challenges incomplete_challenges
unfiltered-IsIdle store =
    All-map (unfiltered store)
      (λ ch h. record {
        known = h.0.0;
        idle = ground (arith, h.1);
        incomplete = ground (arith, h.0.1);
      })
      (filter_challenges-All (λ ch. not ch.processing)
        (λ ch. Memᴰ ch store × (not (is_final_state ch.state) ≡ true)) (incomplete_challenges store)
        (filter_challenges-All (λ ch. not (is_final_state ch.state)) (λ ch. Memᴰ ch store) store
          (members store)))

pub IsIdle-mem :
    (store : List Challenge) {ch : Challenge} → IsIdle store ch → Memᴰ ch (unfiltered store)
unfolding unfiltered not_processing_challenges incomplete_challenges
IsIdle-mem store h =
    filter_challenges-mem (λ c. not c.processing) _
      (filter_challenges-mem (λ c. not (is_final_state c.state)) store h.known (rw h.incomplete))
      (rw h.idle)

-- No processing challenge is for the domain and type of `ch`.
abbrev pub IsFree : List Challenge → Challenge → Type 0
IsFree store ch = All (λ p. NotSame ch p) (processing_challenges store)

pub any_false→All :
    (ch : Challenge) (ps : List Challenge)
    → any (λ p. same_challenge ch p) ps ≡ false
    → All (λ p. NotSame ch p) ps
any_false→All ch [] h = tt
any_false→All ch (p ∷ ps) h = (ground arith, any_false→All ch ps (ground arith))

pub All→any_false :
    (ch : Challenge) (ps : List Challenge)
    → All (λ p. NotSame ch p) ps
    → any (λ p. same_challenge ch p) ps ≡ false
All→any_false ch [] h = refl
All→any_false ch (p ∷ ps) h = ground (arith, All→any_false ch ps h.1)
