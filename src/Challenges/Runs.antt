-- ===== src/Challenges/Runs.antt =====
-- What the passes of runScheduler in pkg/controller/acmechallenges/controller.go keep of the store.
use cert_manager.Common.{
  ℕ, ◌+◌, ◌≤◌, ◌≡◌, ◌≢◌, refl, sym, subst, ap, Bool, true, false, ◌∙◌, String, ◌==◌, eq_refl,
  ==_false, List, [], ◌∷◌, arith, length, All, Bool-cases, inl, inr,
}
use mathlib.Core.List.Permᴰ
use mathlib.Core.List.{Memᴰ, Permᴰ}
use cert_manager.Common.Pairs.{
  AllPairs, AllPairs-perm, All-map, All-both, All-mem, All-perm, perm_symm, length-perm,
}
use cert_manager.Common.Order.{Sorter}
use cert_manager.Challenges.Scheduler.{
  Challenge, same_challenge, processing_challenges, filter_challenges, mark_processing, start_all,
  schedule_n, run_scheduler,
}
use cert_manager.Challenges.Keys.{same_challenge_comm, same_challenge_refl}
use cert_manager.Challenges.Selection.{NotSame, IsFree}
use cert_manager.Challenges.Schedule.{schedule_n_sound, schedule_n_bound}

abbrev pub HasUniqueNames : List Challenge → Type 0
HasUniqueNames store = AllPairs (λ a b. a.name ≢ b.name) store

abbrev started : Challenge → Challenge
started ch = record ch { processing = true }

mark-none :
    (n : String) (xs : List Challenge) → All (λ b. n ≢ b.name) xs → mark_processing n xs ≡ xs
unfolding mark_processing
mark-none n [] h = refl
mark-none n (x ∷ xs) h = rw (==_false (λ e. h.0 (sym e)), mark-none n xs h.1)

mark-All :
    (P : String → Type 0) (n : String) (xs : List Challenge)
    → All (λ b. P b.name) xs
    → All (λ b. P b.name) (mark_processing n xs)
unfolding mark_processing
mark-All P n [] h = tt
mark-All P n (x ∷ xs) h = elim (Bool-cases (x.name == n)) [
  | inl e ↦ rw e (h.0, mark-All P n xs h.1)
  | inr e ↦ rw e (h.0, mark-All P n xs h.1)
]

mark-HasUniqueNames :
    (n : String) (xs : List Challenge) → HasUniqueNames xs → HasUniqueNames (mark_processing n xs)
unfolding mark_processing
mark-HasUniqueNames n [] h = tt
mark-HasUniqueNames n (x ∷ xs) h = elim (Bool-cases (x.name == n)) [
  | inl e ↦ rw e (mark-All (λ m. x.name ≢ m) n xs h.0, mark-HasUniqueNames n xs h.1)
  | inr e ↦ rw e (mark-All (λ m. x.name ≢ m) n xs h.0, mark-HasUniqueNames n xs h.1)
]

mark-mem :
    (n : String) {c : Challenge} (xs : List Challenge)
    → c.name ≢ n
    → Memᴰ c xs
    → Memᴰ c (mark_processing n xs)
unfolding mark_processing
mark-mem n [] h m = elim m [ ]
mark-mem n (x ∷ xs) h (Memᴰ.head e) = rw (← e, ==_false h) (Memᴰ.head refl)
mark-mem n (x ∷ xs) h (Memᴰ.tail m) = Memᴰ.tail (mark-mem n xs h m)

-- Starting a challenge adds it to those that are processing, and nothing else.
mark-perm :
    (ch : Challenge) (xs : List Challenge)
    → HasUniqueNames xs
    → ch.processing ≡ false
    → Memᴰ ch xs
    → Permᴰ
        (processing_challenges (mark_processing ch.name xs))
        (started ch ∷ processing_challenges xs)
unfolding mark_processing processing_challenges filter_challenges
mark-perm ch [] u h m = elim m [ ]
mark-perm ch (x ∷ xs) u h (Memᴰ.head e) =
    rw (← e, eq_refl, h)
      (rw (mark-none ch.name xs (subst (λ y. All (λ b. y.name ≢ b.name) xs) (sym e) u.0))
        (Permᴰ.refl (started ch ∷ processing_challenges xs)))
mark-perm ch (x ∷ xs) u h (Memᴰ.tail m) =
    let ne : x.name ≢ ch.name = All-mem (λ b. x.name ≢ b.name) xs u.0 m in
    let ih = mark-perm ch xs u.1 h m in
    rw (==_false ne) (elim (Bool-cases x.processing) [
      | inl e ↦ rw e (Permᴰ.trans (Permᴰ.cons refl ih) (Permᴰ.swap refl refl))
      | inr e ↦ rw e ih
    ])

-- The store between two passes: names are unique, no two processing challenges are for one domain
-- and type, and at most the configured number are processing.
pub record IsConsistent (max_concurrent : ℕ) (store : List Challenge) : Type 0 where
  pub unique : HasUniqueNames store
  pub exclusive : AllPairs NotSame (processing_challenges store)
  pub bounded : length (processing_challenges store) ≤ max_concurrent

-- What is left to start fits the store.
record CanRun (store : List Challenge) (ch : Challenge) : Type 0 where
  known : Memᴰ ch store
  idle : ch.processing ≡ false
  free : IsFree store ch

record IsPlan (max_concurrent : ℕ) (chs store : List Challenge) : Type 0 where
  each : All (CanRun store) chs
  distinct : AllPairs NotSame chs
  fits : length chs + length (processing_challenges store) ≤ max_concurrent

same_name_eq :
    (store : List Challenge) {a b : Challenge}
    → HasUniqueNames store
    → Memᴰ a store
    → Memᴰ b store
    → NotSame a b
    → b.name ≢ a.name
same_name_eq [] u m k d e = elim m [ ]
same_name_eq (x ∷ xs) {a} {b} u (Memᴰ.head p) (Memᴰ.head q) d e =
    cc (subst (λ (t : Challenge). same_challenge a t ≡ false) (q ∙ sym p) d, same_challenge_refl a)
same_name_eq (x ∷ xs) {a} {b} u (Memᴰ.head p) (Memᴰ.tail k) d e =
    All-mem (λ t. x.name ≢ t.name) xs u.0 k (ap (λ (t : Challenge). t.name) (sym p) ∙ sym e)
same_name_eq (x ∷ xs) {a} {b} u (Memᴰ.tail m) (Memᴰ.head q) d e =
    All-mem (λ t. x.name ≢ t.name) xs u.0 m (ap (λ (t : Challenge). t.name) (sym q) ∙ e)
same_name_eq (x ∷ xs) u (Memᴰ.tail m) (Memᴰ.tail k) d e = same_name_eq xs u.1 m k d e

NotSame-started : (c ch : Challenge) → NotSame ch c → NotSame c (started ch)
unfolding same_challenge
NotSame-started c ch h = unfold same_challenge in same_challenge_comm c ch ∙ h

start_one :
    (max_concurrent : ℕ) (ch : Challenge) (chs store : List Challenge)
    → IsConsistent max_concurrent store
    → IsPlan max_concurrent (ch ∷ chs) store
    → IsConsistent max_concurrent (mark_processing ch.name store)
      × IsPlan max_concurrent chs (mark_processing ch.name store)
unfolding same_challenge
start_one max_concurrent ch chs store c p =
    let p0 = p.each.0 in
    let moved = mark-perm ch store c.unique p0.idle p0.known in
    let grown = length-perm moved in
    (
      record {
        unique = mark-HasUniqueNames ch.name store c.unique;
        exclusive =
            AllPairs-perm NotSame (λ a b h. same_challenge_comm b a ∙ h) (perm_symm moved)
              (p0.free, c.exclusive);
        bounded = omega (arith, p.fits);
      },
      record {
        each =
            All-both chs
              (λ d q n. record {
                known =
                    mark-mem ch.name store (same_name_eq store c.unique p0.known q.known n) q.known;
                idle = q.idle;
                free = All-perm (NotSame d) (perm_symm moved) (NotSame-started d ch n, q.free);
              })
              p.each.1 p.distinct.0;
        distinct = p.distinct.1;
        fits = omega (arith, p.fits);
      },
    )

start_all-IsConsistent :
    (max_concurrent : ℕ) (chs : List Challenge) (outcomes : List Bool) (store : List Challenge)
    → IsConsistent max_concurrent store
    → IsPlan max_concurrent chs store
    → IsConsistent max_concurrent (start_all chs outcomes store)
unfolding start_all
start_all-IsConsistent m [] outcomes store c p = c
start_all-IsConsistent m (ch ∷ chs) [] store c p = c
start_all-IsConsistent m (ch ∷ chs) (false ∷ outcomes) store c p = c
start_all-IsConsistent m (ch ∷ chs) (true ∷ outcomes) store c p =
    let (c', p') = start_one m ch chs store c p in
    start_all-IsConsistent m chs outcomes (mark_processing ch.name store) c' p'

-- A pass of runScheduler, whichever of its status updates fail, keeps a store in which names are
-- unique, no two processing challenges are for one domain and type and at most the configured
-- maximum are processing.
pub run_scheduler-IsConsistent :
    (sorter : Sorter Challenge) (max_concurrent n : ℕ) (outcomes : List Bool)
    (store : List Challenge)
    → IsConsistent max_concurrent store
    → IsConsistent max_concurrent (run_scheduler sorter max_concurrent n outcomes store)
unfolding run_scheduler
run_scheduler-IsConsistent sorter max_concurrent n outcomes store c =
    let chosen = schedule_n sorter max_concurrent n store in
    let sound = schedule_n_sound sorter max_concurrent n store in
    start_all-IsConsistent max_concurrent chosen outcomes store c (record {
      each =
          All-map chosen
            (λ ch h. record { known = h.open_one.known; idle = h.open_one.idle; free = h.free })
            sound.0;
      distinct = sound.1;
      fits = omega (arith, schedule_n_bound sorter max_concurrent n store, c.bounded);
    })
