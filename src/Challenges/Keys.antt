-- ===== src/Challenges/Keys.antt =====
-- The order of compareChallenges and sortChallenges in
-- pkg/controller/acmechallenges/scheduler/scheduler.go.
use cert_manager.Common.{◌≤◌, sym, ◌∙◌, ◌≡◌, Bool, true, false, arith, ltb, Ordering}
use cert_manager.Common.Bytes.{bytes_eq, bytes_lt_irrefl, bytes_lt_trans}
use cert_manager.Common.Order.{IsStrictWeak, lex, lex-IsStrictWeak, by_number-IsStrictWeak}
use cert_manager.Challenges.Scheduler.{
  Challenge, compare_challenges, same_challenge, challenge_less, timestamp_less,
}

-- Two challenges for one domain and type.
pub record SameKey (a b : Challenge) : Type 0 where
  pub dns_name : a.dns_name ≡ b.dns_name
  pub type : a.type ≡ b.type

pub same_challenge→SameKey : (a b : Challenge) → same_challenge a b ≡ true → SameKey a b
unfolding same_challenge
same_challenge→SameKey a b h =
    ground (arith, bytes_eq a.dns_name b.dns_name, bytes_eq a.type b.type)

pub SameKey→same_challenge : (a b : Challenge) → SameKey a b → same_challenge a b ≡ true
unfolding same_challenge
SameKey→same_challenge a b k =
    ground (arith, k.dns_name, k.type, bytes_lt_irrefl b.dns_name, bytes_lt_irrefl b.type)

by_time : Challenge → Challenge → Bool
by_time a b = ltb a.creation_timestamp b.creation_timestamp

challenge_less-lex :
    (a b : Challenge) → lex (λ c. c.dns_name) (lex (λ c. c.type) by_time) a b ≡ challenge_less a b
unfolding challenge_less by_time
challenge_less-lex a b = ground arith

pub timestamp_less-IsStrictWeak : IsStrictWeak timestamp_less
unfolding timestamp_less
timestamp_less-IsStrictWeak = by_number-IsStrictWeak (λ c. c.creation_timestamp)

by_time-IsStrictWeak : IsStrictWeak by_time
unfolding by_time
by_time-IsStrictWeak = by_number-IsStrictWeak (λ c. c.creation_timestamp)

-- sortChallenges orders by domain, type and age.
pub challenge_less-IsStrictWeak : IsStrictWeak challenge_less
challenge_less-IsStrictWeak =
    let w =
      lex-IsStrictWeak (λ (c : Challenge). c.dns_name) (lex (λ c. c.type) by_time)
        (lex-IsStrictWeak (λ (c : Challenge). c.type) by_time by_time-IsStrictWeak) in
    record {
      irrefl = λ a. rw (← challenge_less-lex) (w.irrefl a);
      trans = λ a b c p q.
          rw (← challenge_less-lex)
            (w.trans a b c (rw challenge_less-lex p) (rw challenge_less-lex q));
      cotrans = λ a b c p q.
          rw (← challenge_less-lex)
            (w.cotrans a b c (rw challenge_less-lex p) (rw challenge_less-lex q));
    }

-- Of two neighbours in the sorted list, for different domains or types, the first is below.
pub compare_lt_of_ne :
    (x y : Challenge)
    → same_challenge x y ≡ false
    → challenge_less y x ≡ false
    → compare_challenges x y ≡ Ordering.lt
unfolding same_challenge challenge_less
compare_lt_of_ne x y h k = ground (
  arith,
  bytes_eq x.dns_name y.dns_name,
  bytes_eq x.type y.type,
  bytes_lt_irrefl x.dns_name,
  bytes_lt_irrefl y.dns_name,
  bytes_lt_irrefl x.type,
  bytes_lt_irrefl y.type,
)

pub compare_lt_trans :
    (x y z : Challenge)
    → compare_challenges x y ≡ Ordering.lt
    → challenge_less z y ≡ false
    → compare_challenges x z ≡ Ordering.lt
unfolding challenge_less
compare_lt_trans x y z h k = ground (
  arith,
  bytes_eq z.dns_name y.dns_name,
  bytes_eq z.type y.type,
  bytes_eq x.dns_name z.dns_name,
  bytes_eq x.dns_name y.dns_name,
  bytes_eq x.type z.type,
  bytes_lt_trans x.dns_name y.dns_name z.dns_name,
  bytes_lt_trans z.dns_name x.dns_name y.dns_name,
  bytes_lt_trans x.type y.type z.type,
  bytes_lt_trans z.type x.type y.type,
  bytes_lt_irrefl x.dns_name,
  bytes_lt_irrefl x.type,
)

pub older_of_same :
    (x y : Challenge)
    → same_challenge x y ≡ true
    → challenge_less y x ≡ false
    → x.creation_timestamp ≤ y.creation_timestamp
unfolding same_challenge challenge_less
older_of_same x y h k = ground (
  arith,
  bytes_eq x.dns_name y.dns_name,
  bytes_eq x.type y.type,
  bytes_lt_irrefl x.dns_name,
  bytes_lt_irrefl x.type,
)

pub same_challenge_refl : (x : Challenge) → same_challenge x x ≡ true
unfolding same_challenge
same_challenge_refl x = ground (arith, bytes_lt_irrefl x.dns_name, bytes_lt_irrefl x.type)

pub same_challenge_comm : (x y : Challenge) → same_challenge x y ≡ same_challenge y x
unfolding same_challenge
same_challenge_comm x y = ground arith

pub ne_of_compare_lt :
    (x y : Challenge) → compare_challenges x y ≡ Ordering.lt → same_challenge x y ≡ false
unfolding same_challenge
ne_of_compare_lt x y h = ground arith

-- Challenges for the key of a third are for one key.
pub same_challenge_trans :
    (a b c : Challenge)
    → same_challenge a b ≡ true
    → same_challenge a c ≡ true
    → same_challenge b c ≡ true
same_challenge_trans a b c h k =
    let p = same_challenge→SameKey a b h in
    let q = same_challenge→SameKey a c k in
    SameKey→same_challenge b c
      (record { dns_name = sym p.dns_name ∙ q.dns_name; type = sym p.type ∙ q.type })
