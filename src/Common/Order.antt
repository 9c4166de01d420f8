-- ===== src/Common/Order.antt =====
-- Strict weak orders as Boolean tests, and what Go's `sort.Slice` and `sort.SliceStable` promise
-- of them.
use Prim.Native.Nat.{ℕ}
use mathlib.Core.Path.{◌≡◌}
use mathlib.Core.Bool.{Bool, true, false}
use mathlib.Core.List.{List, Permᴰ}
use native.Mathlib.Omega.{arith}
use cert_manager.Common.Tests.{ltb, if◌then◌else◌}
use cert_manager.Common.Bytes.{Bytes, bytes_lt, bytes_lt_irrefl, bytes_lt_trans, bytes_eq}
use cert_manager.Common.Pairs.{AllPairs}

module _ {A : Type 0} where
  pub record IsStrictWeak (less : A → A → Bool) : Type 0 where
    pub irrefl : (a : A) → less a a ≡ false
    pub trans : (a b c : A) → less a b ≡ true → less b c ≡ true → less a c ≡ true
    pub cotrans : (a b c : A) → less a b ≡ false → less b c ≡ false → less a c ≡ false

  -- No member is below an earlier one.
  abbrev pub IsSorted : (A → A → Bool) → List A → Type 0
  IsSorted less xs = AllPairs (λ a b. less b a ≡ false) xs

  -- First by a text, then by another order.
  abbrev pub lex : (A → Bytes) → (A → A → Bool) → A → A → Bool
  lex key less a b =
      if bytes_lt (key a) (key b)
      then true
      else if bytes_lt (key b) (key a)
      then false
      else less a b

  pub lex-IsStrictWeak :
      (key : A → Bytes) (less : A → A → Bool) → IsStrictWeak less → IsStrictWeak (lex key less)
  lex-IsStrictWeak key less w = record {
    irrefl = λ a. ground (arith, bytes_lt_irrefl (key a), w.irrefl a);
    trans = λ a b c. ground (
      arith,
      bytes_lt_trans (key a) (key b) (key c),
      bytes_lt_trans (key c) (key a) (key b),
      bytes_lt_trans (key b) (key c) (key a),
      bytes_eq (key a) (key b),
      bytes_eq (key b) (key c),
      w.trans a b c,
    );
    cotrans = λ a b c. ground (
      arith,
      bytes_lt_trans (key a) (key c) (key b),
      bytes_lt_trans (key b) (key a) (key c),
      bytes_lt_trans (key c) (key b) (key a),
      bytes_eq (key a) (key b),
      bytes_eq (key b) (key c),
      w.cotrans a b c,
    );
  }

  pub by_number-IsStrictWeak : (key : A → ℕ) → IsStrictWeak (λ a b. ltb (key a) (key b))
  by_number-IsStrictWeak key = record {
    irrefl = λ a. ground arith;
    trans = λ a b c. ground arith;
    cotrans = λ a b c. ground arith;
  }

-- Go's package `sort` over the values of one type: for a strict weak order the result has the
-- same members, in order. Nothing is said of the order of members that are neither below the other.
pub record Sorter (A : Type 0) : Type 0 where
  pub sort : (A → A → Bool) → List A → List A
  pub sort-perm : (less : A → A → Bool) (xs : List A) → Permᴰ (sort less xs) xs
  pub sort-IsSorted :
      (less : A → A → Bool) (xs : List A) → IsStrictWeak less → IsSorted less (sort less xs)
