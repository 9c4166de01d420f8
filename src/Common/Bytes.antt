-- ===== src/Common/Bytes.antt =====
-- Go's order on strings: bytewise, a proper prefix first. A text that is compared is a list of bytes.
use Prim.Native.Nat.{ℕ}
use mathlib.Core.Path.{◌≡◌, refl}
use mathlib.Core.Bool.{Bool, true, false}
use mathlib.Core.List.{List, [], ◌∷◌}
use native.Mathlib.Omega.{arith}
use cert_manager.Common.Tests.{ltb, if◌then◌else◌}

abbrev pub Bytes : Type 0
Bytes = List ℕ

unfoldable pub bytes_lt : Bytes → Bytes → Bool
bytes_lt a [] = false
bytes_lt [] (y ∷ ys) = true
bytes_lt (x ∷ xs) (y ∷ ys) =
    let rest = bytes_lt xs ys in if ltb x y then true else if ltb y x then false else rest

pub bytes_lt_irrefl : (a : Bytes) → bytes_lt a a ≡ false
unfolding bytes_lt
bytes_lt_irrefl [] = refl
bytes_lt_irrefl (x ∷ xs) = ground (arith, bytes_lt_irrefl xs)

pub bytes_lt_trans :
    (a b c : Bytes) → bytes_lt a b ≡ true → bytes_lt b c ≡ true → bytes_lt a c ≡ true
unfolding bytes_lt
bytes_lt_trans a [] c p q = cc
bytes_lt_trans a (y ∷ ys) [] p q = cc
bytes_lt_trans [] (y ∷ ys) (z ∷ zs) p q = refl
bytes_lt_trans (x ∷ xs) (y ∷ ys) (z ∷ zs) p q = ground (arith, bytes_lt_trans xs ys zs)

-- Two texts of which neither is below the other are equal.
pub bytes_eq : (a b : Bytes) → bytes_lt a b ≡ false → bytes_lt b a ≡ false → a ≡ b
unfolding bytes_lt
bytes_eq [] [] p q = refl
bytes_eq [] (y ∷ ys) p q = cc
bytes_eq (x ∷ xs) [] p q = cc
bytes_eq (x ∷ xs) (y ∷ ys) p q = ground (arith, bytes_eq xs ys)
