-- ===== src/Common/Pairs.antt =====
-- Predicates on the members and on the pairs of a list, and what a permutation does to them.
use Prim.Native.Nat.{ℕ, zero, suc}
use mathlib.Core.Path.{◌≡◌, refl, sym, ap, subst, ◌∙◌}
use mathlib.Core.List.Permᴰ
use mathlib.Core.List.{List, [], ◌∷◌, Memᴰ, Permᴰ}
use cert_manager.Common.Lists.{All, All-take, take, length}

module _ {ℓ κ} {A : Type ℓ} where
  -- `R` holds of each member and every later one.
  abbrev pub AllPairs : (A → A → Type κ) → List A → Type (ℓ ⊔ κ)
  AllPairs R [] = Unit
  AllPairs R (x ∷ xs) = All (R x) xs × AllPairs R xs

  pub All-map : {P Q : A → Type κ} (xs : List A) → ((a : A) → P a → Q a) → All P xs → All Q xs
  All-map [] f h = tt
  All-map (x ∷ xs) f h = (f x h.0, All-map xs f h.1)

  pub All-both :
      {P Q R : A → Type κ} (xs : List A)
      → ((a : A) → P a → Q a → R a)
      → All P xs
      → All Q xs
      → All R xs
  All-both [] f h k = tt
  All-both (x ∷ xs) f h k = (f x h.0 k.0, All-both xs f h.1 k.1)

  pub AllPairs-map :
      {R S : A → A → Type κ} (xs : List A)
      → ((a b : A) → R a b → S a b)
      → AllPairs R xs
      → AllPairs S xs
  AllPairs-map [] f h = tt
  AllPairs-map (x ∷ xs) f h = (All-map xs (f x) h.0, AllPairs-map xs f h.1)

  pub AllPairs-take :
      (R : A → A → Type κ) (n : ℕ) (xs : List A) → AllPairs R xs → AllPairs R (take n xs)
  AllPairs-take R zero xs h = tt
  AllPairs-take R (suc n) [] h = tt
  AllPairs-take R (suc n) (x ∷ xs) h = (All-take (R x) n xs h.0, AllPairs-take R n xs h.1)

  pub All-mem : (P : A → Type κ) {a : A} (xs : List A) → All P xs → Memᴰ a xs → P a
  All-mem P [] h m = elim m [ ]
  All-mem P (x ∷ xs) h (Memᴰ.head e) = subst P (sym e) h.0
  All-mem P (x ∷ xs) h (Memᴰ.tail m) = All-mem P xs h.1 m

  pub All-of_mem : (P : A → Type κ) (xs : List A) → ((a : A) → Memᴰ a xs → P a) → All P xs
  All-of_mem P [] f = tt
  All-of_mem P (x ∷ xs) f = (f x (Memᴰ.head refl), All-of_mem P xs (λ a m. f a (Memᴰ.tail m)))

  pub All-perm : (P : A → Type κ) {xs ys : List A} → Permᴰ xs ys → All P xs → All P ys
  All-perm P Permᴰ.nil h = tt
  All-perm P (Permᴰ.cons e p) h = (subst P e h.0, All-perm P p h.1)
  All-perm P (Permᴰ.swap e f) h = (subst P f h.1.0, (subst P e h.0, h.1.1))
  All-perm P (Permᴰ.trans p q) h = All-perm P q (All-perm P p h)

  pub AllPairs-perm :
      (R : A → A → Type κ) {xs ys : List A}
      → ((a b : A) → R a b → R b a)
      → Permᴰ xs ys
      → AllPairs R xs
      → AllPairs R ys
  AllPairs-perm R sy Permᴰ.nil h = tt
  AllPairs-perm R sy (Permᴰ.cons {b = b} {l₂ = l} e p) h =
      (subst (λ t. All (R t) l) e (All-perm (R _) p h.0), AllPairs-perm R sy p h.1)
  AllPairs-perm R sy (Permᴰ.swap {a = a} {b = b} {a' = a'} {b' = b'} {l = l} e f) h = (
    (subst (λ t. R t b') f (subst (λ t. R b t) e (sy a b h.0.0)), subst (λ t. All (R t) l) f h.1.0),
    (subst (λ t. All (R t) l) e h.0.1, h.1.1),
  )
  AllPairs-perm R sy (Permᴰ.trans p q) h = AllPairs-perm R sy q (AllPairs-perm R sy p h)

module _ {ℓ} {A : Type ℓ} where
  pub mem-perm : {a : A} {xs ys : List A} → Permᴰ xs ys → Memᴰ a xs → Memᴰ a ys
  mem-perm Permᴰ.nil m = m
  mem-perm (Permᴰ.cons e p) (Memᴰ.head h) = Memᴰ.head (h ∙ e)
  mem-perm (Permᴰ.cons e p) (Memᴰ.tail m) = Memᴰ.tail (mem-perm p m)
  mem-perm (Permᴰ.swap e f) (Memᴰ.head h) = Memᴰ.tail (Memᴰ.head (h ∙ e))
  mem-perm (Permᴰ.swap e f) (Memᴰ.tail (Memᴰ.head h)) = Memᴰ.head (h ∙ f)
  mem-perm (Permᴰ.swap e f) (Memᴰ.tail (Memᴰ.tail m)) = Memᴰ.tail (Memᴰ.tail m)
  mem-perm (Permᴰ.trans p q) m = mem-perm q (mem-perm p m)

  pub perm_symm : {xs ys : List A} → Permᴰ xs ys → Permᴰ ys xs
  perm_symm p = Permᴰ.symm p

  pub length-perm : {xs ys : List A} → Permᴰ xs ys → length xs ≡ length ys
  length-perm Permᴰ.nil = refl
  length-perm (Permᴰ.cons e p) = ap suc (length-perm p)
  length-perm (Permᴰ.swap e f) = refl
  length-perm (Permᴰ.trans p q) = length-perm p ∙ length-perm q
