-- ===== src/Prelude/Lists.antt =====
-- Lists measured and indexed by native numbers, and the list functions of Python that the code uses.
use Prim.Native.Nat.{ℕ, zero, suc, ◌+◌}
use mathlib.Core.Path.{◌≡◌}
use mathlib.Core.Logic.{◌⊎◌}
use mathlib.Core.Bool.{Bool}
use mathlib.Core.Option.{Option, none, some}
use mathlib.Core.List.{List, [], ◌∷◌, ◌++◌}
use native.Mathlib.Omega.{arith}
use ipa_arman.Prelude.Tests.{if◌then◌else◌}

module _ {ℓ} {A : Type ℓ} where
  abbrev pub length : List A → ℕ
  length [] = 0
  length (x ∷ xs) = suc (length xs)

  abbrev pub get_elem? : List A → ℕ → Option A
  get_elem? [] i = none
  get_elem? (x ∷ xs) zero = some x
  get_elem? (x ∷ xs) (suc i) = get_elem? xs i

  -- `[x for x in xs if p x]`
  unfoldable pub keep : (A → Bool) → List A → List A
  keep p [] = []
  keep p (x ∷ xs) = let rest = keep p xs in if p x then x ∷ rest else rest

  -- `xs[a:b]`, for bounds that are not negative.
  unfoldable pub slice : ℕ → ℕ → List A → List A
  slice a b [] = []
  slice a zero (x ∷ xs) = []
  slice zero (suc b) (x ∷ xs) = x ∷ slice zero b xs
  slice (suc a) (suc b) (x ∷ xs) = slice a b xs

  -- `xs[-1]`
  unfoldable pub last? : List A → Option A
  last? [] = none
  last? (x ∷ []) = some x
  last? (x ∷ y ∷ ys) = last? (y ∷ ys)

  -- `sorted` and `list.sort`: items that are not told apart by `before` keep their order.
  unfoldable pub place : (A → A → Bool) → A → List A → List A
  place before x [] = x ∷ []
  place before x (y ∷ ys) =
      let rest = place before x ys in if before y x then y ∷ rest else x ∷ y ∷ ys

  unfoldable pub sort_by : (A → A → Bool) → List A → List A
  unfolding place
  sort_by before [] = []
  sort_by before (x ∷ xs) = place before x (sort_by before xs)

  pub length-append : (xs ys : List A) → length (xs ++ ys) ≡ length xs + length ys
  length-append [] ys = omega arith
  length-append (x ∷ xs) ys = omega (arith, length-append xs ys)

-- Nested loops: the lists that `f` gives for each item, one behind the other.
unfoldable pub for_each {ℓ κ} : {A : Type ℓ} {B : Type κ} → (A → List B) → List A → List B
for_each f [] = []
for_each f (x ∷ xs) = f x ++ for_each f xs

-- `range(a, a + n)`
unfoldable pub range_from : ℕ → ℕ → List ℕ
range_from a zero = []
range_from a (suc n) = a ∷ range_from (suc a) n

-- A property of every item, and membership, by recursion on the list.
abbrev pub All {ℓ κ} : {A : Type ℓ} → (A → Type κ) → List A → Type κ
All holds [] = Unit
All holds (a ∷ as_) = holds a × All holds as_

-- No item is a member of the empty list.
pub data Empty {ℓ} : Type ℓ where

abbrev pub Listed {ℓ} : {A : Type ℓ} → A → List A → Type ℓ
Listed a [] = Empty
Listed a (b ∷ bs) = (b ≡ a) ⊎ Listed a bs
