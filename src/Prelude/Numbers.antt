-- ===== src/Prelude/Numbers.antt =====
-- What the code takes from the interpreter and from numpy: doubles, and the order of a set.
use Prim.Native.Nat.{ℕ, ◌+◌, ◌≤◌}
use Prim.Native.String.{String}
use mathlib.Core.Path.{◌≡◌}
use mathlib.Core.Logic.{◌⊎◌, ◌↔◌}
use mathlib.Core.Bool.{Bool, true, not}
use ipa_arman.Prelude.Tests.{◌==◌}
use mathlib.Core.List.{List, Mem, Nodup, foldl}

-- `F` is the type of the doubles; an int is carried into it by `of_ℕ`. The last two fields list a
-- set of strings and a set of doubles, in an order that the language leaves open.
pub record Runtime (F : Type 0) : Type 0 where
  pub of_ℕ : ℕ → F
  pub add : F → F → F
  pub sub : F → F → F
  pub mul : F → F → F
  pub div : F → F → F
  pub lt : F → F → Bool
  pub le : F → F → Bool
  pub eq : F → F → Bool
  pub set_names : List String → List String
  pub set_numbers : List F → List F

-- Documented behaviour of doubles that are not NaN: comparisons are those of a total order, and
-- rounding keeps the order of sums and of products with a number that is not negative.
pub record IsOrdered (F : Type 0) ⦃r : Runtime F⦄ : Type 0 where
  pub le_refl : (x : F) → r.le x x ≡ true
  pub le_trans : (x y z : F) → r.le x y ≡ true → r.le y z ≡ true → r.le x z ≡ true
  pub le_total : (x y : F) → (r.le x y ≡ true) ⊎ (r.le y x ≡ true)
  pub lt-eq-not-le : (x y : F) → r.lt x y ≡ not (r.le y x)
  pub eq_iff_le : (x y : F) → (r.eq x y ≡ true) ↔ ((r.le x y ≡ true) × (r.le y x ≡ true))
  pub of_ℕ_mono : (m n : ℕ) → m ≤ n → r.le (r.of_ℕ m) (r.of_ℕ n) ≡ true
  pub mul_mono :
      (x y z : F) → r.le (r.of_ℕ 0) x ≡ true → r.le y z ≡ true → r.le (r.mul x y) (r.mul x z) ≡ true

-- Documented behaviour of doubles that are finite: integers are added and compared exactly, and zero
-- and one are neutral.
pub record IsExact (F : Type 0) ⦃r : Runtime F⦄ : Type 0 where
  pub eq-of_ℕ : (m n : ℕ) → r.eq (r.of_ℕ m) (r.of_ℕ n) ≡ (m == n)
  pub add-of_ℕ : (m n : ℕ) → r.add (r.of_ℕ m) (r.of_ℕ n) ≡ r.of_ℕ (m + n)
  pub add_zero : (x : F) → r.add x (r.of_ℕ 0) ≡ x
  pub mul_one : (x : F) → r.mul x (r.of_ℕ 1) ≡ x
  pub mul_zero : (x : F) → r.mul x (r.of_ℕ 0) ≡ r.of_ℕ 0

-- A set lists each of its members, and each once.
pub record ListsSets (F : Type 0) ⦃r : Runtime F⦄ : Type 0 where
  pub names_once : (xs : List String) → Nodup (r.set_names xs)
  pub names_same : (xs : List String) (x : String) → Mem x (r.set_names xs) ↔ Mem x xs

-- Python's `sum`, which starts at 0.

module _ {F : Type 0} ⦃r : Runtime F⦄ where
  unfoldable pub sum : List F → F
  sum xs = foldl r.add (r.of_ℕ 0) xs
