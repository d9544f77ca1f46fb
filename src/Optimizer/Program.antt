-- ===== src/Optimizer/Program.antt =====
-- optimizer/optimizer.py: the integer program that `gurobi_optmizer` hands to the solver, as data, and
-- what its constraints say of the values of its variables.
pub mod Build
pub mod Goal
pub mod Encoding
pub mod Turns
pub mod Refined
pub mod Latency
pub mod RoundTrip
pub mod Pool
pub mod Tests
pub mod Decode
pub mod Gurobi
use ipa_arman.Prelude.{
  ℕ, String, Bool, true, false, ◌&&◌, Option, List, [], ◌∷◌, if◌then◌else◌, Conversions, Runtime,
  join,
}

-- The variables, by the keys that the code indexes them with.
pub data Variable : Type 0 where
  var_i : String → String → Variable
  var_b : String → ℕ → Variable
  var_aux : String → String → ℕ → Variable
  var_n : String → Variable
  var_comb : List String → Variable
  var_accuracy : Variable

-- The type of a variable, with its bounds where it is not binary.
pub data Kind : Type 0 where
  binary : Kind
  integer : ℕ → ℕ → Kind
  continuous : ℕ → ℕ → Kind

-- An expression over the variables. `over` divides by a number.
pub data Term (F : Type 0) : Type 0 where
  num : F → Term F
  val : Variable → Term F
  plus minus times : Term F → Term F → Term F
  over : Term F → F → Term F

-- `all_of z x y` is the one of `addGenConstrAnd`, and `when_one x c` is `(x == 1) >> c`.
pub data Constraint (F : Type 0) : Type 0 where
  at_least at_most equal : Term F → Term F → Constraint F
  all_of : Variable → Variable → Variable → Constraint F
  when_one : Variable → Constraint F → Constraint F

-- The variables and the constraints stand in the order in which the code adds them.
pub record Program (F : Type 0) : Type 0 where
  pub variables : List (Variable × Kind)
  pub constraints : List (Constraint F)
  pub objective : Term F

-- The part of a variable's name that is between the brackets.
unfoldable pub joined_keys : List String → String
joined_keys [] = String.[]
joined_keys (k ∷ []) = k
joined_keys (k ∷ l ∷ ks) = join k (join "," (joined_keys (l ∷ ks)))

unfoldable pub indexed : String → List String → String
indexed name ks = join name (join "[" (join (joined_keys ks) "]"))

-- The names that `addVars` and `addVar` give.
unfoldable pub var_name : {F : Type 0} → Conversions F → Variable → String
var_name texts (var_i stage variant) = indexed "i" (stage ∷ variant ∷ [])
var_name texts (var_b stage batch) = indexed "b" (stage ∷ texts.str_int batch ∷ [])
var_name texts (var_aux stage variant batch) =
    indexed "aux" (stage ∷ variant ∷ texts.str_int batch ∷ [])
var_name texts (var_n stage) = indexed "n" (stage ∷ [])
var_name texts (var_comb variants) = indexed "all_comb_i" variants
var_name texts var_accuracy = "accuracy_objective"

module _ {F : Type 0} ⦃r : Runtime F⦄ where
  open r use {of_ℕ, add, sub, mul, div, le, eq}

  -- `quicksum`
  unfoldable pub quicksum : Term F → List (Term F) → Term F
  quicksum t [] = t
  quicksum t (u ∷ us) = quicksum (plus t u) us

  -- What an expression and a constraint say, at given values of the variables.
  unfoldable pub evaluate : (Variable → F) → Term F → F
  evaluate x (num a) = a
  evaluate x (val v) = x v
  evaluate x (plus t u) = add (evaluate x t) (evaluate x u)
  evaluate x (minus t u) = sub (evaluate x t) (evaluate x u)
  evaluate x (times t u) = mul (evaluate x t) (evaluate x u)
  evaluate x (over t a) = div (evaluate x t) a

  unfoldable pub is_one : F → Bool
  is_one a = eq a (of_ℕ 1)

  unfoldable pub satisfies : (Variable → F) → Constraint F → Bool
  satisfies x (at_least t u) = le (evaluate x u) (evaluate x t)
  satisfies x (at_most t u) = le (evaluate x t) (evaluate x u)
  satisfies x (equal t u) = eq (evaluate x t) (evaluate x u)
  satisfies x (all_of z v w) = eq (x z) (if is_one (x v) && is_one (x w) then of_ℕ 1 else of_ℕ 0)
  satisfies x (when_one v c) = let then_ = satisfies x c in if is_one (x v) then then_ else true

  unfoldable pub satisfies_all : (Variable → F) → List (Constraint F) → Bool
  satisfies_all x [] = true
  satisfies_all x (c ∷ cs) = satisfies x c && satisfies_all x cs
