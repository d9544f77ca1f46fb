-- ===== src/Models/Profile.antt =====
-- optimizer/models.py: allocations, profiles of a batch size, and model variants with the profiles
-- that a regression fills in.
pub mod Interpolated
pub mod Tests
use Prim.Native.Nat.{min, max}
use mathlib.Core.List.{foldl}
use ipa_arman.Prelude.{
  ℕ, zero, suc, ◌+◌, ◌-◌, ◌/◌, ◌^◌, String, Bool, true, false, not, ◌&&◌, Option, none, some, List,
  [], ◌∷◌, map, ltb, ◌==◌, if◌then◌else◌, value_error, attribute_error, type_error, Outcome, ok,
  raised, ◌>>=◌, or_raise, traverse, length, get_elem?, sort_by, range_from, Runtime,
}

pub record ResourceAllocation (F : Type 0) : Type 0 where
  pub cpu : F
  pub gpu : F

pub record Profile (F : Type 0) : Type 0 where
  pub batch : ℕ
  pub latency : F
  pub measured : Bool
  -- `none`: the attribute was not set
  pub measured_throughput : Option F

-- The dictionary of `latency_model_params`, with `none` for None.
pub record ModelParams (F : Type 0) : Type 0 where
  pub coefficients : Option (List F)
  pub intercept : Option F

pub record Model (F : Type 0) : Type 0 where
  pub name : String
  pub resource_allocation : ResourceAllocation F
  pub measured_profiles : List (Profile F)
  pub only_measured_profiles : Bool
  pub accuracy : F
  pub profiles : List (Profile F)
  pub latency_model_params : ModelParams F

-- A fit of scikit-learn over pairs of a batch size and a latency.
pub record QuadraticFit (F : Type 0) : Type 0 where
  pub coefficients : List F
  pub intercept : F
  pub predict : ℕ → F

-- `LinearRegression` over quadratic features and over the batch size itself: third-party code.
pub record Regression (F : Type 0) : Type 0 where
  pub quadratic : List (ℕ × F) → QuadraticFit F
  pub linear : List (ℕ × F) → ℕ → F

-- The operand of `==` as far as the test tells: an int, or anything else.
pub data Operand : Type 0 where
  int : ℕ → Operand
  other : Operand

unfoldable pub profile_eq : {F : Type 0} → Profile F → Operand → Outcome Bool
profile_eq p (int n) = if n == p.batch then ok true else ok false
profile_eq p other = raised type_error

-- Attribute access raises where `__init__` did not set it.
unfoldable pub get_measured_throughput : {F : Type 0} → Profile F → Outcome F
get_measured_throughput p = or_raise p.measured_throughput attribute_error

unfoldable pub profiled_batches : {F : Type 0} → List (Profile F) → List ℕ
profiled_batches {F} ps = map (λ (p : Profile F). p.batch) ps

-- `min` and `max` of a list of ints raise on an empty one.
unfoldable pub min_batch : List ℕ → Outcome ℕ
min_batch [] = raised value_error
min_batch (x ∷ xs) = ok (foldl min x xs)

unfoldable pub max_batch : List ℕ → Outcome ℕ
max_batch [] = raised value_error
max_batch (x ∷ xs) = ok (foldl max x xs)

-- `int(math.log2(n))`, for `n` from 1 on: halvings down to 1, with fuel `n`.
unfoldable pub log2_fuel : ℕ → ℕ → ℕ
log2_fuel zero n = 0
log2_fuel (suc f) n = let rest = log2_fuel f (n / 2) in if ltb n 2 then 0 else suc rest

unfoldable pub log2 : ℕ → ℕ
log2 n = log2_fuel n n

-- `[2**i - 1 for i in range(int(math.log2(n)) + 1)]`
unfoldable pub selected_profiles_indices : ℕ → List ℕ
selected_profiles_indices n = map (λ i. 2 ^ i - 1) (range_from 0 (log2 n + 1))

-- `[xs[i] for i in indices if i < len(xs)]`
unfoldable pub pick {ℓ} : {A : Type ℓ} → List A → List ℕ → List A
pick xs [] = []
pick xs (i ∷ is) =
    let rest = pick xs is in elim (get_elem? xs i) [ some x ↦ x ∷ rest | none ↦ rest ]

module _ {F : Type 0} ⦃r : Runtime F⦄ where
  open r use {of_ℕ, mul, div, lt, eq}

  -- `ResourceAllocation.__init__`
  unfoldable pub new_allocation : F → F → Outcome (ResourceAllocation F)
  new_allocation cpu gpu =
      if not (eq cpu (of_ℕ 0)) && not (eq gpu (of_ℕ 0))
      then raised value_error
      else ok (record { cpu = cpu; gpu = gpu })

  -- The property `throughput` of a profile.
  unfoldable pub profile_throughput : Profile F → Outcome F
  profile_throughput p =
      if p.measured
      then get_measured_throughput p
      else ok (mul (div (of_ℕ 1) p.latency) (of_ℕ p.batch))

  unfoldable pub measured_profile : Profile F → Outcome (Profile F)
  measured_profile p = do
    t ← get_measured_throughput p
    ok (record {
      batch = p.batch;
      latency = p.latency;
      measured = true;
      measured_throughput = some t;
    })

  unfoldable pub training_data : List (Profile F) → List (ℕ × F)
  training_data ps = map (λ (p : Profile F). (p.batch, p.latency)) ps

  -- A negative value of the polynomial gives way to the linear model's.
  unfoldable pub predicted_profile : QuadraticFit F → (ℕ → F) → ℕ → Profile F
  predicted_profile q linear x =
      let y = q.predict x in
      record {
        batch = x;
        latency = if lt y (of_ℕ 0) then linear x else y;
        measured = false;
        measured_throughput = none;
      }

  unfoldable pub by_batch : Profile F → Profile F → Bool
  by_batch p q = ltb p.batch q.batch

  -- The branch of `regression_model` that interpolates every batch size from `lo` to `hi`.
  unfoldable pub interpolated : Regression F → List (Profile F) → ℕ → ℕ → List (Profile F)
  interpolated fit ps lo hi =
      let all_x = range_from lo (suc hi - lo) in
      let q = fit.quadratic (training_data ps) in
      let linear = fit.linear (training_data ps) in
      let predicted = sort_by by_batch (map (predicted_profile q linear) all_x) in
      pick predicted (selected_profiles_indices (length predicted))

  unfoldable pub regression_model :
      Regression F → Bool → List (Profile F) → Outcome (List (Profile F) × ModelParams F)
  regression_model fit true ps = do
    profiles ← traverse measured_profile ps
    ok (profiles, record { coefficients = none; intercept = none })
  regression_model fit false ps = do
    lo ← min_batch (profiled_batches ps)
    hi ← max_batch (profiled_batches ps)
    let q = fit.quadratic (training_data ps)
    ok (
      interpolated fit ps lo hi,
      record { coefficients = some q.coefficients; intercept = some q.intercept },
    )

  -- `Model.__init__`
  unfoldable pub new_model :
      Regression F → String → ResourceAllocation F → List (Profile F) → Bool → F → Outcome (Model F)
  new_model fit name allocation measured_profiles only_measured accuracy = do
    let sorted = sort_by by_batch measured_profiles
    (profiles, params) ← regression_model fit only_measured sorted
    ok (record {
      name = name;
      resource_allocation = allocation;
      measured_profiles = sorted;
      only_measured_profiles = only_measured;
      accuracy = div accuracy (of_ℕ 100);
      profiles = profiles;
      latency_model_params = params;
    })
