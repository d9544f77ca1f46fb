-- ===== src/Samples.antt =====
-- Test data: numbers in thousandths in place of doubles, and a pipeline of two tasks.
use native.Mathlib.Nat.{mul-le-mul, le_refl}
use ipa_arman.Prelude.{
  ℕ, Bool, refl, Outcome, ok, raised, ◌+◌, ◌-◌, ◌*◌, ◌/◌, ◌≤◌, String, ◌≡◌, true, false, not, none,
  some, List, [], ◌∷◌, ltb, leb, ◌==◌, str_eq, arith, keep, Runtime, IsOrdered, IsExact,
}
use ipa_arman.Models.Profile.{ResourceAllocation, Profile, Model}
use ipa_arman.Models.Task.{Task}
use ipa_arman.Models.Pipeline.{Pipeline}

-- What a run returned, with `a` in place of an exception.
abbrev pub from_ok {ℓ} : {A : Type ℓ} → A → Outcome A → A
from_ok a (ok x) = x
from_ok a (raised e) = a

abbrev pub returned {ℓ} : {A : Type ℓ} → Outcome A → Bool
returned (ok x) = true
returned (raised e) = false

pub returned-eq {ℓ} :
    {A : Type ℓ} (a : A) (m : Outcome A) → returned m ≡ true → m ≡ ok (from_ok a m)
returned-eq a (ok x) h = refl
returned-eq a (raised e) h = cc

-- Each name where it first stands.
abbrev pub distinct : List String → List String
distinct [] = []
distinct (x ∷ xs) = x ∷ keep (λ y. not (str_eq x y)) (distinct xs)

abbrev pub distinct_numbers : List ℕ → List ℕ
distinct_numbers [] = []
distinct_numbers (x ∷ xs) = x ∷ keep (λ y. not (x == y)) (distinct_numbers xs)

instance abbrev pub milli : Runtime ℕ
milli = record {
  of_ℕ = λ n. n * 1000;
  add = ◌+◌;
  sub = ◌-◌;
  mul = λ a b. a * b / 1000;
  div = λ a b. a * 1000 / b;
  lt = ltb;
  le = leb;
  eq = ◌==◌;
  set_names = distinct;
  set_numbers = distinct_numbers;
}

le-product : (x y z : ℕ) → y ≤ z → leb (x * y / 1000) (x * z / 1000) ≡ true
le-product x y z h = let p = mul-le-mul (le_refl x) h in ground arith

pub milli-IsOrdered : IsOrdered ℕ
milli-IsOrdered = record {
  le_refl = λ x. ground arith;
  le_trans = λ x y z p q. ground arith;
  le_total = λ x y. ground arith;
  lt-eq-not-le = λ x y. ground arith;
  eq_iff_le = λ x y. ground arith;
  of_ℕ_mono = λ m n h. ground arith;
  mul_mono = λ x y z p q. le-product x y z (ground arith);
}

pub milli-IsExact : IsExact ℕ
milli-IsExact = record {
  eq-of_ℕ = λ m n. ground arith;
  add-of_ℕ = λ m n. ground arith;
  add_zero = λ x. ground arith;
  mul_one = λ x. ground arith;
  mul_zero = λ x. ground arith;
}

abbrev pub on_cpu : ℕ → ResourceAllocation ℕ
on_cpu cpu = record { cpu = cpu * 1000; gpu = 0 }

-- A measured profile: the batch size, the latency, and the throughput.
abbrev pub profile : ℕ → ℕ → ℕ → Profile ℕ
profile batch latency x = record {
  batch = batch;
  latency = latency;
  measured = true;
  measured_throughput = some x;
}

abbrev pub model : String → ℕ → ℕ → List (Profile ℕ) → Model ℕ
model name cpu accuracy profiles = record {
  name = name;
  resource_allocation = on_cpu cpu;
  measured_profiles = profiles;
  only_measured_profiles = true;
  accuracy = accuracy;
  profiles = profiles;
  latency_model_params = record { coefficients = none; intercept = none };
}

abbrev pub detectors : List (Model ℕ)
detectors =
    model "small" 1 600 (profile 1 100 10_000 ∷ profile 2 150 12_000 ∷ [])
    ∷ model "small" 2 600 (profile 1 60 18_000 ∷ profile 2 90 22_000 ∷ [])
    ∷ model "large" 1 800 (profile 1 400 2_000 ∷ profile 2 700 3_000 ∷ [])
    ∷ model "large" 2 800 (profile 1 200 6_000 ∷ profile 2 300 7_000 ∷ [])
    ∷ []

abbrev pub task : String → List (Model ℕ) → String → ℕ → Task ℕ
task name models variant index = record {
  name = name;
  available_model_profiles = models;
  active_variant = variant;
  active_variant_index = index;
  active_allocation = on_cpu 1;
  initial_allocation = on_cpu 1;
  replicas = 1;
  batch = 1;
  allocation_mode = "base";
  threshold = 5;
  sla_factor = 5000;
  normalize_accuracy = false;
  gpu_mode = false;
}

abbrev pub detect : Task ℕ
detect = task "detect" detectors "small" 0

abbrev pub classifiers : List (Model ℕ)
classifiers =
    model "resnet18" 1 700 (profile 1 50 20_000 ∷ profile 4 120 33_000 ∷ [])
    ∷ model "resnet50" 1 760 (profile 1 80 12_000 ∷ profile 4 200 20_000 ∷ [])
    ∷ []

abbrev pub classify : Task ℕ
classify = task "classify" classifiers "resnet18" 0

abbrev pub video : Pipeline ℕ
video = record {
  inference_graph = detect ∷ classify ∷ [];
  gpu_mode = false;
  sla_factor = 5000;
  accuracy_method = "multiply";
  normalize_accuracy = false;
}
