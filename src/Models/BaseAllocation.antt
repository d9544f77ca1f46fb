-- ===== src/Models/BaseAllocation.antt =====
-- optimizer/models.py: the property `base_allocations` of a task, which picks for each variant the
-- CPU allocation that it starts from.
pub mod Settle
pub mod Sound
pub mod Ends
pub mod Tests
use ipa_arman.Prelude.{
  ℕ, zero, suc, ◌+◌, String, Bool, ◌&&◌, not, Option, none, some, List, [], ◌∷◌, ltb, ◌==◌,
  if◌then◌else◌, str_eq, value_error, index_error, key_error, out_of_fuel, Outcome, ok, raised,
  ◌>>=◌, or_raise, traverse, length, get_elem?, Dict, insert, lookup, keys, Runtime,
}
use ipa_arman.Models.Profile.{
  ResourceAllocation, Model, new_allocation, profile_throughput, profiled_batches,
}
use ipa_arman.Models.Task.{Task, models_by_variant, variants_accuracies, sla}

-- How many of a model's checks passed.
unfoldable pub count_true : Dict ℕ Bool → ℕ
count_true [] = 0
count_true ((_, b) ∷ d) = if b then suc (count_true d) else count_true d

module _ {F : Type 0} ⦃r : Runtime F⦄ where
  open r use {of_ℕ, le, eq}

  -- Whether the profile at an index carries the threshold within the SLA of the task.
  unfoldable pub can_sustain : Task F → Model F → ℕ → Outcome Bool
  can_sustain t allocation index = do
    p ← or_raise (get_elem? allocation.profiles index) index_error
    x ← profile_throughput p
    limit ← sla t
    ok (le (of_ℕ t.threshold) x && le p.latency limit)

  -- The inner loop: one entry of `check_both` for each batch size from the `index`-th on.
  unfoldable pub check_batches : Task F → Model F → ℕ → List ℕ → Dict ℕ Bool → Outcome (Dict ℕ Bool)
  check_batches t allocation index [] checks = ok checks
  check_batches t allocation index (batch ∷ batches) checks =
      can_sustain t allocation index >>= λ b.
      check_batches t allocation (suc index) batches (insert ◌==◌ batch b checks)

  -- The loop over the allocations of a variant, with the number of batch sizes that each sustains.
  unfoldable pub check_allocations :
      Task F → List ℕ → List (Model F) → Dict F ℕ → Outcome (Dict F ℕ)
  check_allocations t batches [] sustains = ok sustains
  check_allocations t batches (m ∷ ms) sustains = check_batches t m 0 batches [] >>= λ checks.
      check_allocations t batches ms
        (insert eq m.resource_allocation.cpu (count_true checks) sustains)

  -- The batch sizes are those measured for the first allocation.
  unfoldable pub check_variant : Task F → String × List (Model F) → Outcome (String × Dict F ℕ)
  check_variant t (v, models) = do
    m ← or_raise (get_elem? models 0) index_error
    sustains ← check_allocations t (profiled_batches m.measured_profiles) models []
    ok (v, sustains)

  unfoldable pub allocation_num_sustains : Task F → Outcome (Dict String (Dict F ℕ))
  allocation_num_sustains t = traverse (check_variant t) (models_by_variant t)

  module _ (sample : List F) (sustain : Dict F ℕ) where
    -- `allocation_num_sustain[indicator_to_allocation[indicator]]`, with the allocation.
    unfoldable pub sustained_at : ℕ → Outcome (F × ℕ)
    sustained_at indicator = do
      cpu ← or_raise (get_elem? sample indicator) key_error
      n ← or_raise (lookup eq cpu sustain) key_error
      ok (cpu, n)

    -- A variant after the first moves on where the next allocation sustains more batch sizes.
    unfoldable pub look_ahead : ℕ → Outcome ℕ
    look_ahead indicator =
        if not (suc indicator == length sample)
        then (do
          (_, next) ← sustained_at (suc indicator)
          (_, here) ← sustained_at indicator
          ok (if ltb here next then suc indicator else indicator))
        else ok indicator

    -- The `while` loop for the first variant, with the indicator that it leaves.
    unfoldable pub settle_first : ℕ → ℕ → Outcome (Option (ResourceAllocation F) × ℕ)
    settle_first zero indicator = raised out_of_fuel
    settle_first (suc fuel) indicator =
        let later = settle_first fuel (suc indicator) in
        if ltb (length sample) indicator then ok (none, indicator) else (do
          (cpu, n) ← sustained_at indicator
          if not (n == 0)
              then (new_allocation cpu (of_ℕ 0) >>= λ a. ok (some a, indicator))
              else later)

    -- The `while` loop for a later variant.
    unfoldable pub settle_later : ℕ → ℕ → Outcome (Option (ResourceAllocation F) × ℕ)
    settle_later zero indicator = raised out_of_fuel
    settle_later (suc fuel) indicator =
        if ltb (length sample) indicator then ok (none, indicator) else (do
          i ← look_ahead indicator
          (cpu, n) ← sustained_at i
          if n == 0
              then (if suc i == length sample then ok (none, i) else settle_later fuel (suc i))
              else (new_allocation cpu (of_ℕ 0) >>= λ a. ok (some a, i)))

  -- Enough rounds for either loop: the indicator grows to at most one past the length.
  unfoldable pub settle_fuel : List F → ℕ
  settle_fuel sample = length sample + 3

  unfoldable pub settle_rest :
      List F
      → Dict String (Dict F ℕ)
      → List String
      → ℕ
      → Outcome (Dict String (Option (ResourceAllocation F)))
  settle_rest sample sustains [] indicator = ok []
  settle_rest sample sustains (v ∷ vs) indicator = do
    sustain ← or_raise (lookup str_eq v sustains) key_error
    (a, i) ← settle_later sample sustain (settle_fuel sample) indicator
    rest ← settle_rest sample sustains vs i
    ok ((v, a) ∷ rest)

  -- The loop over `variant_orders`, whose first entry gives the sample of allocations.
  unfoldable pub settle_all :
      Dict String (Dict F ℕ) → List String → Outcome (Dict String (Option (ResourceAllocation F)))
  settle_all sustains [] = raised index_error
  settle_all sustains (v ∷ vs) = do
    sustain ← or_raise (lookup str_eq v sustains) key_error
    let sample = keys sustain
    (a, i) ← settle_first sample sustain (settle_fuel sample) 0
    rest ← settle_rest sample sustains vs i
    ok ((v, a) ∷ rest)

  -- The last loop. Its message reads the SLA.
  unfoldable pub require_all :
      Task F
      → Dict String (Option (ResourceAllocation F))
      → Outcome (Dict String (ResourceAllocation F))
  require_all t [] = ok []
  require_all t ((v, some a) ∷ d) = require_all t d >>= λ rest. ok ((v, a) ∷ rest)
  require_all t ((v, none) ∷ d) = sla t >>= λ _. raised value_error

  -- `none` for None, outside the mode "base".
  unfoldable pub base_allocations : Task F → Outcome (Option (Dict String (ResourceAllocation F)))
  base_allocations t = if not (str_eq t.allocation_mode "base") then ok none else (do
    sustains ← allocation_num_sustains t
    settled ← settle_all sustains (keys (variants_accuracies t))
    allocations ← require_all t settled
    ok (some allocations))
