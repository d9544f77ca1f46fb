-- ===== src/Models/BaseAllocation/Tests.antt =====
-- `base_allocations` on sample tasks.
use ipa_arman.Prelude.{
  ℕ, zero, suc, Dict, Halts, get_elem?, raised, key_error, arith, ◌≡◌, refl, ok, some, [], ◌∷◌,
  lookup, insert, keys, keep, last?, sort_by, place, traverse, sum, List, String,
}
use ipa_arman.Models.Profile.{
  profile_throughput, get_measured_throughput, profiled_batches, new_allocation, ResourceAllocation,
}
use ipa_arman.Models.Task.{
  Task, is_named, get_all_models_by_name, variant_names, models_by_variant, variants_accuracies,
  accuracies_of, variant_sla, sla,
}
use ipa_arman.Models.BaseAllocation.{
  count_true, can_sustain, check_batches, check_allocations, check_variant, allocation_num_sustains,
  sustained_at, look_ahead, settle_first, settle_later, settle_fuel, settle_rest, settle_all,
  require_all, base_allocations,
}
use ipa_arman.Models.BaseAllocation.Sound.{Chain, IsSample, as_found, base_allocations-Chain}
use ipa_arman.Models.BaseAllocation.Ends.{base_allocations-Halts, base_allocations_unresponsive}
use ipa_arman.Samples.{milli, on_cpu, detect}

-- All that a run unfolds.
unfoldable pub base_program : Unit {0}
unfolding lookup insert keys keep last? sort_by place traverse sum profile_throughput
    get_measured_throughput profiled_batches new_allocation is_named get_all_models_by_name
    variant_names models_by_variant variants_accuracies accuracies_of variant_sla sla count_true
    can_sustain check_batches check_allocations check_variant allocation_num_sustains sustained_at
    look_ahead settle_first settle_later settle_fuel settle_rest settle_all require_all
    base_allocations
base_program = tt

detect_base : base_allocations detect ≡ ok (some (("small", on_cpu 1) ∷ ("large", on_cpu 2) ∷ []))
unfolding base_program
detect_base = refl

base_allocations-Halts_example : Halts (base_allocations detect)
base_allocations-Halts_example = base_allocations-Halts detect

abbrev detect_table : Dict String (ResourceAllocation ℕ)
detect_table = ("small", on_cpu 1) ∷ ("large", on_cpu 2) ∷ []

base_allocations-Chain_example :
    (sustains : Dict String (Dict ℕ ℕ)) × (sample : List ℕ) × (allocation_num_sustains detect
      ≡ ok sustains)
    × IsSample sustains (keys (variants_accuracies detect)) sample
    × Chain sample sustains 0 (as_found detect_table)
    × (keys detect_table ≡ keys (variants_accuracies detect))
base_allocations-Chain_example = base_allocations-Chain detect {d = detect_table} detect_base

-- A threshold that no batch size reaches.
abbrev busy : Task ℕ
busy = record detect { threshold = 50 }

abbrev none_of : Dict ℕ ℕ
none_of = (1000, 0) ∷ (2000, 0) ∷ []

none_of-zero :
    (j cpu : ℕ) → get_elem? (keys none_of) j ≡ some cpu → lookup milli.eq cpu none_of ≡ some 0
unfolding lookup keys
none_of-zero zero cpu h = ground arith
none_of-zero (suc zero) cpu h = ground arith
none_of-zero (suc (suc j)) cpu h = cc

base_allocations_unresponsive_example : base_allocations busy ≡ raised key_error
unfolding base_program
base_allocations_unresponsive_example =
    base_allocations_unresponsive busy (("small", none_of) ∷ ("large", none_of) ∷ []) "small"
      ("large" ∷ []) none_of refl refl refl refl none_of-zero
