-- ===== src/Models/Switch/Tests.antt =====
-- Switching the variant of a sample task.
use ipa_arman.Prelude.{◌≡◌, refl, ok, false, raised, value_error}
use ipa_arman.Models.Task.{re_scale, change_batch}
use ipa_arman.Models.BaseAllocation.Tests.{base_program}
use ipa_arman.Models.Switch.{
  same_allocation, fits, find_variant, new_task, change_allocation, active_base_allocation,
  set_to_base_allocation, finish_switch, model_switch,
}
use ipa_arman.Models.Switch.Active.{IsActive, Built, constructed, switched, Built-IsActive}
use ipa_arman.Samples.{milli, on_cpu, detectors, detect}

-- All that a run unfolds.
unfoldable pub switch_program : Unit {0}
unfolding base_program same_allocation fits find_variant new_task change_allocation
    active_base_allocation set_to_base_allocation finish_switch model_switch re_scale change_batch
switch_program = tt

-- The base allocation of the new variant is the second CPU.
switch_large : model_switch "large" detect ≡ (
  ok tt,
  record detect {
    active_variant = "large";
    active_variant_index = 3;
    active_allocation = on_cpu 2;
  },
)
unfolding switch_program
switch_large = refl

switch_unknown : model_switch "medium" detect ≡ (raised value_error, detect)
unfolding switch_program
switch_unknown = refl

detect-Built : Built (model_switch "large" detect).1
unfolding switch_program
detect-Built = switched "large" (
    constructed "detect" detectors "small" (on_cpu 1) 1 1 "base" 5 5000 false false {t = detect}
      refl)

Built-IsActive_example : IsActive (model_switch "large" detect).1
Built-IsActive_example = Built-IsActive detect-Built
