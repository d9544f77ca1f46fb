-- ===== src/Models/Switch.antt =====
-- optimizer/models.py: the constructor of a task, and the methods that switch its variant and its
-- allocation.
pub mod Active
pub mod Tests
use ipa_arman.Prelude.{
  ℕ, suc, String, Bool, ◌&&◌, Option, none, some, List, [], ◌∷◌, if◌then◌else◌, str_eq, value_error,
  type_error, key_error, Outcome, ok, raised, ◌>>=◌, or_raise, Method, lookup, Runtime,
}
use ipa_arman.Models.Profile.{ResourceAllocation, Model}
use ipa_arman.Models.Task.{Task, is_named}
use ipa_arman.Models.BaseAllocation.{base_allocations}

module _ {F : Type 0} ⦃r : Runtime F⦄ where
  open r use {eq}

  unfoldable pub same_allocation : Bool → ResourceAllocation F → ResourceAllocation F → Bool
  same_allocation gpu_mode a b = if gpu_mode then eq a.gpu b.gpu else eq a.cpu b.cpu

  unfoldable pub fits : Bool → String → ResourceAllocation F → Model F → Bool
  fits gpu_mode variant allocation m =
      is_named variant m && same_allocation gpu_mode allocation m.resource_allocation

  -- The loop that looks for a variant under an allocation, from the index `i` on.
  unfoldable pub find_variant : Bool → String → ResourceAllocation F → ℕ → List (Model F) → Option ℕ
  find_variant gpu_mode variant allocation i [] = none
  find_variant gpu_mode variant allocation i (m ∷ ms) =
      if fits gpu_mode variant allocation m
      then some i
      else find_variant gpu_mode variant allocation (suc i) ms

  -- `Task.__init__`
  unfoldable pub new_task :
      (name : String) (models : List (Model F)) (variant : String)
      (allocation : ResourceAllocation F)
      → (replica batch : ℕ) (allocation_mode : String) (threshold : ℕ) (sla_factor : F)
      → (normalize_accuracy gpu_mode : Bool) → Outcome (Task F)
  new_task name models variant allocation replica batch mode threshold factor normalize gpu_mode =
      do
        index ← or_raise (find_variant gpu_mode variant allocation 0 models) value_error
        ok (record {
          name = name;
          available_model_profiles = models;
          active_variant = variant;
          active_variant_index = index;
          active_allocation = allocation;
          initial_allocation = allocation;
          replicas = replica;
          batch = batch;
          allocation_mode = mode;
          threshold = threshold;
          sla_factor = factor;
          normalize_accuracy = normalize;
          gpu_mode = gpu_mode;
        })

  unfoldable pub change_allocation : ResourceAllocation F → Method (Task F) (Unit {0})
  change_allocation allocation t =
      elim (find_variant t.gpu_mode t.active_variant allocation 0 t.available_model_profiles) [
        | none ↦ (raised value_error, t)
        | some i ↦ (ok tt, record t { active_variant_index = i; active_allocation = allocation })
      ]

  -- `self.base_allocations[self.active_variant]`
  unfoldable pub active_base_allocation : Task F → Outcome (ResourceAllocation F)
  active_base_allocation t = do
    found ← base_allocations t
    allocations ← or_raise found type_error
    or_raise (lookup str_eq t.active_variant allocations) key_error

  unfoldable pub set_to_base_allocation : Method (Task F) (Unit {0})
  set_to_base_allocation t = elim (active_base_allocation t) [
    | raised e ↦ (raised e, t)
    | ok allocation ↦ change_allocation allocation t
  ]

  -- The last statement of `model_switch`.
  unfoldable pub finish_switch : Method (Task F) (Unit {0})
  finish_switch t = if str_eq t.allocation_mode "base" then set_to_base_allocation t else (ok tt, t)

  unfoldable pub model_switch : String → Method (Task F) (Unit {0})
  model_switch variant t =
      elim (find_variant t.gpu_mode variant t.active_allocation 0 t.available_model_profiles) [
        | none ↦ (raised value_error, t)
        | some i ↦ finish_switch (record t { active_variant_index = i; active_variant = variant })
      ]
