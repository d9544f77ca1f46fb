-- ===== src/Adapter/Monitoring.antt =====
-- optimizer/adapter.py: `Monitoring`, the report that an adaptation leaves.
use ipa_arman.Prelude.{
  ℕ, String, Bool, List, [], ◌∷◌, ◌==◌, some, none, Option, index_error, Outcome, ok, raised, Dict,
  insert,
}
use ipa_arman.Optimizer.Objective.{Objectives}
use ipa_arman.Optimizer.Rows.{State}
use ipa_arman.Adapter.Configs.{SavedNode}

-- The report of a time step. `objective` is none where the four entries are None.
pub record Step (F : Type 0) : Type 0 where
  pub config : Option (Dict String (SavedNode F))
  pub objective : Option (Objectives F)
  pub time_interval : ℕ
  pub monitored_load : List ℕ
  pub predicted_load : ℕ

-- `adaptation_report`, whose metadata are the last two fields; what the constructor puts there is
-- not read again.
pub record Report (F : Type 0) : Type 0 where
  pub change_successful : Option (List Bool)
  pub timesteps : Dict ℕ (Step F)
  pub sla : F
  pub recieved_load : Option (Option (List ℕ))

module _ {F : Type 0} where
  -- `Monitoring.__init__`
  unfoldable pub new_report : F → Report F
  new_report sla = record {
    change_successful = none;
    timesteps = [];
    sla = sla;
    recieved_load = none;
  }

  -- The first row of the columns of the objectives.
  unfoldable pub first_objective : Option (List (State F)) → Outcome (Option (Objectives F))
  first_objective none = ok none
  first_objective (some []) = raised index_error
  first_objective (some (row ∷ rows)) = ok (some row.objective)

  unfoldable pub adaptation_step_report :
      Option (Dict String (SavedNode F))
      → Option (Objectives F)
      → ℕ
      → ℕ
      → List ℕ
      → ℕ
      → List Bool
      → Report F
      → Report F
  adaptation_step_report config objective timestep time_interval load predicted changed report =
      record report {
        change_successful = some changed;
        timesteps =
            insert ◌==◌ timestep
              (record {
                config = config;
                objective = objective;
                time_interval = time_interval;
                monitored_load = load;
                predicted_load = predicted;
              })
              report.timesteps;
      }

  unfoldable pub update_recieved_load : Option (List ℕ) → Report F → Report F
  update_recieved_load loads report = record report { recieved_load = some loads }
