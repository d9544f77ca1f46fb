-- ===== src/Optimizer/Parameters/Tests.antt =====
-- The latency table of the sample pipeline.
use ipa_arman.Prelude.{ℕ, String, ◌≡◌, refl, List, [], ◌∷◌, ok}
use ipa_arman.Models.Task.{Task, model_latency}
use ipa_arman.Optimizer.States.Tests.{states_program}
use ipa_arman.Optimizer.Parameters.{
  Table, is_in, note_batches, all_rows, distinct_of, distinct_batches, fill_row, fill_variants,
  fill_missing, read_row, read_variants, read_table, latency_parameters,
}
use ipa_arman.Optimizer.Parameters.Filled.{
  row_at, entry_at, filled_entry, some_row, latency_parameters_lem,
}
use ipa_arman.Samples.{milli, detect, classify}

-- All that a run unfolds.
unfoldable pub parameters_program : Unit {0}
unfolding states_program is_in note_batches all_rows distinct_of distinct_batches fill_row
    fill_variants fill_missing read_row read_variants read_table latency_parameters
parameters_program = tt

abbrev tasks : List (Task ℕ)
tasks = detect ∷ classify ∷ []

abbrev latencies : Table ℕ
latencies =
    (
      "detect",
      ("small", (1, 100) ∷ (2, 150) ∷ (4, 1_000_000) ∷ [])
          ∷ ("large", (1, 200) ∷ (2, 300) ∷ (4, 1_000_000) ∷ [])
          ∷ [],
    )
    ∷ (
      "classify",
      ("resnet18", (1, 50) ∷ (4, 120) ∷ (2, 1_000_000) ∷ [])
          ∷ ("resnet50", (1, 80) ∷ (4, 200) ∷ (2, 1_000_000) ∷ [])
          ∷ [],
    )
    ∷ []

tasks-latencies : latency_parameters tasks ≡ ok latencies
unfolding parameters_program
tasks-latencies = refl

latency_parameters_lem_example :
    (measured : Table ℕ) × (read_table model_latency tasks [] ≡ ok measured)
    × ((stage variant : String) (b : ℕ)
        → entry_at stage variant b latencies
          ≡ filled_entry 1_000_000 (distinct_batches measured) (row_at stage variant measured) b)
    × ((b : ℕ) → is_in b (distinct_batches measured) ≡ some_row b (all_rows measured))
latency_parameters_lem_example = latency_parameters_lem tasks {table = latencies} tasks-latencies
