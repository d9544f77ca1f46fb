-- ===== src/Optimizer/Parameters.antt =====
-- optimizer/optimizer.py: the tables of coefficients, by stage, variant and batch size.
pub mod Filled
pub mod Tests
use ipa_arman.Prelude.{
  ℕ, String, Bool, true, false, none, some, List, [], ◌∷◌, ◌++◌, map, ◌==◌, if◌then◌else◌, str_eq,
  attribute_error, Outcome, ok, ◌>>=◌, or_raise, Dict, lookup, insert, keys, values, Runtime,
}
use ipa_arman.Models.Profile.{ResourceAllocation}
use ipa_arman.Models.Task.{
  Task, variant_names, batches, model_latency, throughput, accuracy, change_batch,
}
use ipa_arman.Models.BaseAllocation.{base_allocations}
use ipa_arman.Models.Switch.{model_switch}

abbrev pub Row {ℓ} : Type ℓ → Type ℓ
Row F = Dict ℕ F

-- `[stage][variant][batch]`
abbrev pub Table {ℓ} : Type ℓ → Type ℓ
Table F = Dict String (Dict String (Row F))

-- `batch in batches`
unfoldable pub is_in : ℕ → List ℕ → Bool
is_in b [] = false
is_in b (c ∷ cs) = if c == b then true else is_in b cs

-- The batch sizes that are not listed yet are added at the end.
unfoldable pub note_batches : List ℕ → List ℕ → List ℕ
note_batches seen [] = seen
note_batches seen (b ∷ bs) = note_batches (if is_in b seen then seen else seen ++ (b ∷ [])) bs

module _ {ℓ} {F : Type ℓ} where
  -- `all_batches_profiles`: the rows of all stages.
  unfoldable pub all_rows : Table F → List (Row F)
  all_rows [] = []
  all_rows ((_, variants) ∷ table) = values variants ++ all_rows table

  unfoldable pub distinct_of : List ℕ → List (Row F) → List ℕ
  distinct_of seen [] = seen
  distinct_of seen (row ∷ rows) = distinct_of (note_batches seen (keys row)) rows

  unfoldable pub distinct_batches : Table F → List ℕ
  distinct_batches table = distinct_of [] (all_rows table)

  -- The missing batch sizes of a row get the dummy value.
  unfoldable pub fill_row : F → List ℕ → Row F → Row F
  fill_row dummy [] row = row
  fill_row dummy (b ∷ bs) row =
      fill_row dummy bs (elim (lookup ◌==◌ b row) [ none ↦ insert ◌==◌ b dummy row | some _ ↦ row ])

  unfoldable pub fill_variants : F → List ℕ → Dict String (Row F) → Dict String (Row F)
  fill_variants dummy bs [] = []
  fill_variants dummy bs ((v, row) ∷ d) = (v, fill_row dummy bs row) ∷ fill_variants dummy bs d

  unfoldable pub fill_missing : F → List ℕ → Table F → Table F
  fill_missing dummy bs [] = []
  fill_missing dummy bs ((stage, d) ∷ table) =
      (stage, fill_variants dummy bs d) ∷ fill_missing dummy bs table

module _ {F : Type 0} ⦃r : Runtime F⦄ where
  open r use {of_ℕ, div}

  module _ (read : Task F → Outcome F) where
    -- The loop over the batch sizes, with the task that it leaves.
    unfoldable pub read_row : List ℕ → Row F → Task F → Outcome (Row F × Task F)
    read_row [] row t = ok (row, t)
    read_row (b ∷ bs) row t =
        read (change_batch b t) >>= λ x. read_row bs (insert ◌==◌ b x row) (change_batch b t)

    -- The loop over the variants of a task, on a copy of it.
    unfoldable pub read_variants :
        List String → Dict String (Row F) → Task F → Outcome (Dict String (Row F))
    read_variants [] d t = ok d
    read_variants (v ∷ vs) d t =
        let (switched, t') = model_switch v t in
        switched >>= λ _. batches t' >>= λ bs.
        read_row bs [] t' >>= λ (row, t''). read_variants vs (insert str_eq v row d) t''

    -- The loop over the tasks.
    unfoldable pub read_table : List (Task F) → Table F → Outcome (Table F)
    read_table [] table = ok table
    read_table (t ∷ ts) table =
        read_variants (variant_names t) [] t >>= λ d. read_table ts (insert str_eq t.name d table)

  -- A missing latency becomes 1000.
  unfoldable pub latency_parameters : List (Task F) → Outcome (Table F)
  latency_parameters graph = do
    table ← read_table model_latency graph []
    ok (fill_missing (of_ℕ 1000) (distinct_batches table) table)

  -- A missing throughput becomes 0.00001.
  unfoldable pub throughput_parameters : List (Task F) → Outcome (List ℕ × Table F)
  throughput_parameters graph = do
    table ← read_table throughput graph []
    ok (
      distinct_batches table,
      fill_missing (div (of_ℕ 1) (of_ℕ 100_000)) (distinct_batches table) table,
    )

  unfoldable pub read_accuracies : List String → Dict String F → Task F → Outcome (Dict String F)
  read_accuracies [] d t = ok d
  read_accuracies (v ∷ vs) d t =
      let (switched, t') = model_switch v t in
      switched >>= λ _. accuracy t' >>= λ a. read_accuracies vs (insert str_eq v a d) t'

  unfoldable pub accuracy_table :
      List (Task F) → Dict String (Dict String F) → Outcome (Dict String (Dict String F))
  accuracy_table [] table = ok table
  accuracy_table (t ∷ ts) table = read_accuracies (variant_names t) [] t >>= λ d.
      accuracy_table ts (insert str_eq t.name d table)

  unfoldable pub accuracy_parameters : List (Task F) → Outcome (Dict String (Dict String F))
  accuracy_parameters graph = accuracy_table graph []

  -- `.items()` of None raises.
  unfoldable pub base_numbers : Bool → Task F → Outcome (Dict String F)
  base_numbers gpu_mode t = do
    found ← base_allocations t
    d ← or_raise found attribute_error
    ok (map (λ (e : String × ResourceAllocation F). (e.0, if gpu_mode then e.1.gpu else e.1.cpu)) d)

  unfoldable pub base_table :
      Bool → List (Task F) → Dict String (Dict String F) → Outcome (Dict String (Dict String F))
  base_table gpu_mode [] table = ok table
  base_table gpu_mode (t ∷ ts) table =
      base_numbers gpu_mode t >>= λ d. base_table gpu_mode ts (insert str_eq t.name d table)

  -- `Optimizer.base_allocations`
  unfoldable pub base_parameters : Bool → List (Task F) → Outcome (Dict String (Dict String F))
  base_parameters gpu_mode graph = base_table gpu_mode graph []
