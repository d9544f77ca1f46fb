-- ===== src/Optimizer/Program/Decode.antt =====
-- optimizer/optimizer.py: `gurobi_optmizer`, which reads a solution back by the names of its variables
-- and sets the pipeline to it.
use ipa_arman.Prelude.{
  ℕ, String, Bool, ◌&&◌, Option, none, some, List, [], ◌∷◌, map, ◌==◌, if◌then◌else◌, value_error,
  key_error, index_error, Outcome, ok, raised, ◌>>=◌, traverse, keep, Dict, contains, Conversions,
  Method, Runtime,
}
use ipa_arman.Models.Task.{Task, re_scale, change_batch}
use ipa_arman.Models.Switch.{model_switch}
use ipa_arman.Optimizer.Program.Build.{Stage}

-- What is decoded for a stage: no variant where no variable of the stage is one, and no batch size
-- where none is.
pub record Decoded : Type 0 where
  pub stage : String
  pub variant : Option String
  pub replicas : ℕ
  pub batch : Option ℕ

-- The rounded values of the variables whose names contain a text.
unfoldable pub output_of :
    {F : Type 0} → Conversions F → String → Dict String F → Outcome (Dict String ℕ)
output_of {F} texts part solution =
    traverse (λ (e : String × F). texts.round e.1 >>= λ value. ok (e.0, value))
      (keep (λ (e : String × F). contains part e.0) solution)

-- `[value for key, value in … if …]`
unfoldable pub values_where : (String → Bool) → Dict String ℕ → List ℕ
values_where test d = map (λ (e : String × ℕ). e.1) (keep (λ (e : String × ℕ). test e.0) d)

-- `[…][0]`
unfoldable pub first_of {ℓ} : {A : Type ℓ} → List A → Outcome A
first_of [] = raised index_error
first_of (x ∷ xs) = ok x

-- The loop over the variants: the last of them whose variable is one.
unfoldable pub decode_variant :
    Dict String ℕ → String → List String → Option String → Outcome (Option String)
decode_variant d stage [] chosen = ok chosen
decode_variant d stage (v ∷ vs) chosen = do
  value ← first_of (values_where (λ key. contains stage key && contains v key) d)
  decode_variant d stage vs (if value == 1 then some v else chosen)

unfoldable pub decode_replicas : Dict String ℕ → String → Outcome ℕ
decode_replicas d stage = first_of (values_where (contains stage) d)

-- The loop over the batch sizes, with the values from the current index on.
unfoldable pub decode_batch : List ℕ → List ℕ → Outcome (Option ℕ)
decode_batch [] values_ = ok none
decode_batch (b ∷ bs) [] = raised index_error
decode_batch (b ∷ bs) (x ∷ xs) =
    let rest = decode_batch bs xs in if x == 1 then ok (some b) else rest

module _ {F : Type 0} (texts : Conversions F) where
  unfoldable pub decode_stage :
      List ℕ → Dict String ℕ → Dict String ℕ → Dict String ℕ → Stage → Outcome Decoded
  decode_stage bs i_out n_out b_out (stage, vs) = do
    variant ← decode_variant i_out stage vs none
    replicas ← decode_replicas n_out stage
    batch ← decode_batch bs (values_where (contains stage) b_out)
    ok (record { stage = stage; variant = variant; replicas = replicas; batch = batch })

  unfoldable pub decode : List ℕ → List Stage → Dict String F → Outcome (List Decoded)
  decode bs stages solution = do
    i_out ← output_of texts "i[" solution
    n_out ← output_of texts "n[" solution
    b_out ← output_of texts "b[" solution
    traverse (decode_stage bs i_out n_out b_out) stages

module _ {F : Type 0} ⦃r : Runtime F⦄ where
  -- The three knobs of a task. Without a variant `model_switch` finds no profile, and a missing batch
  -- size raises once the other two are set.
  unfoldable pub set_task : Decoded → Method (Task F) (Unit {0})
  set_task d t = elim d.variant [
    | none ↦ (raised value_error, t)
    | some v ↦
        let (switched, t') = model_switch v t in
        elim switched [
          | raised e ↦ (raised e, t')
          | ok _ ↦ elim d.batch [
            | none ↦ (raised key_error, re_scale d.replicas t')
            | some b ↦ (ok tt, change_batch b (re_scale d.replicas t'))
          ]
        ]
  ]

  -- The loop over the stages.
  unfoldable pub set_tasks : List Decoded → Method (List (Task F)) (Unit {0})
  set_tasks [] graph = (ok tt, graph)
  set_tasks (d ∷ ds) [] = (raised index_error, [])
  set_tasks (d ∷ ds) (t ∷ ts) =
      let (done, t') = set_task d t in
      let (others, ts') = set_tasks ds ts in
      elim done [ raised e ↦ (raised e, t' ∷ ts) | ok _ ↦ (others, t' ∷ ts') ]
