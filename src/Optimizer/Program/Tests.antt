-- ===== src/Optimizer/Program/Tests.antt =====
-- The integer program of a pipeline with one stage, and solutions of it.
use mathlib.Core.Path.{subst}
use ipa_arman.Prelude.{
  ok-injective, keep, ℕ, zero, String, ◌≡◌, ◌↔◌, ◌≤◌, refl, ap, true, Option, none, some, List, [],
  ◌∷◌, All, Exception, ok, raised, value_error, Outcome, Dict, arith, leb, sum, traverse, for_each,
  length, map,
}
use ipa_arman.Models.Task.{Task, batches, variant_names}
use ipa_arman.Models.Pipeline.{stage_wise_task_names, stage_wise_available_variants, pipeline_sla}
use ipa_arman.Optimizer.Objective.{Optimizer, Objectives}
use ipa_arman.Optimizer.States.Tests.{optimizer, classifier, take_all}
use ipa_arman.Optimizer.Rows.{State}
use ipa_arman.Optimizer.Parameters.{
  Table, accuracy_parameters, base_parameters, throughput_parameters, read_accuracies,
  accuracy_table, base_numbers, base_table,
}
use ipa_arman.Optimizer.Parameters.Tests.{parameters_program}
use ipa_arman.Optimizer.Program.{
  Variable, Constraint, Program, joined_keys, indexed, var_name, quicksum, evaluate, is_one,
  satisfies, satisfies_all,
}
use ipa_arman.Optimizer.Program.Build.{
  Stage, Coefficients, stage_variants, stage_variant_batches, entry, coefficient, capped, stages_of,
  variables_of, coefficients, func_q, throughput_constraints, latency_term, latency_constraint,
  single_batch, one_model, only_scale, only_switch, baseline_constraints, pairs, constraints_of,
}
use ipa_arman.Optimizer.Program.Goal.{
  accuracy_term, stage_accuracy, product_of, combination_accuracy, chosen_three,
  combination_constraints, multiplied, combined, accuracy_objective, resource_term,
  resource_objective, batch_term, goal, program_of,
}
use ipa_arman.Optimizer.Program.Encoding.{Choice, encoded}
use ipa_arman.Optimizer.Program.Refined.{Admissible, constraints_of_iff}
use ipa_arman.Optimizer.Program.Latency.{chosen_latency, latency_constraint_lem}
use ipa_arman.Optimizer.Program.Decode.{
  output_of, values_where, first_of, decode_variant, decode_replicas, decode_batch, decode_stage,
  decode, set_task, set_tasks,
}
use ipa_arman.Optimizer.Program.Gurobi.{
  Request, is_base, prepare, take_solution, take_solutions, gurobi_optmizer, optimize,
}
use ipa_arman.Optimizer.Program.RoundTrip.{NamesTell, solution_of, decoded, decode-solution_of}
use ipa_arman.Optimizer.Program.Pool.{gurobi_optmizer_bounded, optimize_refused}
use ipa_arman.Adapter.Tests.{texts}
use ipa_arman.Samples.{from_ok, milli, milli-IsExact, classify}

-- All that a run unfolds.
unfoldable pub gurobi_program : Unit {0}
unfolding parameters_program sum traverse for_each variant_names batches stage_wise_task_names
    stage_wise_available_variants pipeline_sla accuracy_parameters base_parameters
    throughput_parameters read_accuracies accuracy_table base_numbers base_table joined_keys indexed
    var_name quicksum evaluate is_one satisfies satisfies_all stage_variants stage_variant_batches
    entry coefficient capped stages_of variables_of coefficients func_q throughput_constraints
    latency_term latency_constraint single_batch one_model only_scale only_switch
    baseline_constraints pairs constraints_of accuracy_term stage_accuracy product_of
    combination_accuracy chosen_three combination_constraints multiplied combined accuracy_objective
    resource_term resource_objective batch_term goal program_of output_of values_where first_of
    decode_variant decode_replicas decode_batch decode_stage decode set_task set_tasks is_base
    prepare take_solution take_solutions gurobi_optmizer optimize
gurobi_program = tt

abbrev stages : List Stage
stages = ("classify", "resnet18" ∷ "resnet50" ∷ []) ∷ []

abbrev sizes : List ℕ
sizes = 1 ∷ 4 ∷ []

-- A table by variant and batch size.
abbrev table : ℕ → ℕ → ℕ → ℕ → Table ℕ
table a b c d =
    ("classify", ("resnet18", (1, a) ∷ (4, b) ∷ []) ∷ ("resnet50", (1, c) ∷ (4, d) ∷ []) ∷ []) ∷ []

abbrev read : Coefficients ℕ
read = record {
  bases = ("classify", ("resnet18", 1000) ∷ ("resnet50", 1000) ∷ []) ∷ [];
  accuracies = ("classify", ("resnet18", 700) ∷ ("resnet50", 760) ∷ []) ∷ [];
  throughputs = table 20_000 33_000 12_000 20_000;
  latencies = table 50 120 80 200;
  distinct_batches = sizes;
}

classifier-coefficients : coefficients (some 8) classifier ≡ ok read
unfolding gurobi_program
classifier-coefficients = refl

-- The larger variant in batches of four.
abbrev choose : String → Choice
choose stage = record { variant = "resnet50"; batch = 4; replicas = 2 }

abbrev tasks : List (Task ℕ)
tasks = classify ∷ []

-- The constraints at an arrival rate.
abbrev added : ℕ → Outcome (List (Constraint ℕ))
added rate = constraints_of read rate 250 none stages tasks

unfoldable constraints_at_30 : List (Constraint ℕ)
unfolding gurobi_program
constraints_at_30 = from_ok [] (added 30)

added-ok : added 30 ≡ ok constraints_at_30
unfolding gurobi_program constraints_at_30
added-ok = refl

satisfied : satisfies_all (encoded choose) constraints_at_30 ≡ true
unfolding gurobi_program constraints_at_30
satisfied = refl

constraints_of_iff_example :
    (in_time : Constraint ℕ) × (latency_constraint read.latencies 30 250
        (stage_variant_batches sizes stages)
      ≡ ok in_time)
    × ((satisfies_all (encoded choose) constraints_at_30 ≡ true) ↔ (
        (satisfies (encoded choose) in_time ≡ true)
        × All (Admissible milli-IsExact choose read.throughputs 30 sizes) stages))
constraints_of_iff_example =
    constraints_of_iff milli-IsExact choose read 30 250 stages tasks {cs = constraints_at_30}
      added-ok

unfoldable unloaded : Constraint ℕ
unfolding gurobi_program
unloaded =
    from_ok (Constraint.all_of (Variable.var_n "") (Variable.var_n "") (Variable.var_n ""))
      (latency_constraint read.latencies 0 250 (stage_variant_batches sizes stages))

unloaded-ok :
    latency_constraint read.latencies 0 250 (stage_variant_batches sizes stages) ≡ ok unloaded
unfolding gurobi_program unloaded
unloaded-ok = refl

latency_constraint_lem_example :
    (ls : List ℕ) × (traverse (chosen_latency milli-IsExact choose read.latencies) stages ≡ ok ls)
    × (satisfies (encoded choose) unloaded ≡ leb (sum ls) 250)
latency_constraint_lem_example =
    latency_constraint_lem milli-IsExact choose read.latencies 250 sizes stages {c = unloaded}
      unloaded-ok ((refl, refl), tt)

rounds : (n : ℕ) → texts.round (milli.of_ℕ n) ≡ ok n
rounds n = ap ok (ground arith)

abbrev request : Request ℕ
request = record {
  scaling_cap = 2;
  batching_cap = some 8;
  weights = record { alpha = 1000; beta = 1000; gamma = 1 };
  arrival_rate = 30;
  num_state_limit = some 1;
}

-- A solver that knows the values of the choice, and keeps as many solutions as it is told to.
abbrev values_of : Program ℕ → Dict String ℕ
values_of program = map (λ v. (var_name texts v.0, encoded choose v.0)) program.variables

abbrev limited : Option ℕ → List (Dict String ℕ) → List (Dict String ℕ)
limited (some zero) found = []
limited _ found = found

abbrev pub solve : Program ℕ → Option ℕ → Outcome (List (Dict String ℕ))
solve program limit = ok (limited limit (values_of program ∷ []))

abbrev pub best : List (Objectives ℕ) → Outcome (Objectives ℕ)
best os = raised value_error

abbrev found : List (State ℕ)
found =
    record {
      profile = none;
      configs = record { variant = "resnet50"; cpu = 1000; gpu = 0; batch = 4; replicas = 2 } ∷ [];
      objective = record {
        accuracy_objective = 760;
        resource_objective = 2000;
        batch_objective = 4;
        objective = 0;
      };
    }
    ∷ []

found-ok : (gurobi_optmizer texts solve optimizer request classifier).0 ≡ ok found
unfolding gurobi_program
found-ok = refl

solve-keeps :
    (program : Program ℕ) (solutions : List (Dict String ℕ))
    → solve program (some 1) ≡ ok solutions
    → length solutions ≤ 1
solve-keeps program solutions h = subst (λ l. length l ≤ 1) (ok-injective h) (ground arith)

gurobi_optmizer_bounded_example : length found ≤ 1
gurobi_optmizer_bounded_example =
    gurobi_optmizer_bounded texts solve optimizer request classifier 1 {rows = found} solve-keeps
      refl found-ok

abbrev variable_mode : Optimizer
variable_mode = record optimizer { allocation_mode = "variable" }

optimize_refused_example :
    (e : Exception) × (optimize texts solve take_all best variable_mode "gurobi" request classifier
      ≡ (raised e, classifier))
optimize_refused_example =
    optimize_refused texts solve variable_mode request classifier take_all best "gurobi" refl refl

-- The variables of the program, by name.
abbrev declared : List Variable
declared =
    Variable.var_i "classify" "resnet18"
    ∷ Variable.var_i "classify" "resnet50"
    ∷ Variable.var_b "classify" 1
    ∷ Variable.var_b "classify" 4
    ∷ Variable.var_aux "classify" "resnet50" 4
    ∷ Variable.var_n "classify"
    ∷ []

declared-NamesTell : NamesTell texts sizes stages declared
unfolding gurobi_program keep
declared-NamesTell = record {
  variants_told = ((refl, (refl, tt)), tt);
  replicas_told = (refl, tt);
  batches_told = (([], refl), tt);
}

decode-solution_of_example :
    decode texts sizes stages (solution_of texts choose rounds declared)
    ≡ ok (map (decoded choose) stages)
decode-solution_of_example =
    decode-solution_of texts choose rounds declared sizes stages declared-NamesTell
      (((λ h. ground arith), λ h. ground arith), tt)

-- A variant whose name is part of another's, which comes first: the choice of it is not decoded.
abbrev similar : List Stage
similar = ("classify", "resnet50" ∷ "resnet5" ∷ []) ∷ []

abbrev smaller : String → Choice
smaller stage = record { variant = "resnet5"; batch = 4; replicas = 2 }

abbrev similar_declared : List Variable
similar_declared =
    Variable.var_i "classify" "resnet50"
    ∷ Variable.var_i "classify" "resnet5"
    ∷ Variable.var_b "classify" 4
    ∷ Variable.var_n "classify"
    ∷ []

similar_lost :
    decode texts (4 ∷ []) similar (solution_of texts smaller rounds similar_declared)
    ≡ ok (record { stage = "classify"; variant = none; replicas = 2; batch = some 4 } ∷ [])
unfolding gurobi_program keep
similar_lost = refl
