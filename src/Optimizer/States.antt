-- ===== src/Optimizer/States.antt =====
-- optimizer/optimizer.py: `all_states`, which tries every configuration on the pipeline, and
-- `brute_force` on top of it.
pub mod Product
pub mod Tried
pub mod Sound
pub mod Limit
pub mod Gpu
pub mod Tests
use ipa_arman.Prelude.{
  for_each, ℕ, suc, String, Bool, true, false, Option, none, some, List, [], ◌∷◌, map, ◌==◌, str_eq,
  if◌then◌else◌, value_error, index_error, stop_iteration, Outcome, ok, raised, ◌>>=◌, ◌>>◌,
  traverse, range_from, Method, Runtime,
}
use ipa_arman.Models.Profile.{ResourceAllocation}
use ipa_arman.Models.Task.{
  Task, variant_names, batches, latency, throughput, throughput_all_replicas, accuracy, measured,
  cpu, gpu, cpu_all_replicas, gpu_all_replicas, re_scale, change_batch,
  resource_allocations_cpu_mode, resource_allocations_gpu_mode,
}
use ipa_arman.Models.Switch.{model_switch, change_allocation}
use ipa_arman.Models.Pipeline.{
  Pipeline, pipeline_accuracy, pipeline_latency, pipeline_throughput, pipeline_cpu, pipeline_gpu,
}
use ipa_arman.Optimizer.Objective.{
  Optimizer, Weights, Objectives, objective, batch_objective, constraints,
}
use ipa_arman.Optimizer.Rows.{
  TaskConfig, TaskStats, PipelineStats, State, task_config, task_stats, pipeline_stats,
  complete_stats, state_of,
}

-- `itertools.product(*lists)`, in its order.
unfoldable pub product {ℓ} : {A : Type ℓ} → List (List A) → List (List A)
product [] = [] ∷ []
product (xs ∷ rest) = let tails = product rest in for_each (λ x. map (λ ys. x ∷ ys) tails) xs

-- What `all_states` reads of each task before the search.
pub record Knobs (F : Type 0) : Type 0 where
  pub variants : List String
  pub replicas : List ℕ
  pub batches : List ℕ
  pub allocations : List (ResourceAllocation F)

-- One tuple of `all_combinations`; `allocations` is left empty in the mode "base".
pub record Combination (F : Type 0) : Type 0 where
  pub variants : List String
  pub replicas : List ℕ
  pub batches : List ℕ
  pub allocations : List (ResourceAllocation F)

-- The arguments of `all_states` that the loop reads.
pub record Search (F : Type 0) : Type 0 where
  pub weights : Weights F
  pub check_constraints : Bool
  pub arrival_rate : ℕ
  pub num_state_limit : Option ℕ

-- Whether the counter, with one state more, stands at the limit.
unfoldable pub at_limit : Option ℕ → ℕ → Bool
at_limit none count = false
at_limit (some limit) count = suc count == limit

module _ {F : Type 0} where
  -- The products of the knobs, and the product of these.
  unfoldable pub all_combinations : String → List (Knobs F) → List (Combination F)
  all_combinations mode knobs =
      let vss = product (map (λ (k : Knobs F). k.variants) knobs) in
      let rss = product (map (λ (k : Knobs F). k.replicas) knobs) in
      let bss = product (map (λ (k : Knobs F). k.batches) knobs) in
      let ass =
        (if str_eq mode "base"
          then [] ∷ []
          else product (map (λ (k : Knobs F). k.allocations) knobs)) in
      for_each
        (λ vs.
          for_each
            (λ rs.
              for_each
                (λ bs.
                  map
                    (λ as_. record {
                      variants = vs;
                      replicas = rs;
                      batches = bs;
                      allocations = as_;
                    })
                    ass)
                bss)
            rss)
        vss

  unfoldable pub rest_of : List (ResourceAllocation F) → List (ResourceAllocation F)
  rest_of [] = []
  rest_of (_ ∷ as_) = as_

module _ {F : Type 0} ⦃r : Runtime F⦄ where
  -- What the mode allows a task for its allocation.
  unfoldable pub allowed_allocations : String → Task F → Outcome (List (ResourceAllocation F))
  allowed_allocations mode t =
      if str_eq mode "variable"
      then (if t.gpu_mode then resource_allocations_gpu_mode t else resource_allocations_cpu_mode t)
      else (if str_eq mode "fix"
          then ok (t.initial_allocation ∷ [])
          else (if str_eq mode "base" then ok [] else raised value_error))

  unfoldable pub knobs_of : String → ℕ → Task F → Outcome (Knobs F)
  knobs_of mode scaling_cap t = do
    bs ← batches t
    allocations ← allowed_allocations mode t
    ok (record {
      variants = variant_names t;
      replicas = range_from 1 scaling_cap;
      batches = bs;
      allocations = allocations;
    })

  -- The last knob: left alone in the mode "base". A missing entry of the tuple raises.
  unfoldable pub configure_allocation :
      String → List (ResourceAllocation F) → Method (Task F) (Unit {0})
  configure_allocation mode allocations t =
      if str_eq mode "base"
      then (ok tt, t)
      else (elim allocations [ [] ↦ (raised index_error, t) | a ∷ _ ↦ change_allocation a t ])

  -- The four knobs of one task, in the order of the code.
  unfoldable pub configure_task :
      String → String → ℕ → ℕ → List (ResourceAllocation F) → Method (Task F) (Unit {0})
  configure_task mode variant replica batch allocations t =
      let (switched, t') = model_switch variant t in
      elim switched [
        | raised e ↦ (raised e, t')
        | ok _ ↦ configure_allocation mode allocations (change_batch batch (re_scale replica t'))
      ]

  -- The loop over the tasks. The lists are those of one combination, from a task on.
  unfoldable pub configure :
      String
      → List String
      → List ℕ
      → List ℕ
      → List (ResourceAllocation F)
      → Method (List (Task F)) (Unit {0})
  configure mode vs rs bs as_ [] = (ok tt, [])
  configure mode (v ∷ vs) (k ∷ rs) (b ∷ bs) as_ (t ∷ ts) =
      let (done, t') = configure_task mode v k b as_ t in
      let (others, ts') = configure mode vs rs bs (rest_of as_) ts in
      elim done [ raised e ↦ (raised e, t' ∷ ts) | ok _ ↦ (others, t' ∷ ts') ]
  configure mode _ _ _ as_ (t ∷ ts) = (raised index_error, t ∷ ts)

  unfoldable pub ok_to_add : Search F → Pipeline F → Outcome Bool
  ok_to_add s p = if s.check_constraints then constraints s.arrival_rate p else ok true

  -- The body of the `try` behind the loop over the tasks: `none` where nothing is added.
  unfoldable pub record_state : Bool → Search F → Pipeline F → Outcome (Option (State F))
  record_state complete s p = do
    add ← ok_to_add s p
    if add then (state_of complete s.weights p >>= λ row. ok (some row)) else ok none

  -- `except StopIteration: pass`
  unfoldable pub skip_missing : Outcome (Option (State F)) → Outcome (Option (State F))
  skip_missing (raised stop_iteration) = ok none
  skip_missing m = m

  unfoldable pub try_combination :
      Optimizer → Search F → Combination F → Method (Pipeline F) (Option (State F))
  try_combination o s c p =
      let (done, graph) =
        configure o.allocation_mode c.variants c.replicas c.batches c.allocations
          p.inference_graph in
      let p' = record p { inference_graph = graph } in
      (skip_missing (done >> record_state o.complete_profile s p'), p')

  -- The loop over the combinations, with `count` states recorded so far.
  unfoldable pub search_states :
      Optimizer → Search F → ℕ → List (Combination F) → Method (Pipeline F) (List (State F))
  search_states o s count [] p = (ok [], p)
  search_states o s count (c ∷ cs) p =
      let (found, p') = try_combination o s c p in
      elim found [
        | raised e ↦ (raised e, p')
        | ok none ↦ search_states o s count cs p'
        | ok (some row) ↦
            if at_limit s.num_state_limit count
            then (ok (row ∷ []), p')
            else let (rest, p'') = search_states o s (suc count) cs p' in
              ((rest >>= λ rows. ok (row ∷ rows)), p'')
      ]

  module _ (sample : List (Combination F) → Option ℕ → Outcome (List (Combination F))) where
    -- The combinations to try: all, or a random sample of them.
    unfoldable pub combinations :
        Optimizer → Search F → ℕ → List (Task F) → Outcome (List (Combination F))
    combinations o s scaling_cap graph = do
      knobs ← traverse (knobs_of o.allocation_mode scaling_cap) graph
      let all = all_combinations o.allocation_mode knobs
      if o.random_sample then sample all s.num_state_limit else ok all

    unfoldable pub all_states : Optimizer → Search F → ℕ → Method (Pipeline F) (List (State F))
    all_states o s scaling_cap p = elim (combinations o s scaling_cap p.inference_graph) [
      | raised e ↦ (raised e, p)
      | ok cs ↦ search_states o s 0 cs p
    ]
