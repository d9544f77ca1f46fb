-- ===== src/Optimizer/States/Gpu.antt =====
-- optimizer/optimizer.py: `all_states` on a pipeline with a task on GPU.
use ipa_arman.Prelude.{
  ℕ, String, ◌≡◌, refl, sym, ◌∙◌, Bool, true, false, Option, none, some, List, ◌∷◌, [], arith,
  Bool-cases, Outcome-cases, inl, inr, Outcome, ok, >>=-eq-ok, ok-injective, traverse, Runtime,
}
use ipa_arman.Models.Profile.{ResourceAllocation}
use ipa_arman.Models.Task.{Task, cpu, re_scale, change_batch}
use ipa_arman.Models.Switch.{change_allocation, set_to_base_allocation, finish_switch, model_switch}
use ipa_arman.Models.Pipeline.{Pipeline, any_gpu}
use ipa_arman.Optimizer.Objective.{Optimizer, Weights}
use ipa_arman.Optimizer.States.{
  Combination, Search, configure_allocation, configure_task, configure, rest_of, ok_to_add,
  record_state, skip_missing, try_combination, search_states, combinations, all_states,
}
use ipa_arman.Optimizer.Rows.{TaskConfig, State, task_config, complete_stats, state_of}

module _ {F : Type 0} ⦃r : Runtime F⦄ where
  change_allocation-gpu_mode :
      (a : ResourceAllocation F) (t : Task F) → (change_allocation a t).1.gpu_mode ≡ t.gpu_mode
  unfolding change_allocation
  change_allocation-gpu_mode a t = ground arith

  model_switch-gpu_mode : (v : String) (t : Task F) → (model_switch v t).1.gpu_mode ≡ t.gpu_mode
  unfolding model_switch finish_switch set_to_base_allocation change_allocation
  model_switch-gpu_mode v t = ground arith

  configure_task-gpu_mode :
      (mode v : String) (k b : ℕ) (as_ : List (ResourceAllocation F)) (t : Task F)
      → (configure_task mode v k b as_ t).1.gpu_mode ≡ t.gpu_mode
  unfolding configure_task configure_allocation change_batch re_scale
  configure_task-gpu_mode mode v k b [] t = ground (arith, model_switch-gpu_mode v t)
  configure_task-gpu_mode mode v k b (a ∷ as_) t = ground (
    arith,
    model_switch-gpu_mode v t,
    change_allocation-gpu_mode a (change_batch b (re_scale k (model_switch v t).1)),
  )

  configure-any_gpu :
      (mode : String) (vs : List String) (rs bs : List ℕ) (as_ : List (ResourceAllocation F))
      → (ts : List (Task F)) → any_gpu (configure mode vs rs bs as_ ts).1 ≡ any_gpu ts
  unfolding configure any_gpu
  configure-any_gpu mode vs rs bs as_ [] = ground arith
  configure-any_gpu mode (v ∷ vs) (k ∷ rs) (b ∷ bs) as_ (t ∷ ts) = ground (
    arith,
    configure_task-gpu_mode mode v k b as_ t,
    configure-any_gpu mode vs rs bs (rest_of as_) ts,
  )
  configure-any_gpu mode [] rs bs as_ (t ∷ ts) = refl
  configure-any_gpu mode (v ∷ vs) [] bs as_ (t ∷ ts) = refl
  configure-any_gpu mode (v ∷ vs) (k ∷ rs) [] as_ (t ∷ ts) = refl

  task_config-gpu_mode : (t : Task F) {c : TaskConfig F} → task_config t ≡ ok c → t.gpu_mode ≡ false
  unfolding task_config cpu
  task_config-gpu_mode t h = ground arith

  -- A task on GPU has no configuration to read.
  traverse-task_config :
      (ts : List (Task F)) {cs : List (TaskConfig F)}
      → traverse task_config ts ≡ ok cs
      → any_gpu ts ≡ false
  unfolding traverse any_gpu
  traverse-task_config [] h = refl
  traverse-task_config (t ∷ ts) h =
      let (c, one, h1) = >>=-eq-ok (task_config t) _ h in
      let (cs, others, h2) = >>=-eq-ok (traverse task_config ts) _ h1 in
      let here = task_config-gpu_mode t one in
      let there = traverse-task_config ts others in ground arith

  state_of-any_gpu :
      (complete : Bool) (w : Weights F) (p : Pipeline F) {row : State F}
      → state_of complete w p ≡ ok row
      → any_gpu p.inference_graph ≡ false
  unfolding state_of
  state_of-any_gpu complete w p h =
      let (profile, _, h1) = >>=-eq-ok (complete_stats complete w p) _ h in
      let (cs, configs, h2) = >>=-eq-ok (traverse task_config p.inference_graph) _ h1 in
      traverse-task_config p.inference_graph configs

  record_state-any_gpu :
      (complete : Bool) (s : Search F) (p : Pipeline F) {row : State F}
      → record_state complete s p ≡ ok (some row)
      → any_gpu p.inference_graph ≡ false
  unfolding record_state
  record_state-any_gpu complete s p h =
      let (add, _, h1) = >>=-eq-ok (ok_to_add s p) _ h in
      elim (Bool-cases add) [
        | inr skipped ↦ let h2 = rw skipped at h1 in cc
        | inl added ↦
            let (row, found, _) = >>=-eq-ok (state_of complete s.weights p) _ (rw added at h1) in
            state_of-any_gpu complete s.weights p found
      ]

  skip_missing-some :
      (m : Outcome (Option (State F))) {row : State F}
      → skip_missing m ≡ ok (some row)
      → m ≡ ok (some row)
  unfolding skip_missing
  skip_missing-some m h = ground arith

  try_combination-any_gpu :
      (o : Optimizer) (s : Search F) (c : Combination F) (p : Pipeline F)
      → any_gpu (try_combination o s c p).1.inference_graph ≡ any_gpu p.inference_graph
  unfolding try_combination
  try_combination-any_gpu o s c p =
      configure-any_gpu o.allocation_mode c.variants c.replicas c.batches c.allocations
        p.inference_graph

  try_combination-gpu :
      (o : Optimizer) (s : Search F) (c : Combination F) (p : Pipeline F) {row : State F}
      → (try_combination o s c p).0 ≡ ok (some row)
      → any_gpu p.inference_graph ≡ false
  unfolding try_combination
  try_combination-gpu o s c p h =
      let (done, graph) =
        configure o.allocation_mode c.variants c.replicas c.batches c.allocations
          p.inference_graph in
      let (_, _, recorded) = >>=-eq-ok done _ (skip_missing-some _ h) in
      sym (try_combination-any_gpu o s c p)
      ∙ record_state-any_gpu o.complete_profile s (try_combination o s c p).1 recorded

  search_states-gpu :
      (o : Optimizer) (s : Search F) (count : ℕ) (cs : List (Combination F)) (p : Pipeline F)
      → {rows : List (State F)} → any_gpu p.inference_graph ≡ true
      → (search_states o s count cs p).0 ≡ ok rows
      → rows ≡ []
  unfolding search_states
  search_states-gpu o s count [] p gpu h = sym (ok-injective h)
  search_states-gpu o s count (c ∷ cs) p gpu h = elim (Outcome-cases (try_combination o s c p).0) [
    | inr (e, g) ↦ let h1 = rw (g, search_states) at h in cc
    | inl (none, g) ↦
        search_states-gpu o s count cs (try_combination o s c p).1
          (try_combination-any_gpu o s c p ∙ gpu) (rw (g, search_states) at h)
    | inl (some row, g) ↦ let no_gpu = try_combination-gpu o s c p g in cc
  ]

  -- On a pipeline with a task on GPU `all_states` never returns a state: if it returns, the data
  -- frame is empty.
  pub all_states-gpu :
      (sample : List (Combination F) → Option ℕ → Outcome (List (Combination F)))
      → (o : Optimizer) (s : Search F) (scaling_cap : ℕ) (p : Pipeline F) (rows : List (State F))
      → any_gpu p.inference_graph ≡ true
      → (all_states sample o s scaling_cap p).0 ≡ ok rows
      → rows ≡ []
  unfolding all_states
  all_states-gpu sample o s scaling_cap p rows gpu h =
      elim (Outcome-cases (combinations sample o s scaling_cap p.inference_graph)) [
        | inr (e, g) ↦ let h1 = rw (g, all_states) at h in cc
        | inl (cs, g) ↦ search_states-gpu o s 0 cs p gpu (rw (g, all_states) at h)
      ]
