-- ===== src/Experiments/Sizes.antt =====
-- experiments/utils/simulation_operations.py: the numbers of tasks of the generated pipelines.
use ipa_arman.Prelude.{
  ℕ, zero, suc, ◌+◌, ◌-◌, ◌≡◌, refl, sym, ◌∙◌, ap, String, List, [], ◌∷◌, ◌++◌, map, Outcome, ok,
  >>=-eq-ok, ok-injective, traverse, length, for_each, range_from, arith, map-append, map-map,
  Runtime,
}
use ipa_arman.Models.Profile.{Regression}
use ipa_arman.Models.Task.{Task}
use ipa_arman.Models.Pipeline.{Pipeline, num_nodes, add_task, but_last, remove_task}
use ipa_arman.Experiments.Simulated.{
  PipelineSettings, ProfilingRow, generate_simulated_pipeline, at_index,
}
use ipa_arman.Experiments.Fake.{
  fit_task, remove_tasks, copy_task, copy_tasks, generate_fake_pipeline,
  generate_fake_simulated_pipelines,
}

length-but_last : {A : Type 0} (x : A) (xs : List A) → length (but_last (x ∷ xs)) ≡ length xs
unfolding but_last
length-but_last x [] = refl
length-but_last x (y ∷ ys) = ap suc (length-but_last y ys)

length-add : {A : Type 0} (xs : List A) (x : A) → length (xs ++ (x ∷ [])) ≡ suc (length xs)
length-add [] x = refl
length-add (y ∷ ys) x = ap suc (length-add ys x)

length-range_from : (a n : ℕ) → length (range_from a n) ≡ n
unfolding range_from
length-range_from a zero = refl
length-range_from a (suc n) = ap suc (length-range_from (suc a) n)

length-traverse :
    {A B : Type 0} (f : A → Outcome B) (xs : List A) {ys : List B}
    → traverse f xs ≡ ok ys
    → length ys ≡ length xs
unfolding traverse
length-traverse f [] h = ap length (sym (ok-injective h))
length-traverse f (x ∷ xs) {ys} h =
    let (y, h1, h2) = >>=-eq-ok (f x) _ h in
    let (rest, h3, h4) = >>=-eq-ok (traverse f xs) _ h2 in
    ap length (sym (ok-injective h4)) ∙ ap suc (length-traverse f xs h3)

sizes-map :
    (models tasks : List ℕ)
    → map
        (λ (n : ℕ × ℕ). n.0)
        (for_each (λ task_num. map (λ model_num. (task_num, model_num)) models) tasks)
      ≡ for_each (λ task_num. map (λ (model_num : ℕ). task_num) models) tasks
unfolding for_each
sizes-map models [] = refl
sizes-map models (n ∷ tasks) =
    let rest = for_each (λ task_num. map (λ model_num. (task_num, model_num)) models) tasks in
    map-append (λ (e : ℕ × ℕ). e.0) (map (λ model_num. (n, model_num)) models) rest
    ∙ ap (λ l. l ++ map (λ (e : ℕ × ℕ). e.0) rest)
        (map-map (λ (e : ℕ × ℕ). e.0) (λ model_num. (n, model_num)) models)
    ∙ ap (λ l. map (λ (model_num : ℕ). n) models ++ l) (sizes-map models tasks)

module _ {F : Type 0} ⦃r : Runtime F⦄ where
  remove_task-shorter :
      (p : Pipeline F) (graph : List (Task F)) {q : Pipeline F}
      → p.inference_graph ≡ graph
      → remove_task p ≡ ok q
      → length graph ≡ suc (length q.inference_graph)
  unfolding remove_task
  remove_task-shorter p [] same h = let none_left = rw same at h in cc
  remove_task-shorter p (t ∷ ts) same h = ap suc (
      sym (length-but_last t ts)
      ∙ ap (λ (q : Pipeline F). length q.inference_graph) (ok-injective (rw same at h)))

  remove_task-num_nodes :
      (p : Pipeline F) {q : Pipeline F} → remove_task p ≡ ok q → num_nodes p ≡ suc (num_nodes q)
  unfolding num_nodes
  remove_task-num_nodes p h = remove_task-shorter p p.inference_graph refl h

  remove_tasks-num_nodes :
      (n : ℕ) (p : Pipeline F) {q : Pipeline F}
      → remove_tasks n p ≡ ok q
      → num_nodes p ≡ n + num_nodes q
  unfolding remove_tasks
  remove_tasks-num_nodes zero p h = let same = ap num_nodes (ok-injective h) in omega arith
  remove_tasks-num_nodes (suc n) p h =
      let (p1, h1, h2) = >>=-eq-ok (remove_task p) _ h in
      let a = remove_task-num_nodes p h1 in let b = remove_tasks-num_nodes n p1 h2 in omega arith

  copy_task-num_nodes :
      (i : ℕ) (p : Pipeline F) {q : Pipeline F}
      → copy_task i p ≡ ok q
      → num_nodes q ≡ suc (num_nodes p)
  unfolding copy_task add_task num_nodes
  copy_task-num_nodes i p h =
      let (t, h1, h2) = >>=-eq-ok (at_index p.inference_graph 0) _ h in
      ap num_nodes (sym (ok-injective h2)) ∙ length-add p.inference_graph _

  copy_tasks-num_nodes :
      (turns : List ℕ) (p : Pipeline F) {q : Pipeline F}
      → copy_tasks turns p ≡ ok q
      → num_nodes q ≡ length turns + num_nodes p
  unfolding copy_tasks
  copy_tasks-num_nodes [] p h = let same = ap num_nodes (sym (ok-injective h)) in omega arith
  copy_tasks-num_nodes (i ∷ turns) p h =
      let (p1, h1, h2) = >>=-eq-ok (copy_task i p) _ h in
      let a = copy_task-num_nodes i p h1 in let b = copy_tasks-num_nodes turns p1 h2 in omega arith

  generate_fake_pipeline-num_nodes :
      (base : Pipeline F) (model_num task_num : ℕ) {p : Pipeline F}
      → generate_fake_pipeline base model_num task_num ≡ ok p
      → num_nodes p ≡ task_num
  unfolding generate_fake_pipeline num_nodes
  generate_fake_pipeline-num_nodes base model_num task_num h =
      let (graph, h1, h2) = >>=-eq-ok (traverse (fit_task model_num) base.inference_graph) _ h in
      let (trimmed, h3, h4) = >>=-eq-ok (remove_tasks (num_nodes base - task_num) _) _ h2 in
      let a = length-traverse (fit_task model_num) base.inference_graph h1 in
      let b = remove_tasks-num_nodes (num_nodes base - task_num) _ h3 in
      let c = copy_tasks-num_nodes (range_from 0 (task_num - num_nodes trimmed)) trimmed h4 in
      let d = length-range_from 0 (task_num - num_nodes trimmed) in omega arith

  traverse-num_nodes :
      (base : Pipeline F) (sizes : List (ℕ × ℕ)) {ps : List (Pipeline F)}
      → traverse (λ (n : ℕ × ℕ). generate_fake_pipeline base n.1 n.0) sizes ≡ ok ps
      → map num_nodes ps ≡ map (λ (n : ℕ × ℕ). n.0) sizes
  unfolding traverse
  traverse-num_nodes base [] h = ap (map num_nodes) (sym (ok-injective h))
  traverse-num_nodes base (n ∷ sizes) h =
      let (p, h1, h2) = >>=-eq-ok (generate_fake_pipeline base n.1 n.0) _ h in
      let (rest, h3, h4) =
        >>=-eq-ok (traverse (λ (n : ℕ × ℕ). generate_fake_pipeline base n.1 n.0) sizes) _ h2 in
      ap (map num_nodes) (sym (ok-injective h4))
      ∙ ap (λ k. k ∷ map num_nodes rest) (generate_fake_pipeline-num_nodes base n.1 n.0 h1)
      ∙ ap (λ l. n.0 ∷ l) (traverse-num_nodes base sizes h3)

  -- When `generate_fake_simulated_pipelines` returns, its pipelines come by their number of tasks, for
  -- each number of the range as many as there are numbers of models, and each has its number of tasks.
  pub generate_fake_simulated_pipelines-num_nodes :
      (fit : Regression F) (load_profile : ℕ → String → ℕ → Outcome (List (ProfilingRow F)))
      (s : PipelineSettings F)
      → (models_start models_end tasks_start tasks_end : ℕ) {ps : List (Pipeline F)}
      → generate_fake_simulated_pipelines fit load_profile s
          (models_start, models_end)
          (tasks_start, tasks_end)
        ≡ ok ps
      → map num_nodes ps
        ≡ for_each
            (λ task_num.
              map
                (λ (model_num : ℕ). task_num)
                (range_from models_start (models_end - models_start)))
            (range_from tasks_start (tasks_end - tasks_start))
  unfolding generate_fake_simulated_pipelines
  generate_fake_simulated_pipelines-num_nodes fit load_profile s models_start models_end tasks_start
        tasks_end h =
      let (base, h1, h2) = >>=-eq-ok (generate_simulated_pipeline fit load_profile s) _ h in
      traverse-num_nodes base _ h2 ∙ sizes-map _ (range_from tasks_start (tasks_end - tasks_start))
