-- ===== src/Optimizer/States/Sound.antt =====
-- optimizer/optimizer.py: what the rows of `all_states` are.
use mathlib.Core.Path.{subst}
use ipa_arman.Prelude.{
  ℕ, suc, String, ◌≡◌, refl, Bool, true, Option, none, some, List, ◌∷◌, [], arith, Bool-cases,
  Option-cases, Outcome-cases, inl, inr, str_eq, Outcome, ok, raised, >>=-eq-ok, ok-injective, All,
  Listed, Runtime,
}
use ipa_arman.Models.Profile.{ResourceAllocation}
use ipa_arman.Models.Task.{Task, re_scale, change_batch}
use ipa_arman.Models.Switch.{
  find_variant, change_allocation, set_to_base_allocation, finish_switch, model_switch,
}
use ipa_arman.Models.Pipeline.{Pipeline}
use ipa_arman.Optimizer.Objective.{Optimizer, constraints}
use ipa_arman.Optimizer.States.{
  Combination, Search, configure_allocation, configure_task, configure, rest_of, ok_to_add,
  record_state, skip_missing, try_combination, at_limit, search_states, combinations, all_states,
}
use ipa_arman.Optimizer.Rows.{State, state_of}

module _ {F : Type 0} ⦃r : Runtime F⦄ where
  -- The three knobs that a task stands at.
  pub record Stands (v : String) (k b : ℕ) (t : Task F) : Type 0 where
    pub variant : t.active_variant ≡ v
    pub replicas : t.replicas ≡ k
    pub batch : t.batch ≡ b

  change_allocation-Stands :
      (a : ResourceAllocation F) (v : String) (k b : ℕ) (t : Task F)
      → Stands v k b t
      → Stands v k b (change_allocation a t).1
  unfolding change_allocation
  change_allocation-Stands a v k b t s =
      elim (Option-cases
        (find_variant t.gpu_mode t.active_variant a 0 t.available_model_profiles)) [
          | inl e ↦ rw (e, change_allocation) s
          | inr (i, e) ↦
              rw (e, change_allocation)
                (record { variant = s.variant; replicas = s.replicas; batch = s.batch })
        ]

  finish_switch-variant : (t : Task F) → (finish_switch t).1.active_variant ≡ t.active_variant
  unfolding finish_switch set_to_base_allocation change_allocation
  finish_switch-variant t = ground arith

  model_switch-variant :
      (v : String) (t : Task F)
      → (model_switch v t).0 ≡ ok tt
      → (model_switch v t).1.active_variant ≡ v
  unfolding model_switch
  model_switch-variant v t h =
      elim (Option-cases
        (find_variant t.gpu_mode v t.active_allocation 0 t.available_model_profiles)) [
          | inl e ↦ let h1 = rw (e, model_switch) at h in cc
          | inr (i, e) ↦
              rw (e, model_switch)
                (finish_switch-variant (record t { active_variant_index = i; active_variant = v }))
        ]

  configure_allocation-Stands :
      (mode : String) (as_ : List (ResourceAllocation F)) (v : String) (k b : ℕ) (t : Task F)
      → Stands v k b t
      → Stands v k b (configure_allocation mode as_ t).1
  unfolding configure_allocation
  configure_allocation-Stands mode [] v k b t s = ground arith
  configure_allocation-Stands mode (a ∷ as_) v k b t s = elim (Bool-cases (str_eq mode "base")) [
    | inl e ↦ rw (e, configure_allocation) s
    | inr e ↦ rw (e, configure_allocation) (change_allocation-Stands a v k b t s)
  ]

  configure_task-Stands :
      (mode v : String) (k b : ℕ) (as_ : List (ResourceAllocation F)) (t : Task F)
      → (configure_task mode v k b as_ t).0 ≡ ok tt
      → Stands v k b (configure_task mode v k b as_ t).1
  unfolding configure_task change_batch re_scale
  configure_task-Stands mode v k b as_ t h = elim (Outcome-cases (model_switch v t).0) [
    | inr (e, g) ↦ let h1 = rw (g, configure_task) at h in cc
    | inl (u, g) ↦
        rw (g, configure_task)
          (configure_allocation-Stands mode as_ v k b
            (change_batch b (re_scale k (model_switch v t).1))
            (record { variant = model_switch-variant v t g; replicas = refl; batch = refl }))
  ]

  -- The tasks of a graph stand at the knobs of a combination, in order.
  abbrev pub Follows : List String → List ℕ → List ℕ → List (Task F) → Type 0
  Follows vs rs bs [] = Unit
  Follows (v ∷ vs) (k ∷ rs) (b ∷ bs) (t ∷ ts) = Stands v k b t × Follows vs rs bs ts
  Follows _ _ _ (t ∷ ts) = ⊥

  configure-Follows :
      (mode : String) (vs : List String) (rs bs : List ℕ) (as_ : List (ResourceAllocation F))
      → (ts : List (Task F)) → (configure mode vs rs bs as_ ts).0 ≡ ok tt
      → Follows vs rs bs (configure mode vs rs bs as_ ts).1
  unfolding configure
  configure-Follows mode vs rs bs as_ [] h = tt
  configure-Follows mode (v ∷ vs) (k ∷ rs) (b ∷ bs) as_ (t ∷ ts) h =
      elim (Outcome-cases (configure_task mode v k b as_ t).0) [
        | inr (e, g) ↦ let h1 = rw (g, configure) at h in cc
        | inl (u, g) ↦
            rw (g, configure)
              (
                configure_task-Stands mode v k b as_ t g,
                configure-Follows mode vs rs bs (rest_of as_) ts (rw (g, configure) at h),
              )
      ]
  configure-Follows mode [] rs bs as_ (t ∷ ts) h = cc
  configure-Follows mode (v ∷ vs) [] bs as_ (t ∷ ts) h = cc
  configure-Follows mode (v ∷ vs) (k ∷ rs) [] as_ (t ∷ ts) h = cc

  module _ (o : Optimizer) (s : Search F) where
    -- A row comes from a pipeline whose tasks stand at the knobs of the combination; where the
    -- constraints are checked they hold of that pipeline, and the row is what it shows.
    pub record Records (c : Combination F) (row : State F) : Type 0 where
      pub pipeline : Pipeline F
      pub follows : Follows c.variants c.replicas c.batches pipeline.inference_graph
      pub feasible : s.check_constraints ≡ true → constraints s.arrival_rate pipeline ≡ ok true
      pub shown : state_of o.complete_profile s.weights pipeline ≡ ok row

    skip_missing-some :
        (m : Outcome (Option (State F))) {row : State F}
        → skip_missing m ≡ ok (some row)
        → m ≡ ok (some row)
    unfolding skip_missing
    skip_missing-some (ok x) h = h
    skip_missing-some (raised e) h = ground arith

    record_state-some :
        (complete : Bool) (p : Pipeline F) {row : State F}
        → record_state complete s p ≡ ok (some row)
        → (s.check_constraints ≡ true → constraints s.arrival_rate p ≡ ok true)
          × (state_of complete s.weights p ≡ ok row)
    unfolding record_state ok_to_add
    record_state-some complete p h = ground arith

    try_combination-Records :
        (c : Combination F) (p : Pipeline F) {row : State F}
        → (try_combination o s c p).0 ≡ ok (some row)
        → Records c row
    unfolding try_combination
    try_combination-Records c p h =
        let ran =
          configure o.allocation_mode c.variants c.replicas c.batches c.allocations
            p.inference_graph in
        let p' : Pipeline F = record p { inference_graph = ran.1 } in
        let (u, done, rest) =
          >>=-eq-ok ran.0 (λ x. record_state o.complete_profile s p') (skip_missing-some _ h) in
        let (feasible, shown) = record_state-some o.complete_profile p' rest in
        record {
          pipeline = p';
          follows =
              configure-Follows o.allocation_mode c.variants c.replicas c.batches c.allocations
                p.inference_graph done;
          feasible = feasible;
          shown = shown;
        }

    -- A row that some combination of the list accounts for.
    abbrev pub Accounted : List (Combination F) → State F → Type 0
    Accounted cs row = (c : Combination F) × Listed c cs × Records c row

    All-Accounted-later :
        (c : Combination F) (cs : List (Combination F)) (rows : List (State F))
        → All (Accounted cs) rows
        → All (Accounted (c ∷ cs)) rows
    All-Accounted-later c cs [] h = tt
    All-Accounted-later c cs (row ∷ rows) ((d, m, x), h) =
        ((d, inr m, x), All-Accounted-later c cs rows h)

    search_states-Accounted :
        (count : ℕ) (cs : List (Combination F)) (p : Pipeline F) {rows : List (State F)}
        → (search_states o s count cs p).0 ≡ ok rows
        → All (Accounted cs) rows
    unfolding search_states
    search_states-Accounted count [] p h = subst (All (Accounted [])) (ok-injective h) tt
    search_states-Accounted count (c ∷ cs) p {rows} h =
        elim (Outcome-cases (try_combination o s c p).0) [
          | inr (e, g) ↦ let h1 = rw (g, search_states) at h in cc
          | inl (none, g) ↦ All-Accounted-later c cs rows (
              search_states-Accounted count cs (try_combination o s c p).1
                (rw (g, search_states) at h))
          | inl (some row, g) ↦
              let here : Accounted (c ∷ cs) row = (c, inl refl, try_combination-Records c p g) in
              elim (Bool-cases (at_limit s.num_state_limit count)) [
                | inl full ↦
                    let h1 = rw (g, full, search_states) at h in
                    subst (All (Accounted (c ∷ cs))) (ok-injective h1) (here, tt)
                | inr more ↦
                    let h1 = rw (g, more, search_states) at h in
                    let (rest, e, h2) =
                      >>=-eq-ok (search_states o s (suc count) cs (try_combination o s c p).1).0 _
                        h1 in
                    subst (All (Accounted (c ∷ cs))) (ok-injective h2) (
                      here,
                      All-Accounted-later c cs rest
                          (search_states-Accounted (suc count) cs (try_combination o s c p).1 e),
                    )
              ]
        ]

    -- Every row that `all_states` returns comes from a pipeline whose tasks stand at the variant, the
    -- replicas and the batch size of one of the combinations that are tried; where the constraints
    -- are checked, they hold of that pipeline; and the row is what `state_of` reads off it.
    pub all_states-Accounted :
        (sample : List (Combination F) → Option ℕ → Outcome (List (Combination F)))
        → (scaling_cap : ℕ) (p : Pipeline F) {rows : List (State F)}
        → (all_states sample o s scaling_cap p).0 ≡ ok rows
        → (cs : List (Combination F)) × (combinations sample o s scaling_cap p.inference_graph
            ≡ ok cs)
          × All (Accounted cs) rows
    unfolding all_states
    all_states-Accounted sample scaling_cap p h =
        elim (Outcome-cases (combinations sample o s scaling_cap p.inference_graph)) [
          | inr (e, g) ↦ let h1 = rw (g, all_states) at h in cc
          | inl (cs, g) ↦ (cs, g, search_states-Accounted 0 cs p (rw (g, all_states) at h))
        ]
