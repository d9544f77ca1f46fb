-- ===== src/Models/Switch/Active.antt =====
-- optimizer/models.py: the active index of a task under its methods.
use mathlib.Core.Path.{subst}
use ipa_arman.Prelude.{
  raised_ne_ok, ok-injective, str_eq, ℕ, zero, suc, ◌+◌, String, ◌≡◌, refl, Bool, true, some, List,
  [], ◌∷◌, ◌++◌, arith, inl, inr, Bool-cases, Option-cases, Outcome-cases, ok, get_elem?, Runtime,
}
use ipa_arman.Models.Profile.{ResourceAllocation, Model}
use ipa_arman.Models.Task.{Task, re_scale, change_batch, add_model_profile, add_model_profiles}
use ipa_arman.Models.Switch.{
  fits, find_variant, new_task, change_allocation, active_base_allocation, set_to_base_allocation,
  finish_switch, model_switch,
}

get_elem?-append {ℓ} :
    {A : Type ℓ} (xs ys : List A) (i : ℕ) {x : A}
    → get_elem? xs i ≡ some x
    → get_elem? (xs ++ ys) i ≡ some x
get_elem?-append [] ys i h = cc
get_elem?-append (x ∷ xs) ys zero h = h
get_elem?-append (x ∷ xs) ys (suc i) h = get_elem?-append xs ys i h

module _ {F : Type 0} ⦃r : Runtime F⦄ where
  -- The active index points at a model with the active variant's name and the active allocation.
  pub record IsActive (t : Task F) : Type 0 where
    pub model : Model F
    pub found : get_elem? t.available_model_profiles t.active_variant_index ≡ some model
    pub fitting : fits t.gpu_mode t.active_variant t.active_allocation model ≡ true

  -- What a search from the index `i` finds.
  pub find_variant_sound :
      (gpu_mode : Bool) (v : String) (a : ResourceAllocation F) (i : ℕ) (ms : List (Model F))
      {j : ℕ}
      → find_variant gpu_mode v a i ms ≡ some j
      → (k : ℕ) × (m : Model F) × (j ≡ i + k)
        × (get_elem? ms k ≡ some m)
        × (fits gpu_mode v a m ≡ true)
  unfolding find_variant
  find_variant_sound g v a i [] h = cc
  find_variant_sound g v a i (m ∷ ms) {j} h = elim (Bool-cases (fits g v a m)) [
    | inl e ↦ (0, m, ground arith, refl, e)
    | inr e ↦
        let (k, m', ek, em, ef) = find_variant_sound g v a (suc i) ms {j = j} (rw e at h) in
        (suc k, m', omega arith, em, ef)
  ]

  found-IsActive :
      (t : Task F) (v : String) (a : ResourceAllocation F) {i : ℕ}
      → find_variant t.gpu_mode v a 0 t.available_model_profiles ≡ some i
      → IsActive (record t { active_variant = v; active_variant_index = i; active_allocation = a })
  found-IsActive t v a {i} h =
      let (k, m, ek, em, ef) = find_variant_sound t.gpu_mode v a 0 t.available_model_profiles h in
      let same : i ≡ k = omega arith in record { model = m; found = rw same em; fitting = ef }

  -- A change of the allocation keeps the index right, whether it succeeds or raises.
  pub change_allocation-IsActive :
      (a : ResourceAllocation F) (t : Task F) → IsActive t → IsActive (change_allocation a t).1
  unfolding change_allocation
  change_allocation-IsActive a t act =
      elim (Option-cases
        (find_variant t.gpu_mode t.active_variant a 0 t.available_model_profiles)) [
          | inl e ↦ rw (e, change_allocation) act
          | inr (i, e) ↦ rw (e, change_allocation) (found-IsActive t t.active_variant a e)
        ]

  set_to_base_allocation-IsActive :
      (t : Task F) → IsActive t → IsActive (set_to_base_allocation t).1
  unfolding set_to_base_allocation
  set_to_base_allocation-IsActive t act = elim (Outcome-cases (active_base_allocation t)) [
    | inl (a, e) ↦ rw (e, set_to_base_allocation) (change_allocation-IsActive a t act)
    | inr (x, e) ↦ rw (e, set_to_base_allocation) act
  ]

  finish_switch-IsActive : (t : Task F) → IsActive t → IsActive (finish_switch t).1
  unfolding finish_switch
  finish_switch-IsActive t act = elim (Bool-cases (str_eq t.allocation_mode "base")) [
    | inl e ↦ rw e (set_to_base_allocation-IsActive t act)
    | inr e ↦ rw e act
  ]

  pub model_switch-IsActive : (v : String) (t : Task F) → IsActive t → IsActive (model_switch v t).1
  unfolding model_switch
  model_switch-IsActive v t act =
      elim (Option-cases
        (find_variant t.gpu_mode v t.active_allocation 0 t.available_model_profiles)) [
          | inl e ↦ rw (e, model_switch) act
          | inr (i, e) ↦
              rw (e, model_switch)
                (finish_switch-IsActive _ (found-IsActive t v t.active_allocation e))
        ]

  new_task-IsActive :
      (name : String) (ms : List (Model F)) (v : String) (a : ResourceAllocation F)
      → (k b : ℕ) (mode : String) (x : ℕ) (f : F) (normalize gpu_mode : Bool) {t : Task F}
      → new_task name ms v a k b mode x f normalize gpu_mode ≡ ok t
      → IsActive t
  unfolding new_task
  new_task-IsActive name ms v a k b mode x f normalize g {t} h =
      elim (Option-cases (find_variant g v a 0 ms)) [
        | inl e ↦ absurd (raised_ne_ok (rw e at h))
        | inr (i, e) ↦
            let (j, m, ek, em, ef) = find_variant_sound g v a 0 ms e in
            let same : i ≡ j = omega arith in
            subst IsActive (ok-injective (rw e at h))
              (record { model = m; found = rw same em; fitting = ef })
      ]

  -- The objects that the class can build: a constructed task, and a task after any of its methods
  -- that do not remove models.
  pub data Built : Task F → Type 0 where
    constructed :
        (name : String) (ms : List (Model F)) (v : String) (a : ResourceAllocation F)
        → (k b : ℕ) (mode : String) (x : ℕ) (f : F) (normalize gpu_mode : Bool) {t : Task F}
        → new_task name ms v a k b mode x f normalize gpu_mode ≡ ok t
        → Built t
    switched : (v : String) {t : Task F} → Built t → Built (model_switch v t).1
    allocated : (a : ResourceAllocation F) {t : Task F} → Built t → Built (change_allocation a t).1
    scaled : (k : ℕ) {t : Task F} → Built t → Built (re_scale k t)
    batched : (b : ℕ) {t : Task F} → Built t → Built (change_batch b t)
    extended : (ms : List (Model F)) {t : Task F} → Built t → Built (add_model_profiles ms t)
    extended_by : (m : Model F) {t : Task F} → Built t → Built (add_model_profile m t)

  extended-IsActive :
      (ms : List (Model F)) (t : Task F)
      → IsActive t
      → IsActive (record t { available_model_profiles = t.available_model_profiles ++ ms })
  extended-IsActive ms t act = record {
    model = act.model;
    found = get_elem?-append t.available_model_profiles ms t.active_variant_index act.found;
    fitting = act.fitting;
  }

  -- In every task that is built by the constructor and the methods other than the removal of models,
  -- the active index points at a model that has the active variant's name and the active
  -- allocation, also after a method that raised.
  pub Built-IsActive : {t : Task F} → Built t → IsActive t
  unfolding re_scale change_batch add_model_profiles add_model_profile
  Built-IsActive (constructed name ms v a k b mode x f normalize g h) =
      new_task-IsActive name ms v a k b mode x f normalize g h
  Built-IsActive (switched v {t} h) = model_switch-IsActive v t (Built-IsActive h)
  Built-IsActive (allocated a {t} h) = change_allocation-IsActive a t (Built-IsActive h)
  Built-IsActive (scaled k {t} h) =
      let act = Built-IsActive h in
      record { model = act.model; found = act.found; fitting = act.fitting }
  Built-IsActive (batched b {t} h) =
      let act = Built-IsActive h in
      record { model = act.model; found = act.found; fitting = act.fitting }
  Built-IsActive (extended ms {t} h) = extended-IsActive ms t (Built-IsActive h)
  Built-IsActive (extended_by m {t} h) = extended-IsActive (m ∷ []) t (Built-IsActive h)
