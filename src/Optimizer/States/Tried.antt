-- ===== src/Optimizer/States/Tried.antt =====
-- optimizer/optimizer.py: the combinations that `all_states` goes through, by the tasks of the pipeline.
use mathlib.Core.Path.{subst}
use ipa_arman.Prelude.{
  ℕ, zero, suc, ◌==◌, ◌∙◌, ◌+◌, ◌≤◌, ◌<◌, String, ◌≡◌, ◌↔◌, refl, sym, false, List, ◌∷◌, [], map,
  inl, inr, arith, str_eq, if◌then◌else◌, Bool-cases, Listed, Empty, Outcome, ok, >>=-eq-ok,
  ok-injective, traverse, range_from, Option, Runtime,
}
use ipa_arman.Models.Profile.{ResourceAllocation}
use ipa_arman.Models.Task.{
  Task, variant_names, batches, resource_allocations_cpu_mode, resource_allocations_gpu_mode,
}
use ipa_arman.Optimizer.Objective.{Optimizer}
use ipa_arman.Optimizer.States.{
  Knobs, Combination, Search, allowed_allocations, knobs_of, combinations,
}
use ipa_arman.Optimizer.States.Product.{Picks, Chooses, all_combinations_iff}

-- Each item stands in the relation to the task at its position.
abbrev pub Each {ℓ κ μ} : {A : Type ℓ} {B : Type κ} → (A → B → Type μ) → List A → List B → Type μ
Each R [] [] = Unit
Each R [] (t ∷ ts) = Empty
Each R (x ∷ xs) [] = Empty
Each R (x ∷ xs) (t ∷ ts) = R x t × Each R xs ts

Listed-range_from : (x a n : ℕ) → Listed x (range_from a n) → (a ≤ x) × (x < a + n)
unfolding range_from
Listed-range_from x a zero m = elim m [ ]
Listed-range_from x a (suc n) (inl e) = (omega arith, omega arith)
Listed-range_from x a (suc n) (inr m) =
    let (low, high) = Listed-range_from x (suc a) n m in (omega arith, omega arith)

range_from-Listed : (x a n : ℕ) → a ≤ x → x < a + n → Listed x (range_from a n)
unfolding range_from
range_from-Listed x a zero low high = absurd (omega arith)
range_from-Listed x a (suc n) low high = elim (Bool-cases (a == x)) [
  | inl here ↦ inl (ground arith)
  | inr later ↦ inr (range_from-Listed x (suc a) n (ground arith) (omega arith))
]

module _ {F : Type 0} ⦃r : Runtime F⦄ (mode : String) (scaling_cap : ℕ) where
  -- One of the batch sizes of a task.
  abbrev pub BatchOf : ℕ → Task F → Type 0
  BatchOf b t = (bs : List ℕ) × (batches t ≡ ok bs) × Listed b bs

  -- In the mode "variable" one of the allocations of the task, else that which it was built with.
  abbrev pub Permits : ResourceAllocation F → Task F → Type 0
  Permits a t =
      if str_eq mode "variable"
      then ((as_ : List (ResourceAllocation F)) × ((if t.gpu_mode
              then resource_allocations_gpu_mode t
              else resource_allocations_cpu_mode t)
            ≡ ok as_)
          × Listed a as_)
      else (a ≡ t.initial_allocation)

  -- For each task one of its variants, a number of replicas up to the cap, one of its batch sizes, and,
  -- outside the mode "base", an allocation that the mode permits.
  pub record IsChoice (graph : List (Task F)) (c : Combination F) : Type 0 where
    pub variants : Each (λ v t. Listed v (variant_names t)) c.variants graph
    pub replicas : Each (λ n (t : Task F). (1 ≤ n) × (n ≤ scaling_cap)) c.replicas graph
    pub batches : Each BatchOf c.batches graph
    pub allocations :
        if str_eq mode "base" then (c.allocations ≡ []) else Each Permits c.allocations graph

  abbrev Read : List (Knobs F) → List (Task F) → Type 0
  Read knobs graph = Each (λ k t. knobs_of mode scaling_cap t ≡ ok k) knobs graph

  traverse-Read :
      (graph : List (Task F)) {knobs : List (Knobs F)}
      → traverse (knobs_of mode scaling_cap) graph ≡ ok knobs
      → Read knobs graph
  unfolding traverse
  traverse-Read [] h = subst (λ ks. Read ks []) (ok-injective h) tt
  traverse-Read (t ∷ graph) h =
      let (k, h1, k1) = >>=-eq-ok (knobs_of mode scaling_cap t) _ h in
      let (ks, h2, k2) = >>=-eq-ok (traverse (knobs_of mode scaling_cap) graph) _ k1 in
      subst (λ l. Read l (t ∷ graph)) (ok-injective k2) (h1, traverse-Read graph h2)

  -- The choices of one knob, task by task.
  module _ {A : Type 0} (field : Knobs F → List A) (R : A → Task F → Type 0)
      (one : (t : Task F) (k : Knobs F)
        → knobs_of mode scaling_cap t ≡ ok k
        → (x : A) → Listed x (field k) ↔ R x t) where
    Picks-Each :
        (xs : List A) (knobs : List (Knobs F)) (graph : List (Task F))
        → Read knobs graph
        → Picks xs (map field knobs) ↔ Each R xs graph
    Picks-Each [] [] [] h = ((λ x. x), λ x. x)
    Picks-Each (x ∷ xs) [] [] h = ((λ x. x), λ x. x)
    Picks-Each xs [] (t ∷ graph) h = elim h [ ]
    Picks-Each xs (k ∷ knobs) [] h = elim h [ ]
    Picks-Each [] (k ∷ knobs) (t ∷ graph) h = ((λ x. x), λ x. x)
    Picks-Each (x ∷ xs) (k ∷ knobs) (t ∷ graph) (e, h) =
        let (to, from) = one t k e x in
        let (tos, froms) = Picks-Each xs knobs graph h in
        ((λ (a, b). (to a, tos b)), λ (a, b). (from a, froms b))

  -- What was read of a task.
  pub record IsRead (t : Task F) (k : Knobs F) : Type 0 where
    pub variants : k.variants ≡ variant_names t
    pub replicas : k.replicas ≡ range_from 1 scaling_cap
    pub batches : batches t ≡ ok k.batches
    pub allocations : allowed_allocations mode t ≡ ok k.allocations

  knobs_of-IsRead : (t : Task F) (k : Knobs F) → knobs_of mode scaling_cap t ≡ ok k → IsRead t k
  unfolding knobs_of
  knobs_of-IsRead t k h =
      let (bs, h1, k1) = >>=-eq-ok (batches t) _ h in
      let (as_, h2, k2) = >>=-eq-ok (allowed_allocations mode t) _ k1 in
      subst (IsRead t) (ok-injective k2)
        (record { variants = refl; replicas = refl; batches = h1; allocations = h2 })

  variant_of :
      (t : Task F) (k : Knobs F)
      → knobs_of mode scaling_cap t ≡ ok k
      → (v : String) → Listed v k.variants ↔ Listed v (variant_names t)
  variant_of t k h v =
      let e = (knobs_of-IsRead t k h).variants in (subst (Listed v) e, subst (Listed v) (sym e))

  replicas_of :
      (t : Task F) (k : Knobs F)
      → knobs_of mode scaling_cap t ≡ ok k
      → (n : ℕ) → Listed n k.replicas ↔ ((1 ≤ n) × (n ≤ scaling_cap))
  replicas_of t k h n =
      let e = (knobs_of-IsRead t k h).replicas in
      (
        (λ m.
            let (low, high) = Listed-range_from n 1 scaling_cap (subst (Listed n) e m) in
            (low, omega arith)),
        λ (low, high).
            subst (Listed n) (sym e) (range_from-Listed n 1 scaling_cap low (omega arith)),
      )

  batch_of :
      (t : Task F) (k : Knobs F)
      → knobs_of mode scaling_cap t ≡ ok k
      → (b : ℕ) → Listed b k.batches ↔ BatchOf b t
  batch_of t k h b =
      let e = (knobs_of-IsRead t k h).batches in
      ((λ m. (k.batches, e, m)), λ (bs, e', m). subst (Listed b) (ok-injective (sym e' ∙ e)) m)

  allowed_allocations-Permits :
      (t : Task F) (as_ : List (ResourceAllocation F)) (a : ResourceAllocation F)
      → str_eq mode "base" ≡ false
      → allowed_allocations mode t ≡ ok as_
      → Listed a as_ ↔ Permits a t
  unfolding allowed_allocations
  allowed_allocations-Permits t as_ a away h = elim (Bool-cases (str_eq mode "variable")) [
    | inl variable ↦
        let e = rw variable at h in
        rw variable
          ((λ m. (as_, e, m)), λ (bs, e', m). subst (Listed a) (ok-injective (sym e' ∙ e)) m)
    | inr fixed ↦ elim (Bool-cases (str_eq mode "fix")) [
      | inl fix ↦
          let e = ok-injective (rw (fixed, fix) at h) in
          rw fixed (
            (λ m. elim (subst (Listed a) (sym e) m) [ inl same ↦ sym same | inr z ↦ elim z [ ] ]),
            λ same. subst (Listed a) e (inl (sym same)),
          )
      | inr other ↦ let none_left = rw (fixed, other, away) at h in cc
    ]
  ]

  allocations_of-Permits :
      (t : Task F) (k : Knobs F)
      → str_eq mode "base" ≡ false
      → knobs_of mode scaling_cap t ≡ ok k
      → (a : ResourceAllocation F) → Listed a k.allocations ↔ Permits a t
  allocations_of-Permits t k away h a =
      allowed_allocations-Permits t k.allocations a away (knobs_of-IsRead t k h).allocations

  Chooses-IsChoice :
      (graph : List (Task F)) (knobs : List (Knobs F)) (c : Combination F)
      → Read knobs graph
      → Chooses (str_eq mode "base") knobs c ↔ IsChoice graph c
  Chooses-IsChoice graph knobs c h =
      let vs = Picks-Each (λ k. k.variants) _ variant_of c.variants knobs graph h in
      let rs = Picks-Each (λ k. k.replicas) _ replicas_of c.replicas knobs graph h in
      let bs = Picks-Each (λ k. k.batches) BatchOf batch_of c.batches knobs graph h in
      let as_ = last_choice in
      (
        (λ q. record {
          variants = vs.0 q.variants;
          replicas = rs.0 q.replicas;
          batches = bs.0 q.batches;
          allocations = as_.0 q.allocations;
        }),
        λ q. record {
          variants = vs.1 q.variants;
          replicas = rs.1 q.replicas;
          batches = bs.1 q.batches;
          allocations = as_.1 q.allocations;
        },
      )
    where
      last_choice :
          (if str_eq mode "base"
            then (c.allocations ≡ [])
            else Picks c.allocations (map (λ (k : Knobs F). k.allocations) knobs))
          ↔ (if str_eq mode "base" then (c.allocations ≡ []) else Each Permits c.allocations graph)
      last_choice = elim (Bool-cases (str_eq mode "base")) [
        | inl base ↦ rw base ((λ x. x), λ x. x)
        | inr away ↦ rw away (
            Picks-Each (λ k. k.allocations) Permits (λ t k. allocations_of-Permits t k away)
              c.allocations knobs graph h)
      ]

module _ {F : Type 0} ⦃r : Runtime F⦄ where
  -- Where no random sample is taken, the combinations that `all_states` goes through are exactly the
  -- choices, for each task of the pipeline in order, of one of its variants, a number of replicas from
  -- 1 to the cap, one of its batch sizes, and, outside the mode "base", an allocation: one of the task's
  -- in the mode "variable", and that which it was built with in the mode "fix".
  pub combinations_iff :
      (sample : List (Combination F) → Option ℕ → Outcome (List (Combination F)))
      → (o : Optimizer) (s : Search F) (scaling_cap : ℕ) (graph : List (Task F))
      → {cs : List (Combination F)} → o.random_sample ≡ false
      → combinations sample o s scaling_cap graph ≡ ok cs
      → (c : Combination F) → Listed c cs ↔ IsChoice o.allocation_mode scaling_cap graph c
  unfolding combinations
  combinations_iff sample o s scaling_cap graph {cs} all h c =
      let (knobs, h1, k1) =
        >>=-eq-ok (traverse (knobs_of o.allocation_mode scaling_cap) graph) _ h in
      let same = ok-injective (rw all at k1) in
      let listed = all_combinations_iff knobs o.allocation_mode c in
      let choice =
        Chooses-IsChoice o.allocation_mode scaling_cap graph knobs c
          (traverse-Read o.allocation_mode scaling_cap graph h1) in
      (
        (λ m. choice.0 (listed.0 (subst (Listed c) (sym same) m))),
        λ q. subst (Listed c) same (listed.1 (choice.1 q)),
      )
