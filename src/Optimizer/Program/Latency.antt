-- ===== src/Optimizer/Program/Latency.antt =====
-- optimizer/optimizer.py: the constraint of `gurobi_optmizer` on latencies, without load.
use mathlib.Core.Path.{subst}
use mathlib.Core.List.{foldl}
use ipa_arman.Prelude.{
  ℕ, String, ◌≡◌, refl, sym, ap, ◌∙◌, Bool, true, false, ◌&&◌, List, [], ◌∷◌, map, eq_iff, arith,
  Bool-cases, inl, inr, All, All-map, All-for_each, All-found, for_each, count_of, foldl-map,
  foldl-for_each, foldl-once, Outcome, ok, raised, >>=-eq-ok, ok-injective, traverse, traverse-cons,
  traverse-All, All-traverse, foldl-still, if◌then◌else◌, Runtime, IsExact, sum,
}
use ipa_arman.Optimizer.Parameters.{Table}
use ipa_arman.Optimizer.Program.{
  Variable, Term, Constraint, num, plus, quicksum, evaluate, satisfies,
}
use ipa_arman.Optimizer.Program.Build.{
  Stage, stage_variant_batches, coefficient, func_q, latency_term, latency_constraint,
}
use ipa_arman.Optimizer.Program.Encoding.{Choice, takes_variant, takes_batch, bit, encoded}

-- The value that was found, 0 where none was.
abbrev value_of : {F : Type 0} ⦃r : Runtime F⦄ → Outcome F → F
value_of (ok x) = x
value_of ⦃r⦄ (raised e) = r.of_ℕ 0

-- What the items of a comprehension add up to.
module _ {ℓ} {A : Type ℓ} {F : Type 0} ⦃r : Runtime F⦄ where
  open r use {of_ℕ, add}

  traverse-sum :
      (f : A → Outcome F) (z : F) (xs : List A) {ys : List F}
      → traverse f xs ≡ ok ys
      → foldl add z ys ≡ foldl (λ w x. add w (value_of (f x))) z xs
  unfolding traverse
  traverse-sum f z [] h = ap (foldl add z) (sym (ok-injective h))
  traverse-sum f z (x ∷ xs) h =
      let (y, rest, one, others, e) = traverse-cons f x xs h in
      ap (foldl add z) (sym e)
      ∙ traverse-sum f (add z y) xs others
      ∙ ap (λ o. foldl (λ w v. add w (value_of (f v))) (add z (value_of o)) xs) (sym one)

  quicksum-value :
      (x : Variable → F) (f : A → Outcome (Term F)) (value : A → F)
      → ((a : A) (u : Term F) → f a ≡ ok u → evaluate x u ≡ value a)
      → (t : Term F) (as_ : List A) {ts : List (Term F)} → traverse f as_ ≡ ok ts
      → evaluate x (quicksum t ts) ≡ foldl (λ w a. add w (value a)) (evaluate x t) as_
  unfolding traverse quicksum evaluate
  quicksum-value x f value valued t [] h =
      ap (λ us. evaluate x (quicksum t us)) (sym (ok-injective h))
  quicksum-value x f value valued t (a ∷ as_) h =
      let (u, rest, one, others, e) = traverse-cons f a as_ h in
      ap (λ us. evaluate x (quicksum t us)) (sym e)
      ∙ quicksum-value x f value valued (plus t u) as_ others
      ∙ ap (λ y. foldl (λ w b. add w (value b)) (add (evaluate x t) y) as_) (valued a u one)

module _ {F : Type 0} ⦃r : Runtime F⦄ (exact : IsExact F) (choose : String → Choice)
    (table : Table F) where
  open r use {of_ℕ, add, mul, le}
  open exact use {add_zero, mul_one, mul_zero}

  -- The latency of what is chosen for a stage.
  abbrev pub chosen_latency : Stage → Outcome F
  chosen_latency (stage, _) = coefficient table stage (choose stage).variant (choose stage).batch

  -- One of the variants and one of the batch sizes are chosen.
  abbrev pub IsChosen : List ℕ → Stage → Type 0
  IsChosen bs (stage, vs) =
      (count_of (takes_variant choose stage) vs ≡ 1) × (count_of (takes_batch choose stage) bs ≡ 1)

  abbrev term_value : String × String × ℕ → F
  term_value (stage, variant, batch) =
      if takes_variant choose stage variant && takes_batch choose stage batch
      then value_of (chosen_latency (stage, []))
      else of_ℕ 0

  gated :
      (l : F) (v b : Bool)
      → add (mul (mul l (bit v)) (bit b)) (of_ℕ 0) ≡ (if v && b then l else of_ℕ 0)
  gated l true true = add_zero _ ∙ mul_one _ ∙ mul_one l
  gated l true false = add_zero _ ∙ mul_zero _
  gated l false true = add_zero _ ∙ mul_one _ ∙ mul_zero l
  gated l false false = add_zero _ ∙ mul_zero _

  -- The latency that was read is the chosen one where the entry is.
  read_chosen :
      (stage variant : String) (batch : ℕ) (l : F) (v b : Bool)
      → takes_variant choose stage variant ≡ v
      → takes_batch choose stage batch ≡ b
      → coefficient table stage variant batch ≡ ok l
      → (if v && b then l else of_ℕ 0)
        ≡ (if v && b then value_of (chosen_latency (stage, [])) else of_ℕ 0)
  read_chosen stage variant batch l false b p q e = refl
  read_chosen stage variant batch l true false p q e = refl
  read_chosen stage variant batch l true true p q e =
      let v : (choose stage).variant ≡ variant = (eq_iff (choose stage).variant variant).0 p in
      let b : (choose stage).batch ≡ batch = ground arith in
      ap value_of (
        sym (
          ap (λ w. coefficient table stage w (choose stage).batch) v
          ∙ ap (λ c. coefficient table stage variant c) b
          ∙ e))

  latency_term-value :
      (key : String × String × ℕ) (u : Term F)
      → latency_term table 0 key ≡ ok u
      → evaluate (encoded choose) u ≡ term_value key
  unfolding latency_term func_q evaluate
  latency_term-value (stage, variant, batch) u h =
      let (l, e, h1) = >>=-eq-ok (coefficient table stage variant batch) _ h in
      let v = takes_variant choose stage variant in
      let b = takes_batch choose stage batch in
      subst (λ y. evaluate (encoded choose) y ≡ term_value (stage, variant, batch))
        (ok-injective h1) (gated l v b ∙ read_chosen stage variant batch l v b refl refl e)

  abbrev step : F → String × String × ℕ → F
  step w key = add w (term_value key)

  abbrev keys_of : List ℕ → Stage → List (String × String × ℕ)
  keys_of bs (stage, vs) = for_each (λ variant. map (λ batch. (stage, variant, batch)) bs) vs

  step_gate :
      (w : F) (stage variant : String) (batch : ℕ)
      → step w (stage, variant, batch) ≡ (
          if takes_variant choose stage variant && takes_batch choose stage batch
          then add w (value_of (chosen_latency (stage, [])))
          else w)
  step_gate w stage variant batch =
      gate (takes_variant choose stage variant && takes_batch choose stage batch)
    where
      gate :
          (t : Bool)
          → r.add w (if t then value_of (chosen_latency (stage, [])) else r.of_ℕ 0)
            ≡ (if t then r.add w (value_of (chosen_latency (stage, []))) else w)
      gate true = refl
      gate false = exact.add_zero w

  -- A variant of a stage, over the batch sizes.
  variant_fold :
      (stage variant : String) (z : F) (bs : List ℕ)
      → count_of (takes_batch choose stage) bs ≡ 1
      → foldl step z (map (λ batch. (stage, variant, batch)) bs) ≡ (
          if takes_variant choose stage variant
          then add z (value_of (chosen_latency (stage, [])))
          else z)
  variant_fold stage variant z bs once =
      foldl-map step (λ batch. (stage, variant, batch)) z bs
      ∙ (elim (Bool-cases (takes_variant choose stage variant)) [
        | inr away ↦ rw away (
            foldl-still (λ w batch. step w (stage, variant, batch))
              (λ w batch. rw away at (step_gate w stage variant batch)) z bs)
        | inl here ↦ rw here (
            foldl-once (λ w batch. step w (stage, variant, batch)) (takes_batch choose stage)
              (λ w batch apart. rw (here, apart) at (step_gate w stage variant batch))
              (λ w. add w (value_of (chosen_latency (stage, [])))) z bs
              (λ w batch same. rw (here, same) at (step_gate w stage variant batch)) once)
      ])

  stage_fold :
      (s : Stage) (z : F) (bs : List ℕ)
      → IsChosen bs s
      → foldl step z (keys_of bs s) ≡ add z (value_of (chosen_latency s))
  stage_fold (stage, vs) z bs (cv, cb) =
      foldl-for_each step (λ variant. map (λ batch. (stage, variant, batch)) bs) z vs
      ∙ foldl-once (λ w variant. foldl step w (map (λ batch. (stage, variant, batch)) bs))
          (takes_variant choose stage)
          (λ w variant apart. rw apart at (variant_fold stage variant w bs cb))
          (λ w. add w (value_of (chosen_latency (stage, [])))) z vs
          (λ w variant same. rw same at (variant_fold stage variant w bs cb)) cv

  stages_fold :
      (bs : List ℕ) (z : F) (stages : List Stage)
      → All (IsChosen bs) stages
      → foldl step z (stage_variant_batches bs stages)
        ≡ foldl (λ w s. add w (value_of (chosen_latency s))) z stages
  unfolding stage_variant_batches
  stages_fold bs z stages chosen = foldl-for_each step (keys_of bs) z stages ∙ along z stages chosen
    where
      along :
          (z : F) (stages : List Stage)
          → All (IsChosen bs) stages
          → foldl (λ w s. foldl step w (keys_of bs s)) z stages
            ≡ foldl (λ w s. add w (value_of (chosen_latency s))) z stages
      along z [] h = refl
      along z (s ∷ stages) h =
          rw (stage_fold s z bs h.0) (along (r.add z (value_of (chosen_latency s))) stages h.1)

  -- The term of an entry was read.
  abbrev Read : String × String × ℕ → Type 0
  Read key = (u : Term F) × (latency_term table 0 key ≡ ok u)

  -- The chosen entries are there, since the loop has read all.
  chosen_found :
      (bs : List ℕ) (s : Stage)
      → All Read (keys_of bs s)
      → IsChosen bs s
      → (l : F) × (chosen_latency s ≡ ok l)
  unfolding latency_term
  chosen_found bs (stage, vs) read (cv, cb) =
      let rows =
        (All-for_each Read (λ variant. map (λ batch. (stage, variant, batch)) bs) vs).0 read in
      let (v, p, row) = All-found _ (takes_variant choose stage) vs rows (λ z. ground arith) in
      let cells = (All-map Read (λ batch. (stage, v, batch)) bs).0 row in
      let (b, q, hit) = All-found _ (takes_batch choose stage) bs cells (λ z. ground arith) in
      let (l, e, h) = >>=-eq-ok (coefficient table stage v b) _ hit.1 in
      let same_v : (choose stage).variant ≡ v = (eq_iff (choose stage).variant v).0 p in
      let same_b : (choose stage).batch ≡ b = ground arith in
      (
        l,
        ap (λ w. coefficient table stage w (choose stage).batch) same_v
            ∙ ap (λ c. coefficient table stage v c) same_b
            ∙ e,
      )

  All-chosen :
      (bs : List ℕ) (stages : List Stage)
      → All (λ s. All Read (keys_of bs s)) stages
      → All (IsChosen bs) stages
      → All (λ s. (l : F) × (chosen_latency s ≡ ok l)) stages
  All-chosen bs [] read chosen = tt
  All-chosen bs (s ∷ stages) read chosen =
      (chosen_found bs s read.0 chosen.0, All-chosen bs stages read.1 chosen.1)

  -- Without load, the constraint on latencies says of the values that stand for a choice for each
  -- stage that the latencies of what is chosen add up to at most the service level agreement, given
  -- that what is chosen is among the variants of the stage and among the batch sizes, once each.
  pub latency_constraint_lem :
      (sla : F) (bs : List ℕ) (stages : List Stage) {c : Constraint F}
      → latency_constraint table 0 sla (stage_variant_batches bs stages) ≡ ok c
      → All (IsChosen bs) stages
      → (ls : List F) × (traverse chosen_latency stages ≡ ok ls)
        × (satisfies (encoded choose) c ≡ le (sum ls) sla)
  unfolding latency_constraint satisfies evaluate stage_variant_batches sum
  latency_constraint_lem sla bs stages {c} h chosen =
      let keys = stage_variant_batches bs stages in
      let (ts, e, h1) = >>=-eq-ok (traverse (latency_term table 0) keys) _ h in
      let read =
        (All-for_each _ (keys_of bs) stages).0 (traverse-All (latency_term table 0) keys e) in
      let (ls, g) = All-traverse chosen_latency stages (All-chosen bs stages read chosen) in
      let total =
        quicksum-value (encoded choose) (latency_term table 0) term_value latency_term-value
          (num (of_ℕ 0)) keys e
        ∙ stages_fold bs (of_ℕ 0) stages chosen
        ∙ sym (traverse-sum chosen_latency (of_ℕ 0) stages g) in
      (
        ls,
        g,
        subst (λ d. satisfies (encoded choose) d ≡ le (sum ls) sla) (ok-injective h1)
            (ap (λ y. le y sla) total),
      )
