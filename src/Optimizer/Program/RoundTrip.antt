-- ===== src/Optimizer/Program/RoundTrip.antt =====
-- optimizer/optimizer.py: `gurobi_optmizer`, which decodes the values that stand for a choice for each
-- stage.
use ipa_arman.Prelude.{
  ℕ, suc, String, ◌≡◌, refl, sym, ap, ◌∙◌, Bool, true, false, ◌&&◌, Option, none, some, List, [],
  ◌∷◌, ◌++◌, map, ◌==◌, eq_iff, arith, Bool-cases, inl, inr, All, count_of, keep, contains, Outcome,
  ok, ◌>>=◌, traverse-map, traverse, keep-keep, keep-map, map-map, map-append, if◌then◌else◌, Dict,
  Conversions, Runtime,
}
use ipa_arman.Optimizer.Program.{
  Variable, var_i, var_b, var_aux, var_n, var_comb, var_accuracy, var_name,
}
use ipa_arman.Optimizer.Program.Build.{Stage}
use ipa_arman.Optimizer.Program.Decode.{
  Decoded, output_of, values_where, first_of, decode_variant, decode_replicas, decode_batch,
  decode_stage, decode,
}
use ipa_arman.Optimizer.Program.Encoding.{Choice, takes_variant, takes_batch, bit, encoded}

first_of-map {ℓ κ} :
    {A : Type ℓ} {B : Type κ} (f : A → B) (xs : List A) {x : A}
    → first_of xs ≡ ok x
    → first_of (map f xs) ≡ ok (f x)
unfolding first_of
first_of-map f [] h = cc
first_of-map f (y ∷ xs) h = ap (λ (o : Outcome _). o >>= λ a. ok (f a)) h

abbrev bit_of : Bool → ℕ
bit_of true = 1
bit_of false = 0

bit-bit_of : {F : Type 0} ⦃r : Runtime F⦄ (b : Bool) → bit {F = F} b ≡ r.of_ℕ (bit_of b)
bit-bit_of true = refl
bit-bit_of false = refl

-- The declared variables that a comprehension keeps: the first part and a test of the name.
abbrev pub picked :
    {F : Type 0} → Conversions F → String → (String → Bool) → List Variable → List Variable
picked texts part test es =
    keep (λ v. contains part (var_name texts v) && test (var_name texts v)) es

-- The names tell the declared variables apart, as far as the decoding goes: the first variable that
-- is found for a stage and a variant, or for a stage, is theirs, and those found for the batch sizes
-- of a stage begin with its own, in order.
pub record NamesTell {F : Type 0} (texts : Conversions F) (bs : List ℕ) (stages : List Stage)
    (es : List Variable) : Type 0 where
  pub variants_told :
      All
        (λ (s : Stage).
          All
            (λ v.
              first_of (picked texts "i[" (λ key. contains s.0 key && contains v key) es)
              ≡ ok (var_i s.0 v))
            s.1)
        stages
  pub replicas_told :
      All (λ (s : Stage). first_of (picked texts "n[" (contains s.0) es) ≡ ok (var_n s.0)) stages
  pub batches_told :
      All
        (λ (s : Stage).
          (rest : List Variable) × (picked texts "b[" (contains s.0) es
            ≡ map (var_b s.0) bs ++ rest))
        stages

positive : (n : ℕ) → (suc n == 0) ≡ false
positive n = ground arith

nonzero : (n : ℕ) → ¬ (n ≡ 0) → (n == 0) ≡ false
nonzero n h = ground arith

same_either : (b : Bool) {w v : String} → w ≡ v → (if b then some v else some w) ≡ some w
same_either true e = ap some (sym e)
same_either false e = refl

module _ (choose : String → Choice) where
  -- The values as numbers.
  abbrev code : Variable → ℕ
  code (var_i stage variant) = bit_of (takes_variant choose stage variant)
  code (var_b stage batch) = bit_of (takes_batch choose stage batch)
  code (var_aux stage variant batch) =
      bit_of (takes_variant choose stage variant && takes_batch choose stage batch)
  code (var_n stage) = (choose stage).replicas
  code (var_comb vs) = 0
  code var_accuracy = 0

  encoded-code :
      {F : Type 0} ⦃r : Runtime F⦄ (v : Variable) → encoded {F = F} choose v ≡ r.of_ℕ (code v)
  encoded-code (var_i stage variant) = bit-bit_of (takes_variant choose stage variant)
  encoded-code (var_b stage batch) = bit-bit_of (takes_batch choose stage batch)
  encoded-code (var_aux stage variant batch) =
      bit-bit_of (takes_variant choose stage variant && takes_batch choose stage batch)
  encoded-code (var_n stage) = refl
  encoded-code (var_comb vs) = refl
  encoded-code var_accuracy = refl

  -- What is to be decoded for a stage.
  abbrev pub decoded : Stage → Decoded
  decoded (stage, vs) = record {
    stage = stage;
    variant = some (choose stage).variant;
    replicas = (choose stage).replicas;
    batch = some (choose stage).batch;
  }

  -- One stage, from the dictionaries that were read.
  decode_variant-once :
      (d : Dict String ℕ) (stage : String) (vs : List String) (acc : Option String)
      → All
          (λ v.
            first_of (values_where (λ key. contains stage key && contains v key) d)
            ≡ ok (bit_of (takes_variant choose stage v)))
          vs
      → decode_variant d stage vs acc
        ≡ ok (
            if count_of (takes_variant choose stage) vs == 0
            then acc
            else some (choose stage).variant)
  unfolding decode_variant
  decode_variant-once d stage [] acc h = refl
  decode_variant-once d stage (v ∷ vs) acc (one, others) =
      elim (Bool-cases (takes_variant choose stage v)) [
        | inl here ↦
            rw (one, here, positive (count_of (takes_variant choose stage) vs))
              (decode_variant-once d stage vs (some v) others
                ∙ ap ok (
                    same_either (count_of (takes_variant choose stage) vs == 0)
                      ((eq_iff (choose stage).variant v).0 here)))
        | inr away ↦ rw (one, away) (decode_variant-once d stage vs acc others)
      ]

  decode_batch-once :
      (stage : String) (bs : List ℕ) (rest : List ℕ)
      → ¬ (count_of (takes_batch choose stage) bs ≡ 0)
      → decode_batch bs (map (λ b. bit_of (takes_batch choose stage b)) bs ++ rest)
        ≡ ok (some (choose stage).batch)
  unfolding decode_batch
  decode_batch-once stage [] rest h = elim (h refl) [ ]
  decode_batch-once stage (b ∷ bs) rest h = elim (Bool-cases (takes_batch choose stage b)) [
    | inl here ↦ rw here (ap (λ c. ok (some c)) (ground arith))
    | inr away ↦ rw away (decode_batch-once stage bs rest (rw away at h))
  ]

module _ {F : Type 0} ⦃r : Runtime F⦄ (texts : Conversions F) (choose : String → Choice)
    (rounds : (n : ℕ) → texts.round (r.of_ℕ n) ≡ ok n) where
  -- The solution that the solver reports: the names of the variables, with their values.
  abbrev pub solution_of : List Variable → Dict String F
  solution_of es = map (λ v. (var_name texts v, encoded choose v)) es

  abbrev coded : List Variable → Dict String ℕ
  coded es = map (λ v. (var_name texts v, code choose v)) es

  rounded :
      (es : List Variable)
      → traverse (λ (e : String × F). texts.round e.1 >>= λ value. ok (e.0, value)) (solution_of es)
        ≡ ok (coded es)
  unfolding traverse
  rounded [] = refl
  rounded (v ∷ es) =
      let e : texts.round (encoded choose v) ≡ ok (code choose v) =
        ap texts.round (encoded-code choose v) ∙ rounds (code choose v) in
      rw (e, rounded es) refl

  output_of-solution :
      (part : String) (es : List Variable)
      → output_of texts part (solution_of es)
        ≡ ok (coded (keep (λ v. contains part (var_name texts v)) es))
  unfolding output_of
  output_of-solution part es =
      ap (traverse (λ (e : String × F). texts.round e.1 >>= λ value. ok (e.0, value)))
        (keep-map (λ (e : String × F). contains part e.0) _ es)
      ∙ rounded (keep (λ v. contains part (var_name texts v)) es)

  values_where-coded :
      (part : String) (test : String → Bool) (es : List Variable)
      → values_where test (coded (keep (λ v. contains part (var_name texts v)) es))
        ≡ map (code choose) (picked texts part test es)
  unfolding values_where
  values_where-coded part test es =
      ap (map (λ (e : String × ℕ). e.1)) (keep-map (λ (e : String × ℕ). test e.0) _ _)
      ∙ map-map _ _ _
      ∙ ap (map (code choose)) (keep-keep _ _ es)

  -- One of the variants and one of the batch sizes are chosen for the stage.
  abbrev pub IsCovered : List ℕ → Stage → Type 0
  IsCovered bs (stage, vs) =
      (¬ (count_of (takes_variant choose stage) vs ≡ 0))
      × (¬ (count_of (takes_batch choose stage) bs ≡ 0))

  -- What `output_of` leaves of the solution.
  abbrev left_of : String → List Variable → Dict String ℕ
  left_of part es = coded (keep (λ v. contains part (var_name texts v)) es)

  variant_found :
      (es : List Variable) (stage : String) (vs : List String)
      → All
          (λ v.
            first_of (picked texts "i[" (λ key. contains stage key && contains v key) es)
            ≡ ok (var_i stage v))
          vs
      → ¬ (count_of (takes_variant choose stage) vs ≡ 0)
      → decode_variant (left_of "i[" es) stage vs none ≡ ok (some (choose stage).variant)
  variant_found es stage vs told chosen =
      decode_variant-once choose (left_of "i[" es) stage vs none (each vs told)
      ∙ ap (λ b. ok (if b then none else some (choose stage).variant)) (nonzero _ chosen)
    where
      each :
          (vs : List String)
          → All
              (λ v.
                first_of (picked texts "i[" (λ key. contains stage key && contains v key) es)
                ≡ ok (var_i stage v))
              vs
          → All
              (λ v.
                first_of
                  (values_where (λ key. contains stage key && contains v key) (left_of "i[" es))
                ≡ ok (bit_of (takes_variant choose stage v)))
              vs
      each [] h = tt
      each (v ∷ vs) h = (
        ap first_of (values_where-coded "i[" (λ key. contains stage key && contains v key) es)
            ∙ first_of-map (code choose) _ h.0,
        each vs h.1,
      )

  batch_found :
      (es : List Variable) (stage : String) (bs : List ℕ) (rest : List Variable)
      → picked texts "b[" (contains stage) es ≡ map (var_b stage) bs ++ rest
      → ¬ (count_of (takes_batch choose stage) bs ≡ 0)
      → decode_batch bs (values_where (contains stage) (left_of "b[" es))
        ≡ ok (some (choose stage).batch)
  batch_found es stage bs rest told chosen =
      ap (decode_batch bs) (
        values_where-coded "b[" (contains stage) es
        ∙ ap (map (code choose)) told
        ∙ map-append (code choose) (map (var_b stage) bs) rest
        ∙ ap (λ l. l ++ map (code choose) rest) (map-map (code choose) (var_b stage) bs))
      ∙ decode_batch-once choose stage bs (map (code choose) rest) chosen

  stages_found :
      (es : List Variable) (bs : List ℕ) (stages : List Stage)
      → NamesTell texts bs stages es
      → All (IsCovered bs) stages
      → All
          (λ s.
            decode_stage texts bs (left_of "i[" es) (left_of "n[" es) (left_of "b[" es) s
            ≡ ok (decoded choose s))
          stages
  unfolding decode_stage decode_replicas
  stages_found es bs [] told covered = tt
  stages_found es bs ((stage, vs) ∷ stages) told (c, cs) =
      let v = variant_found es stage vs told.variants_told.0 c.0 in
      let n =
        ap first_of (values_where-coded "n[" (contains stage) es)
        ∙ first_of-map (code choose) _ told.replicas_told.0 in
      let b = batch_found es stage bs told.batches_told.0.0 told.batches_told.0.1 c.1 in
      (
        rw (v, n, b) refl,
        stages_found es bs stages
            (record {
              variants_told = told.variants_told.1;
              replicas_told = told.replicas_told.1;
              batches_told = told.batches_told.1;
            })
            cs,
      )

  -- From a solution that stands for a choice of one of the variants and one of the batch sizes for
  -- each stage, `gurobi_optmizer` decodes that choice, where the names of the variables tell them
  -- apart.
  pub decode-solution_of :
      (es : List Variable) (bs : List ℕ) (stages : List Stage)
      → NamesTell texts bs stages es
      → All (IsCovered bs) stages
      → decode texts bs stages (solution_of es) ≡ ok (map (decoded choose) stages)
  unfolding decode
  decode-solution_of es bs stages told covered =
      rw (output_of-solution "i[" es, output_of-solution "n[" es, output_of-solution "b[" es)
        (traverse-map _ (decoded choose) stages (stages_found es bs stages told covered))
