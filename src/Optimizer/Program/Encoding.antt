-- ===== src/Optimizer/Program/Encoding.antt =====
-- optimizer/optimizer.py: the values of the variables of `gurobi_optmizer` that stand for a choice of a
-- variant, a batch size and a number of replicas for each stage.
use ipa_arman.Prelude.{
  ℕ, suc, ◌+◌, String, ◌≡◌, refl, ap, ◌∙◌, ◌↔◌, inl, inr, Bool, true, false, ◌&&◌, List, [], ◌∷◌,
  map, ◌==◌, str_eq, if◌then◌else◌, arith, Bool-cases, All, count_of, Runtime, IsExact,
}
use ipa_arman.Optimizer.Program.{
  Variable, var_i, var_b, var_aux, var_n, var_comb, var_accuracy, Term, num, val, plus, equal,
  Constraint, quicksum, evaluate, is_one, satisfies, satisfies_all,
}

pub record Choice : Type 0 where
  pub variant : String
  pub batch : ℕ
  pub replicas : ℕ

-- What `choose`, which gives the choice for a stage, takes.
module _ (choose : String → Choice) where
  abbrev pub takes_variant : String → String → Bool
  takes_variant stage variant = str_eq (choose stage).variant variant

  abbrev pub takes_batch : String → ℕ → Bool
  takes_batch stage batch = (choose stage).batch == batch

module _ {F : Type 0} ⦃r : Runtime F⦄ where
  open r use {of_ℕ, add, eq}

  abbrev pub bit : Bool → F
  bit true = of_ℕ 1
  bit false = of_ℕ 0

  -- The values that stand for the choices.
  module _ (choose : String → Choice) where
    abbrev pub encoded : Variable → F
    encoded (var_i stage variant) = bit (takes_variant choose stage variant)
    encoded (var_b stage batch) = bit (takes_batch choose stage batch)
    encoded (var_aux stage variant batch) =
        bit (takes_variant choose stage variant && takes_batch choose stage batch)
    encoded (var_n stage) = of_ℕ (choose stage).replicas
    encoded (var_comb vs) = of_ℕ 0
    encoded var_accuracy = of_ℕ 0

  module _ (x : Variable → F) where
    -- A constraint that holds at the values.
    abbrev pub Holds : Constraint F → Type 0
    Holds c = satisfies x c ≡ true

    pub satisfies_all_iff : (cs : List (Constraint F)) → (satisfies_all x cs ≡ true) ↔ All Holds cs
    unfolding satisfies_all
    satisfies_all_iff [] = ((λ h. tt), λ h. refl)
    satisfies_all_iff (c ∷ cs) =
        let (to, from) = satisfies_all_iff cs in
        elim (Bool-cases (satisfies x c)) [
          | inl holds ↦ ((λ h. (holds, to (rw holds at h))), λ h. rw (holds) (from h.1))
          | inr fails ↦ ((λ h. let h1 = rw fails at h in cc), λ h. let h1 = h.0 in cc)
        ]

  module _ (exact : IsExact F) where
    open exact use {eq-of_ℕ, add-of_ℕ}

    pub is_one-bit : (b : Bool) → is_one (bit b) ≡ b
    unfolding is_one
    is_one-bit true = eq-of_ℕ 1 1
    is_one-bit false = eq-of_ℕ 0 1

    pub eq-bit : (a : Bool) → eq (bit a) (bit a) ≡ true
    eq-bit true = eq-of_ℕ 1 1
    eq-bit false = eq-of_ℕ 0 0

    add-bit : (n : ℕ) (b : Bool) → add (of_ℕ n) (bit b) ≡ of_ℕ (if b then suc n else n)
    add-bit n true = add-of_ℕ n 1 ∙ ap of_ℕ (omega arith)
    add-bit n false = add-of_ℕ n 0 ∙ ap of_ℕ (omega arith)

    -- The sum of variables that are zero or one counts the ones.
    pub quicksum-bits {ℓ} :
        {A : Type ℓ} (x : Variable → F) (name : A → Variable) (test : A → Bool)
        → ((a : A) → x (name a) ≡ bit (test a))
        → (t : Term F) (n : ℕ) (as_ : List A) → evaluate x t ≡ of_ℕ n
        → evaluate x (quicksum t (map (λ a. val (name a)) as_)) ≡ of_ℕ (n + count_of test as_)
    unfolding quicksum evaluate
    quicksum-bits x name test bits t n [] e = e ∙ ap of_ℕ (omega arith)
    quicksum-bits x name test bits t n (a ∷ as_) e =
        let step : add (evaluate x t) (x (name a)) ≡ of_ℕ (if test a then suc n else n) =
          rw (e, bits a) (add-bit n (test a)) in
        quicksum-bits x name test bits (plus t (val (name a))) (if test a then suc n else n) as_
          step
        ∙ ap of_ℕ (ground arith)

    -- Such a sum is one where the test passes once.
    pub sum_one_iff {ℓ} :
        {A : Type ℓ} (x : Variable → F) (name : A → Variable) (test : A → Bool) (as_ : List A)
        → ((a : A) → x (name a) ≡ bit (test a))
        → Holds x (equal (quicksum (num (of_ℕ 0)) (map (λ a. val (name a)) as_)) (num (of_ℕ 1)))
          ↔ (count_of test as_ ≡ 1)
    unfolding satisfies evaluate
    sum_one_iff x name test as_ bits =
        let total = quicksum-bits x name test bits (num (of_ℕ 0)) 0 as_ refl in
        let e : satisfies x
              (equal (quicksum (num (of_ℕ 0)) (map (λ a. val (name a)) as_)) (num (of_ℕ 1)))
            ≡ (count_of test as_ == 1) =
          ap (λ y. eq y (of_ℕ 1)) total ∙ eq-of_ℕ (0 + count_of test as_) 1 ∙ ground arith in
        ground arith
