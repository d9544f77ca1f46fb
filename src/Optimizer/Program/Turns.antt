-- ===== src/Optimizer/Program/Turns.antt =====
-- optimizer/optimizer.py: what the constraints of `gurobi_optmizer` on throughputs say of a choice for each stage.
use mathlib.Core.Path.{subst}
use ipa_arman.Prelude.{
  ℕ, String, ◌≡◌, refl, sym, ◌∙◌, ◌↔◌, inl, inr, Bool, true, false, ◌&&◌, List, [], ◌∷◌, Bool-cases,
  All, ok, >>=-eq-ok, ok-injective, traverse, traverse-cons, if◌then◌else◌, Runtime, IsExact,
}
use ipa_arman.Optimizer.Parameters.{Table}
use ipa_arman.Optimizer.Program.{
  var_i, var_b, var_aux, var_n, Constraint, all_of, when_one, at_least, times, val, num, evaluate,
  is_one, satisfies,
}
use ipa_arman.Optimizer.Program.Build.{coefficient, throughput_constraints, pairs}
use ipa_arman.Optimizer.Program.Encoding.{
  Choice, takes_variant, takes_batch, bit, encoded, Holds, is_one-bit,
}

module _ {F : Type 0} ⦃r : Runtime F⦄ (exact : IsExact F) (choose : String → Choice) where
  open r use {of_ℕ, mul, le}

  -- A constraint that holds at the values that stand for the choices.
  abbrev pub Kept : Constraint F → Type 0
  Kept c = Holds {F = F} (encoded choose) c

  -- The replicas of a stage carry the load with the throughput of an entry of the table.
  abbrev pub Carries : Table F → ℕ → String → String → ℕ → Type 0
  Carries table arrival_rate stage variant batch =
      (h : F)
      → coefficient table stage variant batch ≡ ok h
      → le (of_ℕ arrival_rate) (mul (of_ℕ (choose stage).replicas) h) ≡ true

  -- The two constraints of one turn hold.
  abbrev pub Turn : Table F → ℕ → String × String × ℕ → Type 0
  Turn table arrival_rate (stage, variant, batch) =
      takes_variant choose stage variant ≡ true
      → takes_batch choose stage batch ≡ true
      → Carries table arrival_rate stage variant batch

  and_bits :
      (v b : Bool)
      → r.eq
          (bit (v && b))
          (if is_one {F = F} (bit v) && is_one {F = F} (bit b) then of_ℕ 1 else of_ℕ 0)
        ≡ true
  and_bits v b = rw (is_one-bit exact v, is_one-bit exact b) (chosen v b)
    where
      chosen : (v b : Bool) → r.eq (bit (v && b)) (if v && b then r.of_ℕ 1 else r.of_ℕ 0) ≡ true
      chosen true true = exact.eq-of_ℕ 1 1
      chosen true false = exact.eq-of_ℕ 0 0
      chosen false b = exact.eq-of_ℕ 0 0

  and_holds :
      (stage variant : String) (batch : ℕ)
      → Kept (all_of (var_aux stage variant batch) (var_i stage variant) (var_b stage batch))
  unfolding satisfies
  and_holds stage variant batch =
      and_bits (takes_variant choose stage variant) (takes_batch choose stage batch)

  -- The two constraints of a turn, with the throughput that was read.
  abbrev turn_of : ℕ → String → String → ℕ → F → Constraint F × Constraint F
  turn_of arrival_rate stage variant batch x = (
    all_of (var_aux stage variant batch) (var_i stage variant) (var_b stage batch),
    when_one (var_aux stage variant batch)
        (at_least (times (val (var_n stage)) (num x)) (num (of_ℕ arrival_rate))),
  )

  abbrev Both : Constraint F × Constraint F → Type 0
  Both (c, d) = Kept c × Kept d

  Both-turn_of :
      (arrival_rate : ℕ) (stage variant : String) (batch : ℕ) (x : F)
      → Both (turn_of arrival_rate stage variant batch x) ↔ (
          takes_variant choose stage variant ≡ true
          → takes_batch choose stage batch ≡ true
          → le (of_ℕ arrival_rate) (mul (of_ℕ (choose stage).replicas) x) ≡ true)
  unfolding satisfies evaluate
  Both-turn_of arrival_rate stage variant batch x =
      let v = takes_variant choose stage variant in
      let b = takes_batch choose stage batch in
      let one = is_one-bit exact (v && b) in
      (
        (λ h p q. let h1 = rw (one, p, q) at h.1 in h1),
        λ h. (
          and_holds stage variant batch,
          elim (Bool-cases v) [
            | inr away ↦ rw (one, away) refl
            | inl here ↦ elim (Bool-cases b) [
              | inr away ↦ rw (one, here, away) refl
              | inl there ↦ rw (one, here, there) (h here there)
            ]
          ],
        ),
      )

  Turn-iff :
      (table : Table F) (arrival_rate : ℕ) (stage variant : String) (batch : ℕ)
      {turn : Constraint F × Constraint F}
      → throughput_constraints table arrival_rate (stage, variant, batch) ≡ ok turn
      → Both turn ↔ Turn table arrival_rate (stage, variant, batch)
  unfolding throughput_constraints
  Turn-iff table arrival_rate stage variant batch {turn} h =
      let (x, e, h1) = >>=-eq-ok (coefficient table stage variant batch) _ h in
      let (to, from) = Both-turn_of arrival_rate stage variant batch x in
      subst (λ y. Both y ↔ Turn table arrival_rate (stage, variant, batch)) (ok-injective h1)
        (
          (λ holds p q y f.
              subst (λ z. le (of_ℕ arrival_rate) (mul (of_ℕ (choose stage).replicas) z) ≡ true)
                (ok-injective (sym e ∙ f)) (to holds p q)),
          λ carries. from (λ p q. carries p q x e),
        )

  pub turns_iff :
      (table : Table F) (arrival_rate : ℕ) (keys : List (String × String × ℕ))
      {turns : List (Constraint F × Constraint F)}
      → traverse (throughput_constraints table arrival_rate) keys ≡ ok turns
      → All Kept (pairs turns) ↔ All (Turn table arrival_rate) keys
  unfolding traverse pairs
  turns_iff table arrival_rate [] {turns} h =
      subst (λ cs. All Kept (pairs cs) ↔ Unit) (ok-injective h) ((λ g. tt), λ g. tt)
  turns_iff table arrival_rate ((stage, variant, batch) ∷ keys) {turns} h =
      let (turn, rest, one, others, e) = traverse-cons _ (stage, variant, batch) keys h in
      let (to1, from1) = Turn-iff table arrival_rate stage variant batch one in
      let (to, from) = turns_iff table arrival_rate keys others in
      subst
        (λ cs. All Kept (pairs cs) ↔ All (Turn table arrival_rate) ((stage, variant, batch) ∷ keys))
        e ((λ (c, (d, g)). (to1 (c, d), to g)), λ g. let (c, d) = from1 g.0 in (c, (d, from g.1)))
