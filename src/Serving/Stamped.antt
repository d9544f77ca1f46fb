-- ===== src/Serving/Stamped.antt =====
-- pipelines/router/models.py: the times that the router leaves in the reply.
use ipa_arman.Prelude.{
  String, ◌≡◌, refl, sym, ap, ◌∙◌, inl, inr, false, some, List, [], ◌∷◌, str_eq, eq_iff,
  str_eq_self, Bool-cases, Outcome, ok, >>=-eq-ok, ok-injective, Dict, lookup, insert, Runtime,
}
use ipa_arman.Serving.{Tensor, Literals, ModelTimes, add_times}
use ipa_arman.Serving.Router.{Settings, stamp}

module _ {ℓ} {V : Type ℓ} where
  lookup-insert_same :
      (key : String) (v : V) (d : Dict String V)
      → lookup str_eq key (insert str_eq key v d) ≡ some v
  unfolding lookup insert
  lookup-insert_same key v [] = rw (str_eq_self key) refl
  lookup-insert_same key v ((j, w) ∷ d) = elim (Bool-cases (str_eq j key)) [
    | inl here ↦ rw (here, here) refl
    | inr away ↦ rw (away, away) (lookup-insert_same key v d)
  ]

  lookup-insert_other :
      (key other : String) (v : V) (d : Dict String V)
      → str_eq key other ≡ false
      → lookup str_eq other (insert str_eq key v d) ≡ lookup str_eq other d
  unfolding lookup insert
  lookup-insert_other key other v [] apart = rw apart refl
  lookup-insert_other key other v ((j, w) ∷ d) apart = elim (Bool-cases (str_eq j key)) [
    | inl here ↦
        let e : str_eq j other ≡ false = ap (λ k. str_eq k other) ((eq_iff j key).0 here) ∙ apart in
        rw (here, e) refl
    | inr away ↦ elim (Bool-cases (str_eq j other)) [
      | inl there ↦ rw (away, there) refl
      | inr not_there ↦ rw (away, not_there) (lookup-insert_other key other v d apart)
    ]
  ]

module _ {F : Type 0} ⦃r : Runtime F⦄ (lits : Literals F) (settings : Settings F)
    (infer : String → Tensor → Outcome Tensor) (elapsed : List String → F) (serving : F) where
  -- Where `eval` reads back what `str` prints of the times with the router's added, the reply that the
  -- router stamps carries its own clocks under its name, and those of every other model as the last
  -- model left them.
  pub stamp-reads :
      (arrival : F) (output : Tensor) (text : String) {reply : Tensor}
      → output.parameters.times ≡ some text
      → ((before : ModelTimes F)
          → lits.eval_times text ≡ ok before
          → lits.eval_times (lits.print_times (add_times settings.unit_id arrival serving before))
            ≡ ok (add_times settings.unit_id arrival serving before))
      → stamp lits settings infer elapsed serving arrival output ≡ ok reply
      → (new : String) × (before after : ModelTimes F) × (lits.eval_times text ≡ ok before)
        × (reply.parameters.times ≡ some new)
        × (lits.eval_times new ≡ ok after)
        × (lookup str_eq settings.unit_id after
            ≡ some (("arrival", arrival) ∷ ("serving", serving) ∷ []))
        × ((model : String)
            → str_eq settings.unit_id model ≡ false
            → lookup str_eq model after ≡ lookup str_eq model before)
  unfolding stamp add_times
  stamp-reads arrival output text {reply} there reads h =
      let h0 = rw there at h in
      let (before, g, h2) = >>=-eq-ok (lits.eval_times text) _ h0 in
      let clock = ("arrival", arrival) ∷ ("serving", serving) ∷ [] in
      let after = insert str_eq settings.unit_id clock before in
      (
        lits.print_times after,
        before,
        after,
        g,
        ap (λ (t : Tensor). t.parameters.times) (sym (ok-injective h2)),
        reads before g,
        lookup-insert_same settings.unit_id clock before,
        λ model apart. lookup-insert_other settings.unit_id model clock before apart,
      )
