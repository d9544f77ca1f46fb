-- ===== src/Results/Changes.antt =====
-- experiments/utils/parser.py: `points_with_change`, which tells at which time steps of an adaptation
-- log the configuration of a node has changed.
use mathlib.Core.Path.{subst}
use mathlib.Core.Option.{some-injective}
use ipa_arman.Prelude.{
  String, ◌≡◌, ◌≢◌, ◌↔◌, refl, sym, ◌∙◌, ap, inl, inr, Bool-cases, >>=-eq-ok, ok-injective,
  ok-false≢true, or_raise-eq-ok, some, Empty, Bool, true, false, List, [], ◌∷◌, str_eq,
  if◌then◌else◌, key_error, Outcome, ok, ◌>>=◌, or_raise, traverse, Dict, lookup, All,
}

-- The test for equal values of a knob is Python's `==` on what JSON holds.
module _ {V : Type 0} (same_value : V → V → Bool) where
  -- The loop over the knobs of a configuration, with the one before.
  unfoldable pub differs : Dict String V → Dict String V → Outcome Bool
  differs last [] = ok false
  differs last ((knob, value) ∷ knobs) = do
    before ← or_raise (lookup str_eq knob last) key_error
    if same_value before value then differs last knobs else ok true

  -- The loop over the time steps, with `last_config`: an empty one is only replaced.
  unfoldable pub changes_from : Dict String V → List (Dict String V) → Outcome (List Bool)
  changes_from last [] = ok []
  changes_from [] (config ∷ configs) = changes_from config configs
  changes_from (knob ∷ knobs) (config ∷ configs) = do
    changed ← differs (knob ∷ knobs) config
    flags ← changes_from config configs
    ok (changed ∷ flags)

  -- `config["config"][node]`
  unfoldable pub configs_of :
      String → List (Dict String (Dict String V)) → Outcome (List (Dict String V))
  configs_of node timesteps =
      traverse (λ config. or_raise (lookup str_eq node config) key_error) timesteps

  unfoldable pub points_with_change :
      List String → List (Dict String (Dict String V)) → Outcome (Dict String (List Bool))
  points_with_change nodes timesteps =
      traverse
        (λ node. configs_of node timesteps >>= λ configs.
          changes_from [] configs >>= λ flags. ok (node, flags))
        nodes

  -- Each knob of the configuration stands in the one before, with an equal value.
  abbrev pub Unchanged : Dict String V → Dict String V → Type 0
  Unchanged last config =
      All
        (λ (e : String × V).
          (before : V) × (lookup str_eq e.0 last ≡ some before) × (same_value before e.1 ≡ true))
        config

  -- One flag for each time step but the first: it is False just if the configuration is unchanged.
  abbrev pub Tells : List (Dict String V) → List Bool → Type 0
  Tells [] [] = Unit
  Tells (c ∷ []) [] = Unit
  Tells (c ∷ d ∷ cs) (flag ∷ flags) = ((flag ≡ false) ↔ Unchanged c d) × Tells (d ∷ cs) flags
  Tells _ _ = Empty

  differs-Unchanged :
      (last config : Dict String V) {flag : Bool}
      → differs last config ≡ ok flag
      → (flag ≡ false) ↔ Unchanged last config
  unfolding differs
  differs-Unchanged last [] h = ((λ e. tt), λ u. sym (ok-injective h))
  differs-Unchanged last ((knob, value) ∷ knobs) h =
      let (before, found, h1) = >>=-eq-ok (or_raise (lookup str_eq knob last) key_error) _ h in
      let there = or_raise-eq-ok (lookup str_eq knob last) _ found in
      elim (Bool-cases (same_value before value)) [
        | inl same ↦
            let rest = differs-Unchanged last knobs (rw same at h1) in
            ((λ e. ((before, there, same), rest.0 e)), λ u. rest.1 u.1)
        | inr other ↦
            let up = ok-injective (rw other at h1) in
            (
              (λ e. absurd (ok-false≢true (ap ok (sym (up ∙ e))))),
              λ ((b, at, same), others).
                  let equal = ap (λ w. same_value w value) (some-injective _ _ (sym at ∙ there)) in
                  absurd (ok-false≢true (ap ok (sym other ∙ sym equal ∙ same))),
            )
      ]

  changes_from-Tells :
      (c : Dict String V) (cs : List (Dict String V)) {flags : List Bool}
      → c ≢ []
      → All (λ d. d ≢ []) cs
      → changes_from c cs ≡ ok flags
      → Tells (c ∷ cs) flags
  unfolding changes_from
  changes_from-Tells c [] some_ others h = subst (Tells (c ∷ [])) (ok-injective h) tt
  changes_from-Tells [] (d ∷ cs) some_ others h = elim (some_ refl) [ ]
  changes_from-Tells (k ∷ c) (d ∷ cs) some_ (one, others) h =
      let (flag, h1, k1) = >>=-eq-ok (differs (k ∷ c) d) _ h in
      let (flags, h2, k2) = >>=-eq-ok (changes_from d cs) _ k1 in
      subst (Tells ((k ∷ c) ∷ d ∷ cs)) (ok-injective k2)
        (differs-Unchanged (k ∷ c) d h1, changes_from-Tells d cs one others h2)

  -- Where no time step has an empty configuration of the node and the flags are returned, there is one
  -- for each time step but the first, and it is False just if each knob of the configuration stands in
  -- the one before with an equal value.
  pub changes_from_lem :
      (configs : List (Dict String V)) {flags : List Bool}
      → All (λ d. d ≢ []) configs
      → changes_from [] configs ≡ ok flags
      → Tells configs flags
  unfolding changes_from
  changes_from_lem [] h done = subst (Tells []) (ok-injective done) tt
  changes_from_lem (c ∷ cs) (one, others) done = changes_from-Tells c cs one others done
