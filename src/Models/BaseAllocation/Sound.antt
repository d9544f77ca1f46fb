-- ===== src/Models/BaseAllocation/Sound.antt =====
-- optimizer/models.py: what `base_allocations` returns, and that its loops end.
use mathlib.Core.Path.{subst}
use mathlib.Core.Option.{some-injective}
use ipa_arman.Prelude.{
  ℕ, ◌+◌, ◌≤◌, ◌<◌, String, ◌≡◌, ◌≢◌, refl, sym, ◌∙◌, not, Option, none, some, List, ◌∷◌, [], arith,
  ap, Bool-cases, inl, inr, str_eq, key_error, ok, >>=-eq-ok, ok-injective, raised_ne_ok, or_raise,
  or_raise-eq-ok, length, Dict, keys, lookup, Runtime,
}
use ipa_arman.Models.Profile.{ResourceAllocation}
use ipa_arman.Models.Task.{Task, variants_accuracies, sla}
use ipa_arman.Models.BaseAllocation.{
  allocation_num_sustains, settle_fuel, settle_first, settle_later, settle_rest, settle_all,
  require_all, base_allocations,
}
use ipa_arman.Models.BaseAllocation.Settle.{
  At, Settles, settle_first-Settles, settle_later-Settles, get_elem?-lt,
}

module _ {F : Type 0} ⦃r : Runtime F⦄ where
  pub fuel_enough : (sample : List F) (i : ℕ) → length sample < settle_fuel sample + i
  unfolding settle_fuel
  fuel_enough sample i = omega arith

  module _ (sample : List F) (sustains : Dict String (Dict F ℕ)) where
    -- From the position `i` of the sample on: each variant stands at a position that is not before
    -- its predecessor's, with an allocation under which some batch size of its own is sustained.
    abbrev pub Chain : ℕ → Dict String (Option (ResourceAllocation F)) → Type 0
    Chain i [] = Unit
    Chain i ((v, some a) ∷ d) =
        (j : ℕ) × (sustain : Dict F ℕ) × (n : ℕ) × (i ≤ j)
        × (lookup str_eq v sustains ≡ some sustain)
        × At sample sustain a.cpu n j
        × (n ≢ 0)
        × Chain j d
    Chain i ((v, none) ∷ d) = (j : ℕ) × (i ≤ j) × Chain j d

    pub Settles-lt :
        (sustain : Dict F ℕ) (i j : ℕ) (a : Option (ResourceAllocation F))
        → Settles sample sustain i (ok (a, j))
        → j < length sample
    Settles-lt sustain i j none (le, last) = omega arith
    Settles-lt sustain i j (some a) (le, n, at, pos) = get_elem?-lt sample j at.position

    Chain-cons :
        (v : String) (sustain : Dict F ℕ) (i j : ℕ) (a : Option (ResourceAllocation F))
        → (d : Dict String (Option (ResourceAllocation F)))
        → lookup str_eq v sustains ≡ some sustain
        → Settles sample sustain i (ok (a, j))
        → Chain j d
        → Chain i ((v, a) ∷ d)
    Chain-cons v sustain i j none d e (le, last) c = (j, le, c)
    Chain-cons v sustain i j (some a) d e (le, n, at, pos) c = (j, sustain, n, le, e, at, pos, c)

    settle_rest-Chain :
        (vs : List String) (i : ℕ) {d : Dict String (Option (ResourceAllocation F))}
        → i < length sample
        → settle_rest sample sustains vs i ≡ ok d
        → Chain i d × (keys d ≡ vs)
    unfolding settle_rest keys
    settle_rest-Chain [] i lt h = subst (λ d. Chain i d × (keys d ≡ [])) (ok-injective h) (tt, refl)
    settle_rest-Chain (v ∷ vs) i {d} lt h =
        let (sustain, e1, h1) = >>=-eq-ok (or_raise (lookup str_eq v sustains) key_error) _ h in
        let ((a, j), e2, h2) =
          >>=-eq-ok (settle_later sample sustain (settle_fuel sample) i) _ h1 in
        let (rest, e3, h3) = >>=-eq-ok (settle_rest sample sustains vs j) _ h2 in
        let lands =
          subst (Settles sample sustain i) e2 (
            settle_later-Settles sample sustain (settle_fuel sample) i lt (fuel_enough sample i)) in
        let (chain, same) = settle_rest-Chain vs j (Settles-lt sustain i j a lands) e3 in
        subst (λ d. Chain i d × (keys d ≡ v ∷ vs)) (ok-injective h3)
          (
            Chain-cons v sustain i j a rest (or_raise-eq-ok (lookup str_eq v sustains) _ e1) lands
                chain,
            ap (λ l. v ∷ l) same,
          )

  -- The allocations of the first variant of `vs`, in the order of its counts.
  pub record IsSample (sustains : Dict String (Dict F ℕ)) (vs : List String) (sample : List F)
      : Type 0 where
    pub variant : String
    pub others : List String
    pub counts : Dict F ℕ
    pub first : vs ≡ variant ∷ others
    pub counted : lookup str_eq variant sustains ≡ some counts
    pub allocations : sample ≡ keys counts

  settle_all-Chain :
      (sustains : Dict String (Dict F ℕ)) (vs : List String)
      → {d : Dict String (Option (ResourceAllocation F))} → settle_all sustains vs ≡ ok d
      → (sample : List F) × IsSample sustains vs sample × Chain sample sustains 0 d × (keys d ≡ vs)
  unfolding settle_all keys
  settle_all-Chain sustains [] h = absurd (raised_ne_ok h)
  settle_all-Chain sustains (v ∷ vs) {d} h =
      let (sustain, e1, h1) = >>=-eq-ok (or_raise (lookup str_eq v sustains) key_error) _ h in
      let there = or_raise-eq-ok (lookup str_eq v sustains) _ e1 in
      let sample = keys sustain in
      let ((a, j), e2, h2) = >>=-eq-ok (settle_first sample sustain (settle_fuel sample) 0) _ h1 in
      let (rest, e3, h3) = >>=-eq-ok (settle_rest sample sustains vs j) _ h2 in
      let lands = subst (Settles sample sustain 0) e2 (
        settle_first-Settles sample sustain (settle_fuel sample) 0 (omega arith)
          (fuel_enough sample 0)) in
      let (chain, same) =
        settle_rest-Chain sample sustains vs j (Settles-lt sample sustains sustain 0 j a lands)
          e3 in
      let (all, names) =
        subst (λ d. Chain sample sustains 0 d × (keys d ≡ v ∷ vs)) (ok-injective h3)
          (
            Chain-cons sample sustains v sustain 0 j a rest there lands chain,
            ap (λ l. v ∷ l) same,
          ) in
      (
        sample,
        record {
          variant = v;
          others = vs;
          counts = sustain;
          first = refl;
          counted = there;
          allocations = refl;
        },
        all,
        names,
      )

  -- The allocations that are returned, as the loops hold them.
  abbrev pub as_found :
      Dict String (ResourceAllocation F) → Dict String (Option (ResourceAllocation F))
  as_found [] = []
  as_found ((v, a) ∷ d) = (v, some a) ∷ as_found d

  keys-as_found : (d : Dict String (ResourceAllocation F)) → keys (as_found d) ≡ keys d
  unfolding keys
  keys-as_found [] = refl
  keys-as_found ((v, a) ∷ d) = ap (λ l. v ∷ l) (keys-as_found d)

  require_all-as_found :
      (t : Task F) (d : Dict String (Option (ResourceAllocation F)))
      → {e : Dict String (ResourceAllocation F)} → require_all t d ≡ ok e
      → d ≡ as_found e
  unfolding require_all
  require_all-as_found t [] h = ap as_found (ok-injective h)
  require_all-as_found t ((v, some a) ∷ d) h =
      let (rest, e1, h1) = >>=-eq-ok (require_all t d) _ h in
      ap (λ l. (v, some a) ∷ l) (require_all-as_found t d e1) ∙ ap as_found (ok-injective h1)
  require_all-as_found t ((v, none) ∷ d) h =
      let (s, e1, h1) = >>=-eq-ok (sla t) _ h in absurd (raised_ne_ok h1)

  -- When `base_allocations` returns a table, it has one entry for each variant, in the order of the
  -- accuracies. With the allocations of the least accurate variant in the order of its counts, each
  -- allocation stands at a position of them and sustains at least one batch size of its variant, by
  -- the counts of the first pass, and a more accurate variant never stands at an earlier position.
  pub base_allocations-Chain :
      (t : Task F) {d : Dict String (ResourceAllocation F)}
      → base_allocations t ≡ ok (some d)
      → (sustains : Dict String (Dict F ℕ)) × (sample : List F) × (allocation_num_sustains t
          ≡ ok sustains)
        × IsSample sustains (keys (variants_accuracies t)) sample
        × Chain sample sustains 0 (as_found d)
        × (keys d ≡ keys (variants_accuracies t))
  unfolding base_allocations
  base_allocations-Chain t {d} h = elim (Bool-cases (not (str_eq t.allocation_mode "base"))) [
    | inl other ↦ let h0 = rw (other, base_allocations) at h in cc
    | inr base ↦
        let h0 = rw (base, base_allocations) at h in
        let (sustains, e1, h1) = >>=-eq-ok (allocation_num_sustains t) _ h0 in
        let (settled, e2, h2) =
          >>=-eq-ok (settle_all sustains (keys (variants_accuracies t))) _ h1 in
        let (found, e3, h3) = >>=-eq-ok (require_all t settled) _ h2 in
        let (sample, is_sample, chain, same) =
          settle_all-Chain sustains (keys (variants_accuracies t)) e2 in
        let all =
          require_all-as_found t settled e3 ∙ ap as_found (some-injective _ _ (ok-injective h3)) in
        (
          sustains,
          sample,
          e1,
          is_sample,
          subst (Chain sample sustains 0) all chain,
          sym (keys-as_found d) ∙ sym (ap keys all) ∙ same,
        )
  ]
