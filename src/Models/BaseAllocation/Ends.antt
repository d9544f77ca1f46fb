-- ===== src/Models/BaseAllocation/Ends.antt =====
-- optimizer/models.py: the `while` loops of `base_allocations` end, and how an unresponsive first
-- variant is reported.
use mathlib.Core.Path.{subst}
use ipa_arman.Prelude.{
  >>=-Halts_at, ℕ, zero, suc, ◌+◌, ◌≤◌, ◌<◌, String, ◌≡◌, Bool, true, false, not, Option, none,
  some, List, ◌∷◌, [], arith, Bool-cases, Option-cases, inl, inr, str_eq, ltb, ◌==◌, key_error,
  index_error, out_of_fuel, Outcome, ok, raised, or_raise, Halts, >>=-Halts, traverse-Halts,
  or_raise-Halts, traverse, get_elem?, length, Dict, keys, insert, lookup, Runtime,
}
use ipa_arman.Models.Profile.{
  ResourceAllocation, Model, profile_throughput, get_measured_throughput, profiled_batches,
}
use ipa_arman.Models.Task.{Task, variants_accuracies, variant_sla, models_by_variant, sla}
use ipa_arman.Models.BaseAllocation.{
  can_sustain, check_batches, check_allocations, check_variant, allocation_num_sustains, count_true,
  settle_fuel, settle_first, settle_later, settle_rest, settle_all, require_all, base_allocations,
  sustained_at,
}
use ipa_arman.Models.BaseAllocation.Settle.{
  Settles, settle_first-Settles, settle_later-Settles, get_elem?-lt,
}
use ipa_arman.Models.BaseAllocation.Sound.{Settles-lt, fuel_enough}

module _ {F : Type 0} ⦃r : Runtime F⦄ where
  variant_sla-Halts : (f : F) (ms : List (Model F)) → Halts (variant_sla f ms)
  unfolding variant_sla
  variant_sla-Halts f ms h = ground arith

  sla-Halts : (t : Task F) → Halts (sla t)
  unfolding sla
  sla-Halts t =
      >>=-Halts (traverse (λ e. variant_sla t.sla_factor e.1) (models_by_variant t)) _
        (traverse-Halts _ (models_by_variant t) (λ e. variant_sla-Halts t.sla_factor e.1))
        (λ slas h. ground arith)

  can_sustain-Halts : (t : Task F) (m : Model F) (i : ℕ) → Halts (can_sustain t m i)
  unfolding can_sustain profile_throughput get_measured_throughput
  can_sustain-Halts t m i h = ground (arith, sla-Halts t)

  check_batches-Halts :
      (t : Task F) (m : Model F) (i : ℕ) (bs : List ℕ) (d : Dict ℕ Bool)
      → Halts (check_batches t m i bs d)
  unfolding check_batches
  check_batches-Halts t m i [] d = λ h. cc
  check_batches-Halts t m i (b ∷ bs) d =
      >>=-Halts (can_sustain t m i) _ (can_sustain-Halts t m i)
        (λ x. check_batches-Halts t m (suc i) bs (insert ◌==◌ b x d))

  check_allocations-Halts :
      (t : Task F) (bs : List ℕ) (ms : List (Model F)) (d : Dict F ℕ)
      → Halts (check_allocations t bs ms d)
  unfolding check_allocations
  check_allocations-Halts t bs [] d = λ h. cc
  check_allocations-Halts t bs (m ∷ ms) d =
      >>=-Halts (check_batches t m 0 bs []) _ (check_batches-Halts t m 0 bs []) (λ x.
        check_allocations-Halts t bs ms (insert r.eq m.resource_allocation.cpu (count_true x) d))

  check_variant-Halts : (t : Task F) (e : String × List (Model F)) → Halts (check_variant t e)
  unfolding check_variant
  check_variant-Halts t (v, ms) =
      >>=-Halts (or_raise (get_elem? ms 0) index_error) _ (or_raise-Halts _ _ (ground arith)) λ m.
        >>=-Halts (check_allocations t (profiled_batches m.measured_profiles) ms []) _
          (check_allocations-Halts t _ ms []) λ d h. cc

  allocation_num_sustains-Halts : (t : Task F) → Halts (allocation_num_sustains t)
  unfolding allocation_num_sustains
  allocation_num_sustains-Halts t = traverse-Halts (check_variant t) _ (check_variant-Halts t)

  Settles-Halts :
      (sample : List F) (d : Dict F ℕ) (i : ℕ) (m : Outcome (Option (ResourceAllocation F) × ℕ))
      → Settles sample d i m
      → Halts m
  Settles-Halts sample d i (ok x) s h = cc
  Settles-Halts sample d i (raised e) s h = s (cc)

  settle_rest-Halts :
      (sample : List F) (sustains : Dict String (Dict F ℕ)) (vs : List String) (i : ℕ)
      → i < length sample
      → Halts (settle_rest sample sustains vs i)
  unfolding settle_rest
  settle_rest-Halts sample sustains [] i lt = λ h. cc
  settle_rest-Halts sample sustains (v ∷ vs) i lt =
      >>=-Halts (or_raise (lookup str_eq v sustains) key_error) _
        (or_raise-Halts _ _ (ground arith))
        λ sustain.
          let lands =
            settle_later-Settles sample sustain (settle_fuel sample) i lt (fuel_enough sample i) in
          >>=-Halts_at (settle_later sample sustain (settle_fuel sample) i) _
            (Settles-Halts sample sustain i _ lands)
            λ (a, j) e.
              >>=-Halts (settle_rest sample sustains vs j) _
                (settle_rest-Halts sample sustains vs j (
                  Settles-lt sample sustains sustain i j a
                    (subst (Settles sample sustain i) e lands)))
                λ d h. cc

  settle_all-Halts :
      (sustains : Dict String (Dict F ℕ)) (vs : List String) → Halts (settle_all sustains vs)
  unfolding settle_all
  settle_all-Halts sustains [] = λ h. ground arith
  settle_all-Halts sustains (v ∷ vs) =
      >>=-Halts (or_raise (lookup str_eq v sustains) key_error) _
        (or_raise-Halts _ _ (ground arith))
        λ sustain.
          let sample = keys sustain in
          let lands =
            settle_first-Settles sample sustain (settle_fuel sample) 0 (omega arith)
              (fuel_enough sample 0) in
          >>=-Halts_at (settle_first sample sustain (settle_fuel sample) 0) _
            (Settles-Halts sample sustain 0 _ lands)
            λ (a, j) e.
              >>=-Halts (settle_rest sample sustains vs j) _
                (settle_rest-Halts sample sustains vs j (
                  Settles-lt sample sustains sustain 0 j a
                    (subst (Settles sample sustain 0) e lands)))
                λ d h. cc

  require_all-Halts :
      (t : Task F) (d : Dict String (Option (ResourceAllocation F))) → Halts (require_all t d)
  unfolding require_all
  require_all-Halts t [] = λ h. cc
  require_all-Halts t ((v, some a) ∷ d) =
      >>=-Halts (require_all t d) _ (require_all-Halts t d) λ rest h. cc
  require_all-Halts t ((v, none) ∷ d) = >>=-Halts (sla t) _ (sla-Halts t) λ s h. ground arith

  -- The fuel of the two `while` loops suffices for every task: `base_allocations` returns or raises an
  -- exception of the code.
  pub base_allocations-Halts : (t : Task F) → Halts (base_allocations t)
  unfolding base_allocations
  base_allocations-Halts t = elim (Bool-cases (not (str_eq t.allocation_mode "base"))) [
    | inl other ↦ rw (other, base_allocations) λ (h : ok none ≡ raised out_of_fuel). cc
    | inr base ↦
        rw (base, base_allocations)
          (>>=-Halts (allocation_num_sustains t) _ (allocation_num_sustains-Halts t) λ sustains.
            >>=-Halts (settle_all sustains (keys (variants_accuracies t))) _
              (settle_all-Halts sustains _)
              λ settled.
                >>=-Halts (require_all t settled) _ (require_all-Halts t settled) λ d h. cc)
  ]

  settle_first_unresponsive :
      (sample : List F) (sustain : Dict F ℕ)
      → ((j : ℕ) (cpu : F) → get_elem? sample j ≡ some cpu → lookup r.eq cpu sustain ≡ some 0)
      → (fuel i : ℕ) → i ≤ length sample
      → length sample < fuel + i
      → settle_first sample sustain fuel i ≡ raised key_error
  unfolding settle_first sustained_at
  settle_first_unresponsive sample sustain none_fits zero i le enough = absurd (omega arith)
  settle_first_unresponsive sample sustain none_fits (suc fuel) i le enough =
      let short : ltb (length sample) i ≡ false = ground arith in
      elim (Option-cases (get_elem? sample i)) [
        | inl e ↦ rw (short, settle_first, sustained_at, e)
        | inr (cpu, e) ↦
            rw (short, settle_first, sustained_at, e, none_fits i cpu e)
              (settle_first_unresponsive sample sustain none_fits fuel (suc i)
                (get_elem?-lt sample i e) (omega arith))
      ]

  -- Where no allocation of the least accurate variant sustains a batch size, the search runs off the
  -- end of the allocations: the property raises KeyError, not the ValueError of its last loop.
  pub base_allocations_unresponsive :
      (t : Task F) (sustains : Dict String (Dict F ℕ)) (v : String) (vs : List String)
      → (sustain : Dict F ℕ) → str_eq t.allocation_mode "base" ≡ true
      → allocation_num_sustains t ≡ ok sustains
      → keys (variants_accuracies t) ≡ v ∷ vs
      → lookup str_eq v sustains ≡ some sustain
      → ((j : ℕ) (cpu : F)
          → get_elem? (keys sustain) j ≡ some cpu
          → lookup r.eq cpu sustain ≡ some 0)
      → base_allocations t ≡ raised key_error
  unfolding base_allocations settle_all
  base_allocations_unresponsive t sustains v vs sustain mode e order found none_fits = rw (
    base_allocations,
    mode,
    e,
    order,
    settle_all,
    found,
    settle_first_unresponsive (keys sustain) sustain none_fits (settle_fuel (keys sustain)) 0
        (omega arith) (fuel_enough (keys sustain) 0),
  )
