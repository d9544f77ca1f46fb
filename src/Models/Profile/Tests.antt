-- ===== src/Models/Profile/Tests.antt =====
-- Interpolated profiles of a sample model.
use ipa_arman.Prelude.{
  ℕ, ◌+◌, ◌-◌, ◌*◌, ◌^◌, ◌≤◌, ◌≡◌, refl, inl, inr, List, [], ◌∷◌, Listed, map, place, sort_by,
  range_from,
}
use ipa_arman.Models.Profile.{
  Profile, Regression, QuadraticFit, training_data, predicted_profile, by_batch, log2_fuel, log2,
  selected_profiles_indices, pick, interpolated,
}
use ipa_arman.Models.Profile.Interpolated.{interpolated-batches}
use ipa_arman.Samples.{milli, profile}

-- A fit of 50 per item of the batch.
abbrev slope : QuadraticFit ℕ
slope = record { predict = λ x. x * 50; coefficients = 0 ∷ 50 ∷ []; intercept = 0 }

abbrev pub fit : Regression ℕ
fit = record { quadratic = λ points. slope; linear = λ points x. x * 50 }

abbrev measured_profiles : List (Profile ℕ)
measured_profiles = profile 2 100 20_000 ∷ profile 8 400 20_000 ∷ []

-- From a least batch size of 2 the batch sizes are 2, 3 and 5.
from_two :
    interpolated fit measured_profiles 2 8
    ≡ map (predicted_profile slope (λ x. x * 50)) (2 ∷ 3 ∷ 5 ∷ [])
unfolding place sort_by range_from training_data predicted_profile by_batch log2_fuel log2
    selected_profiles_indices pick interpolated
from_two = refl

three-Listed :
    Listed (predicted_profile slope (λ x. x * 50) 3) (interpolated fit measured_profiles 2 8)
unfolding place sort_by range_from training_data predicted_profile by_batch log2_fuel log2
    selected_profiles_indices pick interpolated
three-Listed = inr (inl refl)

interpolated-batches_example :
    (j : ℕ) × (predicted_profile slope (λ x. x * 50) 3
      ≡ predicted_profile slope (λ x. x * 50) (2 + (2 ^ j - 1)))
    × (2 + (2 ^ j - 1) ≤ 8)
interpolated-batches_example =
    interpolated-batches fit measured_profiles 2 8 (predicted_profile slope (λ x. x * 50) 3)
      three-Listed
