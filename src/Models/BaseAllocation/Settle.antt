-- ===== src/Models/BaseAllocation/Settle.antt =====
-- optimizer/models.py: the two `while` loops of `base_allocations`.
use ipa_arman.Prelude.{
  ℕ, zero, suc, sym, ◌∙◌, ◌&&◌, ◌+◌, ◌≤◌, ◌<◌, ◌≡◌, ◌≢◌, false, not, Option, none, some, List, ◌∷◌,
  [], arith, Bool-cases, Outcome-cases, inl, inr, ltb, ◌==◌, if◌then◌else◌, key_error, value_error,
  out_of_fuel, Exception, Outcome, ok, raised, ◌>>=◌, get_elem?, length, Dict, lookup, Runtime,
}
use ipa_arman.Models.Profile.{ResourceAllocation, new_allocation}
use ipa_arman.Models.BaseAllocation.{sustained_at, look_ahead, settle_first, settle_later}

pub get_elem?-lt {ℓ} :
    {A : Type ℓ} (xs : List A) (i : ℕ) {x : A} → get_elem? xs i ≡ some x → i < length xs
get_elem?-lt [] i h = cc
get_elem?-lt (x ∷ xs) zero h = omega arith
get_elem?-lt (x ∷ xs) (suc i) h = omega (arith, get_elem?-lt xs i h)

module _ {F : Type 0} ⦃r : Runtime F⦄ (sample : List F) (sustain : Dict F ℕ) where
  open r use {of_ℕ, eq}

  -- The allocation at a position of the sample, which sustains `n` batch sizes.
  pub record At (cpu : F) (n i : ℕ) : Type 0 where
    pub position : get_elem? sample i ≡ some cpu
    pub count : lookup eq cpu sustain ≡ some n

  sustained_at-At :
      (i : ℕ) (cpu : F) (n : ℕ) → sustained_at sample sustain i ≡ ok (cpu, n) → At cpu n i
  unfolding sustained_at
  sustained_at-At i cpu n h = ground arith

  sustained_at_raises :
      (i : ℕ) (e : Exception) → sustained_at sample sustain i ≡ raised e → e ≡ key_error
  unfolding sustained_at
  sustained_at_raises i e h = ground arith

  key_ne_fuel : key_error ≢ out_of_fuel
  key_ne_fuel h = cc

  -- What a loop that starts at the position `i` comes to: a position from `i` on that sustains some
  -- batch size, or the end of the sample, or an exception of the code.
  abbrev pub Settles : ℕ → Outcome (Option (ResourceAllocation F) × ℕ) → Type 0
  Settles i (ok (some a, j)) = (i ≤ j) × (n : ℕ) × At a.cpu n j × (n ≢ 0)
  Settles i (ok (none, j)) = (i ≤ j) × (suc j ≡ length sample)
  Settles i (raised e) = e ≢ out_of_fuel

  Settles-le :
      {i j : ℕ} (m : Outcome (Option (ResourceAllocation F) × ℕ))
      → i ≤ j
      → Settles j m
      → Settles i m
  Settles-le (ok (some a, k)) h (le, n, at, pos) = (omega arith, n, at, pos)
  Settles-le (ok (none, k)) h (le, rest) = (omega arith, rest)
  Settles-le (raised e) h s = s

  new_allocation-Settles :
      (cpu : F) (n i : ℕ)
      → At cpu n i
      → n ≢ 0
      → Settles i (new_allocation cpu (of_ℕ 0) >>= λ a. ok (some a, i))
  unfolding new_allocation
  new_allocation-Settles cpu n i h pos =
      elim (Bool-cases (not (eq cpu (of_ℕ 0)) && not (eq (of_ℕ 0) (of_ℕ 0)))) [
        | inl e ↦ rw e (λ (q : value_error ≡ out_of_fuel). cc)
        | inr e ↦ rw e (omega arith, n, h, pos)
      ]

  pub settle_first-Settles :
      (fuel i : ℕ)
      → i ≤ length sample
      → length sample < fuel + i
      → Settles i (settle_first sample sustain fuel i)
  unfolding settle_first
  settle_first-Settles zero i le enough = absurd (omega arith)
  settle_first-Settles (suc fuel) i le enough =
      let short : ltb (length sample) i ≡ false = ground arith in
      elim (Outcome-cases (sustained_at sample sustain i)) [
        | inr (e, h) ↦
            rw (short, h, settle_first) (λ q. key_ne_fuel (sym (sustained_at_raises i e h) ∙ q))
        | inl ((cpu, n), h) ↦
            let at = sustained_at-At i cpu n h in
            let below = get_elem?-lt sample i at.position in
            elim (Bool-cases (n == 0)) [
              | inl z ↦
                  rw (short, h, z, settle_first)
                    (Settles-le (settle_first sample sustain fuel (suc i)) (omega arith)
                      (settle_first-Settles fuel (suc i) below (omega arith)))
              | inr nz ↦
                  rw (short, h, nz, settle_first) (new_allocation-Settles cpu n i at (ground arith))
            ]
      ]

  sustained_at-lt : (i : ℕ) (x : F × ℕ) → sustained_at sample sustain i ≡ ok x → i < length sample
  sustained_at-lt i (cpu, n) h = get_elem?-lt sample i (At.position (sustained_at-At i cpu n h))

  look_ahead_lem :
      (i j : ℕ)
      → i < length sample
      → look_ahead sample sustain i ≡ ok j
      → (i ≤ j) × (j < length sample)
  unfolding look_ahead
  look_ahead_lem i j lt h = grind (arith, sustained_at-lt)

  look_ahead_raises :
      (i : ℕ) (e : Exception) → look_ahead sample sustain i ≡ raised e → e ≡ key_error
  unfolding look_ahead
  look_ahead_raises i e h = grind (arith, sustained_at_raises)

  -- What `settle_later` does from the position `j` that `look_ahead` gives.
  settle_later_step :
      (fuel i j : ℕ) (cpu : F) (n : ℕ)
      → i ≤ j
      → j < length sample
      → At cpu n j
      → (suc j < length sample → Settles (suc j) (settle_later sample sustain fuel (suc j)))
      → Settles i (
          if n == 0
          then (if suc j == length sample
              then ok (none, j)
              else settle_later sample sustain fuel (suc j))
          else (new_allocation cpu (of_ℕ 0) >>= λ a. ok (some a, j)))
  settle_later_step fuel i j cpu n le lt at later = elim (Bool-cases (n == 0)) [
    | inr nz ↦ rw nz (Settles-le _ le (new_allocation-Settles cpu n j at (ground arith)))
    | inl z ↦ elim (Bool-cases (suc j == length sample)) [
      | inl last ↦ rw (z, last) (le, ground arith)
      | inr more ↦
          rw (z, more)
            (Settles-le (settle_later sample sustain fuel (suc j)) (omega arith)
              (later (ground arith)))
    ]
  ]

  pub settle_later-Settles :
      (fuel i : ℕ)
      → i < length sample
      → length sample < fuel + i
      → Settles i (settle_later sample sustain fuel i)
  unfolding settle_later
  settle_later-Settles zero i lt enough = absurd (omega arith)
  settle_later-Settles (suc fuel) i lt enough =
      let short : ltb (length sample) i ≡ false = ground arith in
      elim (Outcome-cases (look_ahead sample sustain i)) [
        | inr (e, h) ↦
            rw (short, h, settle_later) (λ q. key_ne_fuel (sym (look_ahead_raises i e h) ∙ q))
        | inl (j, h) ↦
            let (le, below) = look_ahead_lem i j lt h in
            elim (Outcome-cases (sustained_at sample sustain j)) [
              | inr (e, g) ↦
                  rw (short, h, g, settle_later)
                    (λ q. key_ne_fuel (sym (sustained_at_raises j e g) ∙ q))
              | inl ((cpu, n), g) ↦
                  rw (short, h, g, settle_later)
                    (settle_later_step fuel i j cpu n le below (sustained_at-At j cpu n g)
                      (λ more. settle_later-Settles fuel (suc j) more (omega arith)))
            ]
      ]
