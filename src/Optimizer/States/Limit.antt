-- ===== src/Optimizer/States/Limit.antt =====
-- optimizer/optimizer.py: how many states `all_states` records, which combinations it passes over,
-- and pipelines with a task on GPU.
use mathlib.Core.Path.{subst}
use ipa_arman.Prelude.{
  ℕ, suc, ◌+◌, ◌≤◌, ◌<◌, ◌≡◌, refl, true, false, Option, none, some, List, ◌∷◌, [], ◌++◌, arith,
  Bool-cases, Outcome-cases, inl, inr, ◌⊎◌, ◌==◌, Outcome, ok, >>=-eq-ok, ok-injective, Listed,
  Runtime, length,
}
use ipa_arman.Models.Pipeline.{Pipeline}
use ipa_arman.Optimizer.Objective.{Optimizer}
use ipa_arman.Optimizer.States.{
  Combination, Search, try_combination, at_limit, search_states, combinations, all_states,
}
use ipa_arman.Optimizer.Rows.{State}

module _ {F : Type 0} ⦃r : Runtime F⦄ (o : Optimizer) (s : Search F) where
  search_states_bounded :
      (limit count : ℕ) (cs : List (Combination F)) (p : Pipeline F) (rows : List (State F))
      → s.num_state_limit ≡ some limit
      → count < limit
      → (search_states o s count cs p).0 ≡ ok rows
      → length rows + count ≤ limit
  unfolding search_states at_limit
  search_states_bounded limit count [] p rows limited below h =
      subst (λ l. length l + count ≤ limit) (ok-injective h) (omega arith)
  search_states_bounded limit count (c ∷ cs) p rows limited below h =
      elim (Outcome-cases (try_combination o s c p).0) [
        | inr (e, g) ↦ let h1 = rw (g, search_states) at h in cc
        | inl (none, g) ↦
            search_states_bounded limit count cs (try_combination o s c p).1 rows limited below
              (rw (g, search_states) at h)
        | inl (some row, g) ↦ elim (Bool-cases (suc count == limit)) [
          | inl full ↦
              let stop : at_limit s.num_state_limit count ≡ true = rw (at_limit, limited) full in
              let h1 = rw (g, search_states, stop) at h in
              subst (λ l. length l + count ≤ limit) (ok-injective h1) (omega arith)
          | inr more ↦
              let go_on : at_limit s.num_state_limit count ≡ false = rw (at_limit, limited) more in
              let h1 = rw (g, search_states, go_on) at h in
              let (rest, e, h2) =
                >>=-eq-ok (search_states o s (suc count) cs (try_combination o s c p).1).0 _ h1 in
              let bound =
                search_states_bounded limit (suc count) cs (try_combination o s c p).1 rest limited
                  (ground arith) e in
              subst (λ l. length l + count ≤ limit) (ok-injective h2) (omega arith)
        ]
      ]

  -- With a limit of at least one, `all_states` returns at most that many states.
  pub all_states_bounded :
      (sample : List (Combination F) → Option ℕ → Outcome (List (Combination F)))
      → (scaling_cap limit : ℕ) (p : Pipeline F) (rows : List (State F))
      → s.num_state_limit ≡ some limit
      → 1 ≤ limit
      → (all_states sample o s scaling_cap p).0 ≡ ok rows
      → length rows ≤ limit
  unfolding all_states
  all_states_bounded sample scaling_cap limit p rows limited pos h =
      elim (Outcome-cases (combinations sample o s scaling_cap p.inference_graph)) [
        | inr (e, g) ↦ let h1 = rw (g, all_states) at h in cc
        | inl (cs, g) ↦
            omega
              (arith, search_states_bounded limit 0 cs p rows limited pos (rw (g, all_states) at h))
      ]

  -- What became of a combination that was tried on the pipeline `q`.
  abbrev pub Settled : Combination F → List (State F) → Pipeline F → Type 0
  Settled c rows q =
      ((try_combination o s c q).0 ≡ ok none)
      ⊎ ((row : State F) × Listed row rows × ((try_combination o s c q).0 ≡ ok (some row)))

  Settled-cons :
      (c : Combination F) (row : State F) (rows : List (State F)) (q : Pipeline F)
      → Settled c rows q
      → Settled c (row ∷ rows) q
  Settled-cons c row rows q (inl e) = inl e
  Settled-cons c row rows q (inr (x, m, e)) = inr (x, inr m, e)

  -- The pipeline as the loop leaves it behind some combinations.
  abbrev pub left_by : List (Combination F) → Pipeline F → Pipeline F
  left_by [] p = p
  left_by (c ∷ cs) p = left_by cs (try_combination o s c p).1

  -- The same of the loop.
  search_states_complete :
      (count : ℕ) (earlier later : List (Combination F)) (c : Combination F) (p : Pipeline F)
      (rows : List (State F))
      → s.num_state_limit ≡ none
      → (search_states o s count (earlier ++ (c ∷ later)) p).0 ≡ ok rows
      → Settled c rows (left_by earlier p)
  unfolding search_states at_limit
  search_states_complete count [] later c p rows limited h =
      elim (Outcome-cases (try_combination o s c p).0) [
        | inr (e, g) ↦ let h1 = rw (g, search_states) at h in cc
        | inl (none, g) ↦ inl g
        | inl (some row, g) ↦
            let go_on : at_limit s.num_state_limit count ≡ false = rw (at_limit, limited) refl in
            let h1 = rw (g, search_states, go_on) at h in
            let (rest, e, h2) =
              >>=-eq-ok (search_states o s (suc count) later (try_combination o s c p).1).0 _ h1 in
            subst (λ l. Settled c l p) (ok-injective h2) (inr (row, inl refl, g))
      ]
  search_states_complete count (d ∷ earlier) later c p rows limited h =
      let p' = (try_combination o s d p).1 in
      elim (Outcome-cases (try_combination o s d p).0) [
        | inr (e, g) ↦ let h1 = rw (g, search_states) at h in cc
        | inl (none, g) ↦
            search_states_complete count earlier later c p' rows limited
              (rw (g, search_states) at h)
        | inl (some row, g) ↦
            let go_on : at_limit s.num_state_limit count ≡ false = rw (at_limit, limited) refl in
            let h1 = rw (g, search_states, go_on) at h in
            let (rest, e, h2) =
              >>=-eq-ok (search_states o s (suc count) (earlier ++ (c ∷ later)) p').0 _ h1 in
            subst (λ l. Settled c l (left_by earlier p')) (ok-injective h2)
              (Settled-cons c row rest (left_by earlier p')
                (search_states_complete (suc count) earlier later c p' rest limited e))
      ]

  -- Without a limit, `all_states` passes over no combination: on the pipeline as the combinations
  -- before it have left it, each of them was skipped, or its row is among those that are returned.
  pub all_states_complete :
      (sample : List (Combination F) → Option ℕ → Outcome (List (Combination F)))
      → (scaling_cap : ℕ) (p : Pipeline F) (earlier later : List (Combination F))
      → (c : Combination F) (rows : List (State F)) → s.num_state_limit ≡ none
      → combinations sample o s scaling_cap p.inference_graph ≡ ok (earlier ++ (c ∷ later))
      → (all_states sample o s scaling_cap p).0 ≡ ok rows
      → Settled c rows (left_by earlier p)
  unfolding all_states
  all_states_complete sample scaling_cap p earlier later c rows limited g h =
      search_states_complete 0 earlier later c p rows limited (rw (g, all_states) at h)
