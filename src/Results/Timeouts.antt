-- ===== src/Results/Timeouts.antt =====
-- experiments/utils/parser.py: the lost responses of each second.
use mathlib.Core.Path.{subst}
use ipa_arman.Prelude.{
  for_each-append, ℕ, ◌+◌, String, ◌≡◌, refl, sym, ap, ◌∙◌, true, Option, none, some, List, [], ◌∷◌,
  ◌++◌, map, arith, inl, inr, Bool-cases, if◌then◌else◌, str_eq, count_of, for_each, All, ok,
  raised, >>=-eq-ok, ok-injective, lookup, traverse, Runtime, length, Dict, length-append,
  Outcome-cases,
}
use ipa_arman.Results.{
  Kind, node, pipeline, router_pipeline, router_queue_pipeline, Response, Column, clocks, appends,
  Measurement,
}
use ipa_arman.Results.Latencies.{Latencies, columns, empty_columns, latency_calculator}
use ipa_arman.Results.Summary.{Statistics, Figure, latency_summary}
use ipa_arman.Results.Seconds.{
  take, drop, flatten_results, count_none, take_columns, drop_columns, split_seconds, client_column,
  second_timeouts, per_second_result_processing,
}
use ipa_arman.Results.Lost.{cut_short, gained, gained_from, is_lost, entries, measure_all-lookup}

module _ {ℓ} {A : Type ℓ} where
  take-append : (xs ys : List A) → take (length xs) (xs ++ ys) ≡ xs
  unfolding take
  take-append [] ys = refl
  take-append (x ∷ xs) ys = ap (λ l. x ∷ l) (take-append xs ys)

  drop-append : (xs ys : List A) → drop (length xs) (xs ++ ys) ≡ ys
  unfolding drop
  drop-append [] ys = refl
  drop-append (x ∷ xs) ys = drop-append xs ys

  count_none-append :
      (xs ys : List (Option A)) → count_none (xs ++ ys) ≡ count_none xs + count_none ys
  unfolding count_none
  count_none-append [] ys = omega arith
  count_none-append (none ∷ xs) ys = omega (arith, count_none-append xs ys)
  count_none-append (some x ∷ xs) ys = count_none-append xs ys

module _ {F : Type 0} where
  -- A column that is cut.
  abbrev cut :
      (List (Option F) → List (Option F)) → Option (List (Option F)) → Option (List (Option F))
  cut f none = none
  cut f (some xs) = some (f xs)

  take_columns-lookup :
      (c : Column) (n : ℕ) (d : Latencies F)
      → lookup str_eq c (take_columns n d) ≡ cut (take n) (lookup str_eq c d)
  unfolding take_columns lookup
  take_columns-lookup c n [] = refl
  take_columns-lookup c n ((e, ys) ∷ d) = elim (Bool-cases (str_eq e c)) [
    | inl here ↦ rw here refl
    | inr away ↦ rw away (take_columns-lookup c n d)
  ]

  drop_columns-lookup :
      (c : Column) (n : ℕ) (d : Latencies F)
      → lookup str_eq c (drop_columns n d) ≡ cut (drop n) (lookup str_eq c d)
  unfolding drop_columns lookup
  drop_columns-lookup c n [] = refl
  drop_columns-lookup c n ((e, ys) ∷ d) = elim (Bool-cases (str_eq e c)) [
    | inl here ↦ rw here refl
    | inr away ↦ rw away (drop_columns-lookup c n d)
  ]

  count_none-gained : (c : Column) (ms : List (Measurement F)) → count_none (gained c ms) ≡ 0
  unfolding count_none
  count_none-gained c [] = refl
  count_none-gained c ((d, raised e) ∷ ms) = refl
  count_none-gained c ((d, ok x) ∷ ms) = elim (Bool-cases (str_eq d c)) [
    | inl here ↦ rw here (count_none-gained c ms)
    | inr away ↦ rw away (count_none-gained c ms)
  ]

module _ {F : Type 0} ⦃r : Runtime F⦄ (digits : ℕ → String) (model_name : String)
    (nodes : List String) where
  -- The column of the client, once the loop is done.
  column_of :
      (kind : Kind) (column : Column) (responses : List (Response F)) (s : Latencies F × ℕ)
      → client_column kind ≡ ok column
      → latency_calculator digits kind model_name nodes true responses ≡ ok s
      → lookup str_eq column s.0 ≡ some (for_each (entries digits kind nodes column) responses)
  unfolding client_column latency_calculator empty_columns columns lookup
  column_of node column responses s client e = cc
  column_of pipeline column responses (d, lost) client e =
      let start =
        subst
          (λ c. lookup str_eq c (empty_columns {F = F} (columns digits pipeline nodes)) ≡ some [])
          (ok-injective client) refl in
      (measure_all-lookup digits pipeline nodes column responses _ 0 start e).0
  column_of router_pipeline column responses (d, lost) client e =
      let start =
        subst
          (λ c.
            lookup str_eq c (empty_columns {F = F} (columns digits router_pipeline nodes))
            ≡ some [])
          (ok-injective client) refl in
      (measure_all-lookup digits router_pipeline nodes column responses _ 0 start e).0
  column_of router_queue_pipeline column responses (d, lost) client e =
      let start =
        subst
          (λ c.
            lookup str_eq c (empty_columns {F = F} (columns digits router_queue_pipeline nodes))
            ≡ some [])
          (ok-injective client) refl in
      (measure_all-lookup digits router_queue_pipeline nodes column responses _ 0 start e).0

module _ {F : Type 0} ⦃r : Runtime F⦄ (digits : ℕ → String) (kind : Kind) (nodes : List String)
    (column : Column) where
  -- A response leaves one entry in the column: it is not lost behind its append to it.
  abbrev pub LeavesOne : Response F → Type 0
  LeavesOne response = length (entries digits kind nodes column response) ≡ 1

  abbrev entries_of : List (Response F) → List (Option F)
  entries_of responses = for_each (entries digits kind nodes column) responses

  count_none-entries :
      (response : Response F)
      → count_none (entries digits kind nodes column response)
        ≡ (if is_lost digits kind nodes response then 1 else 0)
  unfolding count_none
  count_none-entries response =
      count_none-append (gained_from digits kind nodes column response) _
      ∙ (elim (Outcome-cases (clocks response)) [
        | inr (e, g) ↦ rw (g, gained_from, is_lost) (omega arith)
        | inl (c, g) ↦
            let none_gained = count_none-gained column (appends digits kind nodes c) in
            elim (Bool-cases (cut_short (appends digits kind nodes c))) [
              | inl short ↦ rw (g, gained_from, is_lost, short, none_gained) (omega arith)
              | inr whole ↦ rw (g, gained_from, is_lost, whole, none_gained) (omega arith)
            ]
      ])

  count_none-entries_of :
      (responses : List (Response F))
      → count_none (entries_of responses) ≡ count_of (is_lost digits kind nodes) responses
  unfolding for_each count_none
  count_none-entries_of [] = refl
  count_none-entries_of (response ∷ responses) =
      count_none-append (entries digits kind nodes column response) (entries_of responses)
      ∙ (let one = count_none-entries response in
          let others = count_none-entries_of responses in ground arith)

  length-entries_of :
      (responses : List (Response F))
      → All LeavesOne responses
      → length (entries_of responses) ≡ length responses
  unfolding for_each
  length-entries_of [] h = refl
  length-entries_of (response ∷ responses) (one, others) =
      length-append (entries digits kind nodes column response) (entries_of responses)
      ∙ (let rest = length-entries_of responses others in omega arith)

  abbrev flat : List (List (Response F)) → List (Response F)
  flat seconds = (flatten_results seconds).1

  seconds-timeouts :
      (seconds : List (List (Response F))) (d : Latencies F)
      → client_column kind ≡ ok column
      → lookup str_eq column d ≡ some (entries_of (flat seconds))
      → All (All LeavesOne) seconds
      → traverse (second_timeouts kind) (split_seconds (flatten_results seconds).0 d)
        ≡ ok (map (count_of (is_lost digits kind nodes)) seconds)
  unfolding flatten_results split_seconds traverse second_timeouts
  seconds-timeouts [] d client h clean = refl
  seconds-timeouts (second ∷ seconds) d client h (one, others) =
      let n = length second in
      let parts = for_each-append (entries digits kind nodes column) second (flat seconds) in
      let size = length-entries_of second one in
      let first : lookup str_eq column (take_columns n d) ≡ some (entries_of second) =
        take_columns-lookup column n d
        ∙ ap (cut (take n)) (h ∙ ap some parts)
        ∙ ap some (
            ap (λ m. take m (entries_of second ++ entries_of (flat seconds))) (sym size)
            ∙ take-append (entries_of second) (entries_of (flat seconds))) in
      let rest : lookup str_eq column (drop_columns n d) ≡ some (entries_of (flat seconds)) =
        drop_columns-lookup column n d
        ∙ ap (cut (drop n)) (h ∙ ap some parts)
        ∙ ap some (
            ap (λ m. drop m (entries_of second ++ entries_of (flat seconds))) (sym size)
            ∙ drop-append (entries_of second) (entries_of (flat seconds))) in
      let tail = seconds-timeouts seconds (drop_columns n d) client rest others in
      rw (client, first, tail)
        (ap (λ m. ok (m ∷ map (count_of (is_lost digits kind nodes)) seconds))
          (count_none-entries_of second))

  -- For a pipeline, `per_second_result_processing` counts in each second the responses of that second
  -- that are lost, where each response leaves one entry in the column of the client.
  pub per_second_result_processing-timeouts :
      (np : Statistics F) (model_name : String) (seconds : List (List (Response F)))
      {timeouts : List ℕ} {stats : List (Dict Column (Dict Figure (Option F)))}
      → client_column kind ≡ ok column
      → All (All LeavesOne) seconds
      → per_second_result_processing digits np kind model_name nodes seconds ≡ ok (timeouts, stats)
      → timeouts ≡ map (count_of (is_lost digits kind nodes)) seconds
  unfolding per_second_result_processing
  per_second_result_processing-timeouts np model_name seconds {timeouts} {stats} client clean h =
      let ns = (flatten_results seconds).0 in
      let (s, e, h1) =
        >>=-eq-ok (latency_calculator digits kind model_name nodes true (flat seconds)) _ h in
      let items = split_seconds ns s.0 in
      let (figures, f, h2) = >>=-eq-ok (traverse (latency_summary np) items) _ h1 in
      let (counts, g, h3) = >>=-eq-ok (traverse (second_timeouts kind) items) _ h2 in
      let same =
        seconds-timeouts seconds s.0 client
          (column_of digits model_name nodes kind column (flat seconds) s client e) clean in
      ap (λ (p : List ℕ × List (Dict Column (Dict Figure (Option F)))). p.0) (sym (ok-injective h3))
      ∙ ok-injective (sym g ∙ same)
