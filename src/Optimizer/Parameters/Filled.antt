-- ===== src/Optimizer/Parameters/Filled.antt =====
-- optimizer/optimizer.py: the filled tables of `latency_parameters` and `throughput_parameters`.
use mathlib.Core.Path.{subst}
use ipa_arman.Prelude.{
  ℕ, String, ◌≡◌, refl, sym, ◌∙◌, ap, Bool, true, false, List, [], ◌∷◌, ◌++◌, ◌==◌, if◌then◌else◌,
  str_eq, some, none, Option, inl, inr, arith, Bool-cases, Option-cases, ok, >>=-eq-ok,
  ok-injective, Dict, lookup, insert, keys, Runtime,
}
use ipa_arman.Models.Task.{Task, model_latency}
use ipa_arman.Optimizer.Parameters.{
  Row, Table, is_in, note_batches, all_rows, distinct_of, distinct_batches, fill_row, fill_variants,
  fill_missing, read_table, latency_parameters,
}

-- The batch sizes that are listed.
is_in-append :
    (b : ℕ) (xs : List ℕ) (c : ℕ) → is_in b (xs ++ (c ∷ [])) ≡ (if is_in b xs then true else c == b)
unfolding is_in
is_in-append b [] c = ground arith
is_in-append b (x ∷ xs) c = let h = is_in-append b xs c in ground arith

is_in_same : (b c : ℕ) (xs : List ℕ) → c == b ≡ true → is_in c xs ≡ is_in b xs
is_in_same b c xs h = let e : c ≡ b = ground arith in ap (λ x. is_in x xs) e

note_batches-is_in :
    (b : ℕ) (seen bs : List ℕ)
    → is_in b (note_batches seen bs) ≡ (if is_in b seen then true else is_in b bs)
unfolding note_batches is_in
note_batches-is_in b seen [] = ground arith
note_batches-is_in b seen (c ∷ bs) = elim (Bool-cases (is_in c seen)) [
  | inl listed ↦ rw listed (
      note_batches-is_in b seen bs ∙ (elim (Bool-cases (c == b)) [
        | inl same ↦ let h = sym (is_in_same b c seen same) ∙ listed in rw (h) refl
        | inr apart ↦ rw apart refl
      ]))
  | inr added ↦
      rw added (
        note_batches-is_in b (seen ++ (c ∷ [])) bs
        ∙ (let h = is_in-append b seen c in ground arith))
]

module _ {ℓ} {F : Type ℓ} where
  -- The value of a batch size in a row that is filled.
  abbrev pub filled : F → Bool → Option F → Option F
  filled dummy wanted (some x) = some x
  filled dummy wanted none = if wanted then some dummy else none

  lookup-insert : (b : ℕ) (x : F) (row : Row F) → lookup ◌==◌ b (insert ◌==◌ b x row) ≡ some x
  unfolding lookup insert
  lookup-insert b x [] = ground arith
  lookup-insert b x ((c, y) ∷ row) = let h = lookup-insert b x row in ground arith

  lookup-insert_other :
      (b c : ℕ) (x : F) (row : Row F)
      → c == b ≡ false
      → lookup ◌==◌ b (insert ◌==◌ c x row) ≡ lookup ◌==◌ b row
  unfolding lookup insert
  lookup-insert_other b c x [] h = ground arith
  lookup-insert_other b c x ((d, y) ∷ row) h =
      let later = lookup-insert_other b c x row h in ground arith

  -- Two equal batch sizes are looked up alike.
  lookup-same : (b c : ℕ) (row : Row F) → c == b ≡ true → lookup ◌==◌ c row ≡ lookup ◌==◌ b row
  lookup-same b c row h = let e : c ≡ b = ground arith in ap (λ x. lookup ◌==◌ x row) e

  filled-added :
      (dummy : F) (b c : ℕ) (wanted : Bool) (row : Row F)
      → lookup ◌==◌ c row ≡ none
      → filled dummy wanted (lookup ◌==◌ b (insert ◌==◌ c dummy row))
        ≡ filled dummy (if c == b then true else wanted) (lookup ◌==◌ b row)
  filled-added dummy b c wanted row e = elim (Bool-cases (c == b)) [
    | inr apart ↦ rw (lookup-insert_other b c dummy row apart, apart) refl
    | inl same ↦
        let at_b = sym (lookup-same b c row same) ∙ e in
        let here : c ≡ b = ground arith in
        ap (filled dummy wanted)
          (ap (λ x. lookup ◌==◌ b (insert ◌==◌ x dummy row)) here ∙ lookup-insert b dummy row)
        ∙ rw (same, at_b) refl
  ]

  filled-kept :
      (dummy : F) (b c : ℕ) (wanted : Bool) (row : Row F) {x : F}
      → lookup ◌==◌ c row ≡ some x
      → filled dummy wanted (lookup ◌==◌ b row)
        ≡ filled dummy (if c == b then true else wanted) (lookup ◌==◌ b row)
  filled-kept dummy b c wanted row e = elim (Bool-cases (c == b)) [
    | inr apart ↦ rw apart refl
    | inl same ↦ let at_b = sym (lookup-same b c row same) ∙ e in rw (same, at_b) refl
  ]

  fill_row-lookup :
      (dummy : F) (b : ℕ) (bs : List ℕ) (row : Row F)
      → lookup ◌==◌ b (fill_row dummy bs row) ≡ filled dummy (is_in b bs) (lookup ◌==◌ b row)
  unfolding fill_row is_in
  fill_row-lookup dummy b [] row = ground arith
  fill_row-lookup dummy b (c ∷ bs) row = elim (Option-cases (lookup ◌==◌ c row)) [
    | inl e ↦ rw e (
        fill_row-lookup dummy b bs (insert ◌==◌ c dummy row)
        ∙ filled-added dummy b c (is_in b bs) row e)
    | inr (x, e) ↦ rw e (fill_row-lookup dummy b bs row ∙ filled-kept dummy b c (is_in b bs) row e)
  ]

  -- The row of a variant of a stage.
  abbrev pub row_at : String → String → Table F → Option (Row F)
  row_at stage variant [] = none
  row_at stage variant ((s, d) ∷ table) =
      if str_eq s stage then lookup str_eq variant d else row_at stage variant table

  abbrev pub entry_of : ℕ → Option (Row F) → Option F
  entry_of b none = none
  entry_of b (some row) = lookup ◌==◌ b row

  -- The entry of a table for a stage, a variant and a batch size.
  abbrev pub entry_at : String → String → ℕ → Table F → Option F
  entry_at stage variant b table = entry_of b (row_at stage variant table)

  abbrev fill_found : F → List ℕ → Option (Row F) → Option (Row F)
  fill_found dummy bs none = none
  fill_found dummy bs (some row) = some (fill_row dummy bs row)

  fill_variants-lookup :
      (dummy : F) (bs : List ℕ) (variant : String) (d : Dict String (Row F))
      → lookup str_eq variant (fill_variants dummy bs d)
        ≡ fill_found dummy bs (lookup str_eq variant d)
  unfolding lookup fill_variants
  fill_variants-lookup dummy bs variant [] = refl
  fill_variants-lookup dummy bs variant ((v, row) ∷ d) = elim (Bool-cases (str_eq v variant)) [
    | inl here ↦ rw here refl
    | inr away ↦ rw away (fill_variants-lookup dummy bs variant d)
  ]

  fill_missing-row_at :
      (dummy : F) (bs : List ℕ) (stage variant : String) (table : Table F)
      → row_at stage variant (fill_missing dummy bs table)
        ≡ fill_found dummy bs (row_at stage variant table)
  unfolding lookup fill_missing
  fill_missing-row_at dummy bs stage variant [] = refl
  fill_missing-row_at dummy bs stage variant ((s, d) ∷ table) = elim (Bool-cases (str_eq s stage)) [
    | inl here ↦ rw here (fill_variants-lookup dummy bs variant d)
    | inr away ↦ rw away (fill_missing-row_at dummy bs stage variant table)
  ]

  -- What the entry of a filled table is, by that of the table before.
  abbrev pub filled_entry : F → List ℕ → Option (Row F) → ℕ → Option F
  filled_entry dummy bs none b = none
  filled_entry dummy bs (some row) b = filled dummy (is_in b bs) (lookup ◌==◌ b row)

  fill_missing-entry_at :
      (dummy : F) (bs : List ℕ) (stage variant : String) (b : ℕ) (table : Table F)
      → entry_at stage variant b (fill_missing dummy bs table)
        ≡ filled_entry dummy bs (row_at stage variant table) b
  fill_missing-entry_at dummy bs stage variant b table =
      ap (entry_of b) (fill_missing-row_at dummy bs stage variant table)
      ∙ found (row_at stage variant table)
    where
      found : (o : Option (Row F)) → entry_of b (fill_found dummy bs o) ≡ filled_entry dummy bs o b
      found none = refl
      found (some row) = fill_row-lookup dummy b bs row

  -- Whether some row has a batch size.
  abbrev pub some_row : ℕ → List (Row F) → Bool
  some_row b [] = false
  some_row b (row ∷ rows) = if is_in b (keys row) then true else some_row b rows

  distinct_of-is_in :
      (b : ℕ) (seen : List ℕ) (rows : List (Row F))
      → is_in b (distinct_of seen rows) ≡ (if is_in b seen then true else some_row b rows)
  unfolding distinct_of
  distinct_of-is_in b seen [] = ground arith
  distinct_of-is_in b seen (row ∷ rows) =
      distinct_of-is_in b (note_batches seen (keys row)) rows
      ∙ (let h = note_batches-is_in b seen (keys row) in ground arith)

  distinct_batches-is_in :
      (b : ℕ) (table : Table F) → is_in b (distinct_batches table) ≡ some_row b (all_rows table)
  unfolding distinct_batches is_in
  distinct_batches-is_in b table = distinct_of-is_in b [] (all_rows table)

module _ {F : Type 0} ⦃r : Runtime F⦄ where
  -- The table that `latency_parameters` returns has for each stage, variant and batch size the latency
  -- that was read, 1000 where none was read and some other row of the table has the batch size, and
  -- no entry elsewhere.
  pub latency_parameters_lem :
      (graph : List (Task F)) {table : Table F}
      → latency_parameters graph ≡ ok table
      → (measured : Table F) × (read_table model_latency graph [] ≡ ok measured)
        × ((stage variant : String) (b : ℕ)
            → entry_at stage variant b table
              ≡ filled_entry
                  (r.of_ℕ 1000)
                  (distinct_batches measured)
                  (row_at stage variant measured)
                  b)
        × ((b : ℕ) → is_in b (distinct_batches measured) ≡ some_row b (all_rows measured))
  unfolding latency_parameters
  latency_parameters_lem graph h =
      let (measured, e, h1) = >>=-eq-ok (read_table model_latency graph []) _ h in
      (
        measured,
        e,
        (λ stage variant b.
            subst
              (λ t.
                entry_at stage variant b t
                ≡ filled_entry (r.of_ℕ 1000) (distinct_batches measured)
                    (row_at stage variant measured) b)
              (ok-injective h1)
              (fill_missing-entry_at (r.of_ℕ 1000) (distinct_batches measured) stage variant b
                measured)),
        λ b. distinct_batches-is_in b measured,
      )
