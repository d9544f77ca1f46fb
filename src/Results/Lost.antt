-- ===== src/Results/Lost.antt =====
-- experiments/utils/parser.py: what a column of latencies holds after the loop over the responses.
use ipa_arman.Prelude.{
  append_assoc, append-nil, ℕ, suc, ◌+◌, String, ◌≡◌, refl, sym, ap, ◌∙◌, Bool, true, false, Option,
  none, some, List, [], ◌∷◌, ◌++◌, arith, inl, inr, Bool-cases, Outcome-cases, if◌then◌else◌,
  str_eq, eq_iff, count_of, for_each, Exception, ok, raised, ok-injective, lookup, Runtime,
}
use ipa_arman.Results.{Kind, Response, Column, Measurement, clocks, appends}
use ipa_arman.Results.Latencies.{
  Latencies, append_to, measure, append_lost, measure_response, measure_all, is_key_error,
}

module _ {F : Type 0} where
  -- A column with one entry more.
  abbrev longer : List (Option F) → Option (List (Option F)) → Option (List (Option F))
  longer more none = none
  longer more (some xs) = some (xs ++ more)

  append_to-lookup :
      (c e : Column) (x : Option F) (d : Latencies F)
      → lookup str_eq c (append_to e x d)
        ≡ (if str_eq e c then longer (x ∷ []) (lookup str_eq c d) else lookup str_eq c d)
  unfolding append_to lookup
  append_to-lookup c e x [] = ground arith
  append_to-lookup c e x ((d, xs) ∷ rest) = elim (Bool-cases (str_eq d e)) [
    | inl same ↦
        let q : d ≡ e = (eq_iff d e).0 same in
        let ec : str_eq e c ≡ str_eq d c = ap (λ w. str_eq w c) (sym q) in
        elim (Bool-cases (str_eq d c)) [
          | inl here ↦ rw (same, ec, here) refl
          | inr away ↦ rw (same, ec, away) refl
        ]
    | inr apart ↦ elim (Bool-cases (str_eq d c)) [
      | inl here ↦ elim (Bool-cases (str_eq e c)) [
        | inl both ↦
            let t : str_eq d e ≡ true =
              (eq_iff d e).1 ((eq_iff d c).0 here ∙ sym ((eq_iff e c).0 both)) in
            cc
        | inr other ↦ rw (apart, here, other) refl
      ]
      | inr away ↦ rw (apart, away) (append_to-lookup c e x rest)
    ]
  ]

  append_lost-lookup :
      (c : Column) (d : Latencies F)
      → lookup str_eq c (append_lost d) ≡ longer (none ∷ []) (lookup str_eq c d)
  unfolding append_lost lookup
  append_lost-lookup c [] = refl
  append_lost-lookup c ((e, xs) ∷ d) = elim (Bool-cases (str_eq e c)) [
    | inl here ↦ rw here refl
    | inr away ↦ rw away (append_lost-lookup c d)
  ]

  -- What the appends of a response add to a column, up to the first that raises.
  abbrev pub gained : Column → List (Measurement F) → List (Option F)
  gained c [] = []
  gained c ((d, raised e) ∷ ms) = []
  gained c ((d, ok x) ∷ ms) = if str_eq d c then some x ∷ gained c ms else gained c ms

  -- Whether one of them raises.
  abbrev pub cut_short : List (Measurement F) → Bool
  cut_short [] = false
  cut_short ((d, raised e) ∷ ms) = true
  cut_short ((d, ok x) ∷ ms) = cut_short ms

  measure-lookup :
      (c : Column) (ms : List (Measurement F)) (d : Latencies F) {xs : List (Option F)}
      → lookup str_eq c d ≡ some xs
      → lookup str_eq c (measure ms d).1 ≡ some (xs ++ gained c ms)
  unfolding measure
  measure-lookup c [] d {xs} h = h ∙ ap some (sym (append-nil xs))
  measure-lookup c ((e, raised x) ∷ ms) d {xs} h = h ∙ ap some (sym (append-nil xs))
  measure-lookup c ((e, ok x) ∷ ms) d {xs} h =
      let step = append_to-lookup c e (some x) d in
      elim (Bool-cases (str_eq e c)) [
        | inl here ↦ rw here (
            measure-lookup c ms (append_to e (some x) d) (rw (here, h) at step)
            ∙ ap some (append_assoc xs (some x ∷ []) (gained c ms)))
        | inr away ↦ rw away (measure-lookup c ms (append_to e (some x) d) (rw (away, h) at step))
      ]

  measure-ok :
      (ms : List (Measurement F)) (d : Latencies F)
      → (measure ms d).0 ≡ ok tt
      → cut_short ms ≡ false
  unfolding measure
  measure-ok [] d h = refl
  measure-ok ((c, raised e) ∷ ms) d h = cc
  measure-ok ((c, ok x) ∷ ms) d h = measure-ok ms (append_to c (some x) d) h

  measure-raised :
      (ms : List (Measurement F)) (d : Latencies F) (e : Exception)
      → (measure ms d).0 ≡ raised e
      → cut_short ms ≡ true
  unfolding measure
  measure-raised [] d e h = cc
  measure-raised ((c, raised x) ∷ ms) d e h = refl
  measure-raised ((c, ok x) ∷ ms) d e h = measure-raised ms (append_to c (some x) d) e h

-- The same for a response and for the loop.
module _ {F : Type 0} ⦃r : Runtime F⦄ (digits : ℕ → String) (kind : Kind)
    (nodes : List String) where
  -- Whether a response is counted as lost.
  abbrev pub is_lost : Response F → Bool
  is_lost response = elim (clocks response) [
    | raised e ↦ true
    | ok c ↦ cut_short (appends digits kind nodes c)
  ]

  -- What a response adds to a column before it is counted as lost, if it is.
  abbrev pub gained_from : Column → Response F → List (Option F)
  gained_from column response = elim (clocks response) [
    | raised e ↦ []
    | ok c ↦ gained column (appends digits kind nodes c)
  ]

  -- The entries that a response leaves in a column where lost responses are kept.
  abbrev pub entries : Column → Response F → List (Option F)
  entries column response =
      gained_from column response ++ (if is_lost response then none ∷ [] else [])

  response-lookup :
      (column : Column) (response : Response F) (d : Latencies F) {xs : List (Option F)}
      → lookup str_eq column d ≡ some xs
      → lookup str_eq column (measure_response digits kind nodes response d).1
        ≡ some (xs ++ gained_from column response)
  unfolding measure_response
  response-lookup column response d {xs} h = elim (Outcome-cases (clocks response)) [
    | inr (e, g) ↦ rw (g, measure_response, gained_from) (h ∙ ap some (sym (append-nil xs)))
    | inl (c, g) ↦
        rw (g, measure_response, gained_from)
          (measure-lookup column (appends digits kind nodes c) d h)
  ]

  response-ok :
      (response : Response F) (d : Latencies F)
      → (measure_response digits kind nodes response d).0 ≡ ok tt
      → is_lost response ≡ false
  unfolding measure_response
  response-ok response d h = elim (Outcome-cases (clocks response)) [
    | inr (e, g) ↦ let h1 = rw (g, measure_response) at h in cc
    | inl (c, g) ↦
        rw (g, is_lost) (measure-ok (appends digits kind nodes c) d (rw (g, measure_response) at h))
  ]

  response-raised :
      (response : Response F) (d : Latencies F) (e : Exception)
      → (measure_response digits kind nodes response d).0 ≡ raised e
      → is_lost response ≡ true
  unfolding measure_response
  response-raised response d e h = elim (Outcome-cases (clocks response)) [
    | inr (x, g) ↦ rw (g, is_lost) refl
    | inl (c, g) ↦
        rw (g, is_lost)
          (measure-raised (appends digits kind nodes c) d e (rw (g, measure_response) at h))
  ]

  kept-lookup :
      (column : Column) (response : Response F) (d : Latencies F) {xs : List (Option F)}
      → lookup str_eq column d ≡ some xs
      → is_lost response ≡ false
      → lookup str_eq column (measure_response digits kind nodes response d).1
        ≡ some (xs ++ entries column response)
  kept-lookup column response d {xs} h kept =
      response-lookup column response d h
      ∙ ap (λ l. some (xs ++ l))
          (sym (append-nil (gained_from column response))
            ∙ ap (λ (b : Bool). gained_from column response ++ (if b then none ∷ [] else []))
                (sym kept))

  lost-lookup :
      (column : Column) (response : Response F) (d : Latencies F) {xs : List (Option F)}
      → lookup str_eq column d ≡ some xs
      → is_lost response ≡ true
      → lookup str_eq column (append_lost (measure_response digits kind nodes response d).1)
        ≡ some (xs ++ entries column response)
  lost-lookup column response d {xs} h lost =
      append_lost-lookup column (measure_response digits kind nodes response d).1
      ∙ ap (longer (none ∷ [])) (response-lookup column response d h)
      ∙ ap some (
          append_assoc xs (gained_from column response) (none ∷ [])
          ∙ ap (λ (b : Bool). xs ++ (gained_from column response ++ (if b then none ∷ [] else [])))
              (sym lost))

  -- After the loop with `keep_lost`, a column has the entries of each response, in order, behind what
  -- it held, and the count of lost responses has gone up by the number of those that are lost.
  pub measure_all-lookup :
      (column : Column) (responses : List (Response F)) (d : Latencies F) (lost : ℕ)
      {xs : List (Option F)} {d' : Latencies F} {lost' : ℕ}
      → lookup str_eq column d ≡ some xs
      → measure_all digits kind nodes true responses (d, lost) ≡ ok (d', lost')
      → (lookup str_eq column d' ≡ some (xs ++ for_each (entries column) responses))
        × (lost' ≡ lost + count_of is_lost responses)
  unfolding measure_all for_each
  measure_all-lookup column [] d lost {xs} {d'} {lost'} h done =
      let e = ok-injective done in
      (
        ap (λ (s : Latencies F × ℕ). lookup str_eq column s.0) (sym e)
            ∙ (h ∙ ap some (sym (append-nil xs))),
        ap (λ (s : Latencies F × ℕ). s.1) (sym e) ∙ omega arith,
      )
  measure_all-lookup column (response ∷ responses) d lost {xs} {d'} {lost'} h done =
      let d1 = (measure_response digits kind nodes response d).1 in
      let join_up =
        append_assoc xs (entries column response) (for_each (entries column) responses) in
      elim (Outcome-cases (measure_response digits kind nodes response d).0) [
        | inl (_, g) ↦
            let kept = response-ok response d g in
            let (found, count) =
              measure_all-lookup column responses d1 lost (kept-lookup column response d h kept)
                (rw (g, measure_all) at done) in
            (found ∙ ap some join_up, rw kept count)
        | inr (e, g) ↦
            let gone = response-raised response d e g in
            elim (Bool-cases (is_key_error e)) [
              | inr other ↦ let done1 = rw (g, measure_all, other) at done in cc
              | inl key ↦
                  let (found, count) =
                    measure_all-lookup column responses (append_lost d1) (suc lost)
                      (lost-lookup column response d h gone) (rw (g, measure_all, key) at done) in
                  (found ∙ ap some join_up, rw gone (count ∙ omega arith))
            ]
      ]
