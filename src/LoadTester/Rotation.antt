-- ===== src/LoadTester/Rotation.antt =====
-- load_tester/barazmoon/main.py: which payloads the requests of a benchmark send.
use ipa_arman.Prelude.{
  ℕ, zero, suc, ◌+◌, ◌%◌, ◌≡◌, ◌≢◌, sym, ap, ◌∙◌, false, List, [], ◌∷◌, ◌++◌, map, ◌==◌, arith, inl,
  inr, Outcome-cases, ok, >>=-eq-ok, ok-injective, range_from, for_each, map-append, Runtime,
}
use ipa_arman.LoadTester.Schedule.{
  Tester, Planned, create_requests, arrivals, submit_requests, benchmark,
}

range_from-append : (a m n : ℕ) → range_from a (m + n) ≡ range_from a m ++ range_from (a + m) n
unfolding range_from
range_from-append a zero n =
    let zero_n : 0 + n ≡ n = omega arith in
    let a_zero : a ≡ a + 0 = omega arith in
    ap (range_from a) zero_n ∙ ap (λ b. range_from b n) a_zero
range_from-append a (suc m) n =
    let out : suc m + n ≡ suc (m + n) = omega arith in
    let on : suc a + m ≡ a + suc m = omega arith in
    ap (range_from a) out
    ∙ ap (λ l. a ∷ l)
        (range_from-append (suc a) m n ∙ ap (λ b. range_from (suc a) m ++ range_from b n) on)

abbrev pub total : List ℕ → ℕ
total [] = 0
total (n ∷ ns) = n + total ns

module _ {F : Type 0} ⦃r : Runtime F⦄ (t : Tester F) (on : t.stop_flag ≡ false)
    (some_ : t.payloads ≢ 0) where
  abbrev pub sent : List (Planned F) → List ℕ
  sent planned = map (λ (p : Planned F). p.payload) planned

  abbrev pub turn : ℕ → ℕ
  turn k = k % t.payloads

  create_requests-sent :
      (n : ℕ) (arrival : List F) (index : ℕ) {planned : List (Planned F)}
      → (create_requests t n arrival index).0 ≡ ok planned
      → (sent planned ≡ map turn (range_from index n))
        × ((create_requests t n arrival index).1 ≡ index + n)
  unfolding create_requests range_from
  create_requests-sent zero arrival index {planned} h =
      (ap sent (sym (ok-injective h)), omega arith)
  create_requests-sent (suc n) [] index {planned} h =
      let there : (t.payloads == 0) ≡ false = ground arith in let h1 = rw (there, on) at h in cc
  create_requests-sent (suc n) (w ∷ arrival) index {planned} h =
      let there : (t.payloads == 0) ≡ false = ground arith in
      let h1 = rw (there, on) at h in
      let (rest, e, h2) = >>=-eq-ok (create_requests t n arrival (suc index)).0 _ h1 in
      let (same, end) = create_requests-sent n arrival (suc index) e in
      (
        ap sent (sym (ok-injective h2)) ∙ ap (λ l. turn index ∷ l) same,
        rw (there, on) (end ∙ omega arith),
      )

  module _ (exponential : F → ℕ → List F) where
    submit_requests-sent :
        (n index : ℕ) {planned : List (Planned F)}
        → (submit_requests exponential t n index).0 ≡ ok planned
        → (sent planned ≡ map turn (range_from index n))
          × ((submit_requests exponential t n index).1 ≡ index + n)
    unfolding submit_requests
    submit_requests-sent n index {planned} h = elim (Outcome-cases (arrivals exponential t n)) [
      | inr (e, g) ↦ let h1 = rw (g, submit_requests) at h in cc
      | inl (arrival, g) ↦
          let (same, end) = create_requests-sent n arrival index (rw (g, submit_requests) at h) in
          (same, rw (g, submit_requests) end)
    ]

    -- A benchmark that is not told to stop sends its payloads in turn, from the index that it starts
    -- with on, over all its seconds, and leaves the index behind the last of them.
    pub benchmark-sent :
        (counts : List ℕ) (index : ℕ) {seconds : List (List (Planned F))}
        → (benchmark exponential t counts index).0 ≡ ok seconds
        → (for_each sent seconds ≡ map turn (range_from index (total counts)))
          × ((benchmark exponential t counts index).1 ≡ index + total counts)
    unfolding benchmark for_each range_from
    benchmark-sent [] index {seconds} h = (ap (for_each sent) (sym (ok-injective h)), omega arith)
    benchmark-sent (n ∷ counts) index {seconds} h =
        elim (Outcome-cases (submit_requests exponential t n index).0) [
          | inr (e, g) ↦ let h1 = rw (g, benchmark) at h in cc
          | inl (planned, g) ↦
              let h1 = rw (g, benchmark) at h in
              let (same, end) = submit_requests-sent n index g in
              let next = (submit_requests exponential t n index).1 in
              let (rest, e, h2) = >>=-eq-ok (benchmark exponential t counts next).0 _ h1 in
              let (others, last) = benchmark-sent counts next e in
              (
                ap (for_each sent) (sym (ok-injective h2))
                    ∙ ap (λ l. l ++ for_each sent rest) same
                    ∙ ap (λ l. map turn (range_from index n) ++ l)
                        (others ∙ ap (λ k. map turn (range_from k (total counts))) end)
                    ∙ sym (
                        map-append turn (range_from index n)
                          (range_from (index + n) (total counts)))
                    ∙ ap (map turn) (sym (range_from-append index n (total counts))),
                rw (g, benchmark) (last ∙ ap (λ k. k + total counts) end ∙ omega arith),
              )
        ]
