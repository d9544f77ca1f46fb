-- ===== src/Optimizer/Objective/Load.antt =====
-- optimizer/optimizer.py: the load that a configuration carries.
use mathlib.Core.Path.{subst}
use mathlib.Core.Option.{some-injective}
use mathlib.Core.List.{cons≢nil}
use ipa_arman.Prelude.{
  ok-false≢true, ℕ, zero, suc, ◌+◌, ◌≡◌, ◌≢◌, ◌↔◌, refl, sym, ◌∙◌, ap, true, false, some, List, ◌∷◌,
  [], arith, Bool-cases, inl, inr, if◌then◌else◌, ok, >>=-eq-ok, ok-injective, raised_ne_ok,
  get_elem?, All, Listed, Runtime,
}
use ipa_arman.Models.Task.{Task, throughput_all_replicas}
use ipa_arman.Optimizer.Objective.{can_sustain_load, bottlenecks_from, find_load_bottlenecks}

module _ {F : Type 0} ⦃r : Runtime F⦄ where
  open r use {of_ℕ, mul, lt, le}

  -- The replicas of a task together do not fall below a load.
  abbrev pub Carries : ℕ → Task F → Type 0
  Carries rate t = (x : F) × (throughput_all_replicas t ≡ ok x) × (lt x (of_ℕ rate) ≡ false)

  abbrev pub IsOverloaded : ℕ → Task F → Type 0
  IsOverloaded rate t = (x : F) × (throughput_all_replicas t ≡ ok x) × (lt x (of_ℕ rate) ≡ true)

  can_sustain_load-Carries :
      (rate : ℕ) (ts : List (Task F)) → can_sustain_load rate ts ≡ ok true → All (Carries rate) ts
  unfolding can_sustain_load
  can_sustain_load-Carries rate [] h = tt
  can_sustain_load-Carries rate (t ∷ ts) h =
      let (x, e, h1) = >>=-eq-ok (throughput_all_replicas t) _ h in
      elim (Bool-cases (lt x (of_ℕ rate))) [
        | inl low ↦ let h2 = rw low at h1 in cc
        | inr high ↦ ((x, e, high), can_sustain_load-Carries rate ts (rw high at h1))
      ]

  Carries-can_sustain_load :
      (rate : ℕ) (ts : List (Task F)) → All (Carries rate) ts → can_sustain_load rate ts ≡ ok true
  unfolding can_sustain_load
  Carries-can_sustain_load rate [] h = refl
  Carries-can_sustain_load rate (t ∷ ts) ((x, e, high), rest) =
      rw (can_sustain_load, e, high) (Carries-can_sustain_load rate ts rest)

  -- `can_sustain_load` answers True exactly when for every task the throughput of all its replicas
  -- can be read and does not fall below the arrival rate.
  pub can_sustain_load_iff :
      (rate : ℕ) (ts : List (Task F)) → (can_sustain_load rate ts ≡ ok true) ↔ All (Carries rate) ts
  can_sustain_load_iff rate ts =
      (can_sustain_load-Carries rate ts, Carries-can_sustain_load rate ts)

  -- What the loop finds, for a graph whose first task has the number `k`.
  bottlenecks_from_sound :
      (rate k : ℕ) (ts : List (Task F)) {ids : List ℕ}
      → bottlenecks_from rate k ts ≡ ok ids
      → (i : ℕ) → Listed i ids
      → (j : ℕ) × (t : Task F) × (i ≡ k + j) × (get_elem? ts j ≡ some t) × IsOverloaded rate t
  unfolding bottlenecks_from
  bottlenecks_from_sound rate k [] h i m = elim (subst (Listed i) (sym (ok-injective h)) m) [ ]
  bottlenecks_from_sound rate k (t ∷ ts) {ids} h i m =
      let (x, e, h1) = >>=-eq-ok (throughput_all_replicas t) _ h in
      let (rest, e2, h2) = >>=-eq-ok (bottlenecks_from rate (suc k) ts) _ h1 in
      elim (Bool-cases (lt x (of_ℕ rate))) [
        | inl low ↦ elim (subst (Listed i) (sym (ok-injective (rw low at h2))) m) [
          | inl here ↦ (0, t, omega arith, refl, (x, e, low))
          | inr later ↦
              let (j, u, ei, eg, o) = bottlenecks_from_sound rate (suc k) ts e2 i later in
              (suc j, u, omega arith, eg, o)
        ]
        | inr high ↦
            let later = subst (Listed i) (sym (ok-injective (rw high at h2))) m in
            let (j, u, ei, eg, o) = bottlenecks_from_sound rate (suc k) ts e2 i later in
            (suc j, u, omega arith, eg, o)
      ]

  Listed-step :
      (rate k j : ℕ) (t u : Task F) (ts : List (Task F)) (x : F) (rest : List ℕ)
      → throughput_all_replicas t ≡ ok x
      → get_elem? (t ∷ ts) j ≡ some u
      → IsOverloaded rate u
      → ((i : ℕ) → get_elem? ts i ≡ some u → Listed (suc k + i) rest)
      → Listed (k + j) (if lt x (of_ℕ rate) then k ∷ rest else rest)
  Listed-step rate k zero t u ts x rest e g (y, ey, low) later =
      let same : throughput_all_replicas t ≡ ok y = rw (some-injective _ _ g) ey in
      let low' : lt x (of_ℕ rate) ≡ true = rw (ok-injective (sym e ∙ same)) low in
      rw low' (inl (omega arith))
  Listed-step rate k (suc j) t u ts x rest e g o later =
      let found : Listed (k + suc j) rest = subst (λ n. Listed n rest) (omega arith) (later j g) in
      elim (Bool-cases (lt x (of_ℕ rate))) [
        | inl low ↦ rw low (inr found)
        | inr high ↦ rw high found
      ]

  bottlenecks_from_complete :
      (rate k : ℕ) (ts : List (Task F)) {ids : List ℕ}
      → bottlenecks_from rate k ts ≡ ok ids
      → (j : ℕ) (t : Task F) → get_elem? ts j ≡ some t
      → IsOverloaded rate t
      → Listed (k + j) ids
  unfolding bottlenecks_from
  bottlenecks_from_complete rate k [] h j t g o = cc
  bottlenecks_from_complete rate k (t ∷ ts) {ids} h j u g o =
      let (x, e, h1) = >>=-eq-ok (throughput_all_replicas t) _ h in
      let (rest, e2, h2) = >>=-eq-ok (bottlenecks_from rate (suc k) ts) _ h1 in
      subst (Listed (k + j)) (ok-injective h2) (
        Listed-step rate k j t u ts x rest e g o
          (λ i gi. bottlenecks_from_complete rate (suc k) ts e2 i u gi o))

  -- If nothing is overloaded, the load is sustained.
  bottlenecks_from-nil :
      (rate k : ℕ) (ts : List (Task F))
      → bottlenecks_from rate k ts ≡ ok []
      → can_sustain_load rate ts ≡ ok true
  unfolding bottlenecks_from can_sustain_load
  bottlenecks_from-nil rate k [] h = refl
  bottlenecks_from-nil rate k (t ∷ ts) h =
      let (x, e, h1) = >>=-eq-ok (throughput_all_replicas t) _ h in
      let (rest, e2, h2) = >>=-eq-ok (bottlenecks_from rate (suc k) ts) _ h1 in
      elim (Bool-cases (lt x (of_ℕ rate))) [
        | inl low ↦ absurd (cons≢nil (ok-injective (rw low at h2)))
        | inr high ↦
            let none_left : rest ≡ [] = ok-injective (rw high at h2) in
            rw (can_sustain_load, e, high)
              (bottlenecks_from-nil rate (suc k) ts (e2 ∙ ap ok none_left))
      ]

  -- When `find_load_bottlenecks` returns, it returns at least one number, and it returns exactly the
  -- positions of the tasks whose replicas together fall below the arrival rate.
  pub find_load_bottlenecks_lem :
      (rate : ℕ) (graph : List (Task F)) (ids : List ℕ)
      → find_load_bottlenecks rate graph ≡ ok ids
      → (ids ≢ [])
        × ((i : ℕ)
            → Listed i ids ↔ ((t : Task F) × (get_elem? graph i ≡ some t) × IsOverloaded rate t))
  unfolding find_load_bottlenecks
  find_load_bottlenecks_lem rate graph ids h =
      let (sustained, e, h1) = >>=-eq-ok (can_sustain_load rate graph) _ h in
      elim (Bool-cases sustained) [
        | inl all ↦ absurd (raised_ne_ok (rw all at h1))
        | inr some_low ↦
            let found = rw some_low at h1 in
            (
              λ empty. ok-false≢true (
                  sym (e ∙ ap ok some_low)
                  ∙ bottlenecks_from-nil rate 0 graph (found ∙ ap ok empty)),
              λ i. (
                λ m.
                    let (j, t, ei, g, o) = bottlenecks_from_sound rate 0 graph found i m in
                    (t, subst (λ n. get_elem? graph n ≡ some t) (omega arith) g, o),
                λ (t, g, o).
                    subst (λ n. Listed n ids) (omega arith)
                      (bottlenecks_from_complete rate 0 graph found i t g o),
              ),
            )
      ]
