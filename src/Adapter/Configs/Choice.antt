-- ===== src/Adapter/Configs/Choice.antt =====
-- optimizer/adapter.py: what `choose_config` chooses.
use ipa_arman.Prelude.{
  ℕ, zero, suc, ◌≤◌, ◌<◌, ◌≡◌, ◌≢◌, refl, false, List, [], ◌∷◌, ◌==◌, leb, if◌then◌else◌, some,
  arith, inl, inr, Bool-cases, ok, traverse, get_elem?, traverse-item, traverse-image, Conversions,
}
use ipa_arman.Adapter.Configs.{Config, penalty, best_penalty, index_of, best_index, choose_closest}

best_penalty_head : (n : ℕ) (ms : List ℕ) → best_penalty n ms ≤ n
unfolding best_penalty
best_penalty_head n [] = omega arith
best_penalty_head n (m ∷ ms) =
    let h = best_penalty_head (if leb n m then n else m) ms in grind arith

best_penalty_tail :
    (n : ℕ) (ms : List ℕ) (j : ℕ) {m : ℕ} → get_elem? ms j ≡ some m → best_penalty n ms ≤ m
unfolding best_penalty
best_penalty_tail n [] j g = cc
best_penalty_tail n (m ∷ ms) zero g =
    let h = best_penalty_head (if leb n m then n else m) ms in grind arith
best_penalty_tail n (m ∷ ms) (suc j) g = best_penalty_tail (if leb n m then n else m) ms j g

skip_second :
    {A : Type 0} (x y : A) (xs : List A) (k : ℕ) (z : A)
    → get_elem? (x ∷ xs) k ≡ some z
    → (j : ℕ) × (get_elem? (x ∷ y ∷ xs) j ≡ some z)
skip_second x y xs zero z g = (0, g)
skip_second x y xs (suc k) z g = (suc (suc k), g)

-- It is one of the penalties.
best_penalty_found :
    (n : ℕ) (ms : List ℕ) → (k : ℕ) × (get_elem? (n ∷ ms) k ≡ some (best_penalty n ms))
unfolding best_penalty
best_penalty_found n [] = (0, refl)
best_penalty_found n (m ∷ ms) = elim (Bool-cases (leb n m)) [
  | inl keeps ↦
      let (k, g) = best_penalty_found n ms in rw keeps (skip_second n m ms k (best_penalty n ms) g)
  | inr lower ↦ let (k, g) = best_penalty_found m ms in (suc k, rw lower g)
]

-- No item before the position `i` is `n`.
abbrev NotBefore : ℕ → ℕ → List ℕ → Type 0
NotBefore n i ms = (j m : ℕ) → get_elem? ms j ≡ some m → j < i → m ≢ n

NotBefore-cons : (n i m : ℕ) (ms : List ℕ) → m ≢ n → NotBefore n i ms → NotBefore n (suc i) (m ∷ ms)
NotBefore-cons n i m ms other h zero p g below = ground arith
NotBefore-cons n i m ms other h (suc j) p g below = h j p g (omega arith)

index_of_later :
    (n m : ℕ) (ms : List ℕ) (k : ℕ)
    → get_elem? (m ∷ ms) k ≡ some n
    → (m == n) ≡ false
    → (j : ℕ) × (get_elem? ms j ≡ some n)
index_of_later n m ms zero g other = ground arith
index_of_later n m ms (suc k) g other = (k, g)

index_of_found :
    (n : ℕ) (ms : List ℕ) (k : ℕ)
    → get_elem? ms k ≡ some n
    → (i : ℕ) × (index_of n ms ≡ ok i) × (get_elem? ms i ≡ some n) × NotBefore n i ms
unfolding index_of
index_of_found n [] k g = cc
index_of_found n (m ∷ ms) k g = elim (Bool-cases (m == n)) [
  | inl here ↦ (0, rw here refl, ground arith, λ j p g' below. omega arith)
  | inr other ↦
      let (j, later) = index_of_later n m ms k g other in
      let (i, found, gi, first) = index_of_found n ms j later in
      (suc i, rw (other, found) refl, gi, NotBefore-cons n i m ms (ground arith) first)
]

best_penalty_least :
    (n : ℕ) (ns : List ℕ) (j m : ℕ) → get_elem? (n ∷ ns) j ≡ some m → best_penalty n ns ≤ m
best_penalty_least n ns zero m g = let h = best_penalty_head n ns in ground arith
best_penalty_least n ns (suc j) m g = best_penalty_tail n ns j g

module _ {F : Type 0} (texts : Conversions F) (news : List (Config F)) (current : Config F) where
  -- The candidate at a position changes the least, and those before it change more.
  pub record IsClosest (chosen : Config F) (i : ℕ) : Type 0 where
    pub cost : ℕ
    pub stands : get_elem? news i ≡ some chosen
    pub costs : penalty texts chosen current ≡ ok cost
    pub least :
        (j : ℕ) (other : Config F) (m : ℕ)
        → get_elem? news j ≡ some other
        → penalty texts other current ≡ ok m
        → cost ≤ m
    pub first :
        (j : ℕ) (other : Config F) (m : ℕ)
        → get_elem? news j ≡ some other
        → penalty texts other current ≡ ok m
        → j < i
        → cost < m

  -- When each node of each candidate is in the current configuration and there is a candidate,
  -- `choose_closest` returns one: the number of its variants and batch sizes that differ is the
  -- least of all candidates, and less than those of the candidates before it.
  pub choose_closest_lem :
      (n : ℕ) (ns : List ℕ)
      → traverse (λ new. penalty texts new current) news ≡ ok (n ∷ ns)
      → (chosen : Config F) × (i : ℕ) × (choose_closest texts news current ≡ ok chosen)
        × IsClosest chosen i
  unfolding choose_closest best_index
  choose_closest_lem n ns scores =
      let (k, gk) = best_penalty_found n ns in
      let (i, found, gi, before) = index_of_found (best_penalty n ns) (n ∷ ns) k gk in
      let (chosen, stands, costs) =
        traverse-item (λ new. penalty texts new current) news i scores gi in
      (
        chosen,
        i,
        rw (choose_closest, scores, best_index, found, stands) refl,
        record {
          cost = best_penalty n ns;
          stands = stands;
          costs = costs;
          least = λ j other m gj cj. best_penalty_least n ns j m (score_at j other m gj cj);
          first = λ j other m gj cj below.
              let least = best_penalty_least n ns j m (score_at j other m gj cj) in
              let more = before j m (score_at j other m gj cj) below in ground arith;
        },
      )
    where
      score_at :
          (j : ℕ) (other : Config F) (m : ℕ)
          → get_elem? news j ≡ some other
          → penalty texts other current ≡ ok m
          → get_elem? (n ∷ ns) j ≡ some m
      score_at j other m gj cj =
          let (y, gy, cy) = traverse-image (λ new. penalty texts new current) news j scores gj in cc
