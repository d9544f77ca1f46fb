-- ===== src/Adapter/Predictor/Windows.antt =====
-- optimizer/adapter.py: the aggregated series of `Predictor.predict`.
use mathlib.Core.Path.{subst}
use ipa_arman.Prelude.{
  ℕ, zero, suc, ◌+◌, ◌*◌, ◌/◌, ◌-◌, ◌≤◌, ◌<◌, ◌≡◌, refl, ◌∙◌, ap, List, [], ◌∷◌, leb, if◌then◌else◌,
  some, arith, Outcome, ok, ok-injective, traverse, get_elem?, length, slice, range_from,
  traverse-image,
}
use ipa_arman.Adapter.Predictor.{largest, max_of, aggregate}

at_position :
    (xs : List ℕ) (i j : ℕ) {x : ℕ} → i ≡ j → get_elem? xs i ≡ some x → get_elem? xs j ≡ some x
at_position xs i j {x} e g = subst (λ k. get_elem? xs k ≡ some x) e g

slice-get_elem? :
    (a b : ℕ) (xs : List ℕ) (i : ℕ) {x : ℕ}
    → get_elem? xs (a + i) ≡ some x
    → a + i < b
    → get_elem? (slice a b xs) i ≡ some x
unfolding slice
slice-get_elem? a b [] i g h = cc
slice-get_elem? a zero (y ∷ xs) i g h = absurd (omega arith)
slice-get_elem? zero (suc b) (y ∷ xs) zero g h = g
slice-get_elem? zero (suc b) (y ∷ xs) (suc i) g h =
    slice-get_elem? zero b xs i
      (at_position xs i (0 + i) (omega arith)
        (at_position (y ∷ xs) (0 + suc i) (suc i) (omega arith) g))
      (omega arith)
slice-get_elem? (suc a) (suc b) (y ∷ xs) i g h =
    slice-get_elem? a b xs i (at_position (y ∷ xs) (suc a + i) (suc (a + i)) (omega arith) g)
      (omega arith)

largest_head : (m : ℕ) (xs : List ℕ) → m ≤ largest m xs
unfolding largest
largest_head m [] = omega arith
largest_head m (x ∷ xs) = let h = largest_head (if leb x m then m else x) xs in grind arith

largest_tail : (m : ℕ) (xs : List ℕ) (i : ℕ) {x : ℕ} → get_elem? xs i ≡ some x → x ≤ largest m xs
unfolding largest
largest_tail m [] i g = cc
largest_tail m (y ∷ xs) zero g = let h = largest_head (if leb y m then m else y) xs in grind arith
largest_tail m (y ∷ xs) (suc i) g = largest_tail (if leb y m then m else y) xs i g

max_of_le : (xs : List ℕ) (i : ℕ) {x m : ℕ} → max_of xs ≡ ok m → get_elem? xs i ≡ some x → x ≤ m
unfolding max_of
max_of_le [] i h g = cc
max_of_le (y ∷ xs) zero h g = let e = ok-injective h in let l = largest_head y xs in ground arith
max_of_le (y ∷ xs) (suc i) h g =
    let e = ok-injective h in let l = largest_tail y xs i g in ground arith

range_from-get_elem? : (a n k : ℕ) → k < n → get_elem? (range_from a n) k ≡ some (a + k)
unfolding range_from
range_from-get_elem? a zero k h = absurd (omega arith)
range_from-get_elem? a (suc n) zero h = ground arith
range_from-get_elem? a (suc n) (suc k) h =
    range_from-get_elem? (suc a) n k (omega arith) ∙ ap some (omega arith)

get_elem?-length : (xs : List ℕ) (i : ℕ) {x : ℕ} → get_elem? xs i ≡ some x → i < length xs
get_elem?-length [] i g = cc
get_elem?-length (y ∷ xs) zero g = omega arith
get_elem?-length (y ∷ xs) (suc i) g = let l = get_elem?-length xs i g in omega arith

range_from-item :
    (a n k : ℕ) {v : ℕ} → get_elem? (range_from a n) k ≡ some v → (k < n) × (v ≡ a + k)
unfolding range_from
range_from-item a zero k g = cc
range_from-item a (suc n) zero g = (omega arith, ground arith)
range_from-item a (suc n) (suc k) g =
    let (below, e) = range_from-item (suc a) n k g in (omega arith, omega arith)

item_below : (xs : List ℕ) (i : ℕ) → i < length xs → (x : ℕ) × (get_elem? xs i ≡ some x)
item_below [] i h = absurd (omega arith)
item_below (y ∷ xs) zero h = (y, refl)
item_below (y ∷ xs) (suc i) h = item_below xs i (omega arith)

max_of-ok : (xs : List ℕ) {x : ℕ} → get_elem? xs 0 ≡ some x → (m : ℕ) × (max_of xs ≡ ok m)
unfolding max_of
max_of-ok [] g = cc
max_of-ok (y ∷ xs) g = (largest y xs, refl)

traverse-ok :
    (f : ℕ → Outcome ℕ) (xs : List ℕ)
    → ((i x : ℕ) → get_elem? xs i ≡ some x → (y : ℕ) × (f x ≡ ok y))
    → (ys : List ℕ) × (traverse f xs ≡ ok ys)
unfolding traverse
traverse-ok f [] h = ([], refl)
traverse-ok f (x ∷ xs) h =
    let (y, one) = h 0 x refl in
    let (ys, others) = traverse-ok f xs (λ i z g. h (suc i) z g) in (y ∷ ys, rw (one, others) refl)

abbrev window : List ℕ → ℕ → Outcome ℕ
window series k = max_of (slice (k * 10) (k * 10 + 10) series)

window-ok :
    (series : List ℕ) (i k : ℕ)
    → get_elem? (range_from 0 ((length series + 9) / 10)) i ≡ some k
    → (m : ℕ) × (window series k ≡ ok m)
window-ok series i k g =
    let (below, e) = range_from-item 0 ((length series + 9) / 10) i g in
    let (x, first) = item_below series (k * 10) (omega arith) in
    max_of-ok (slice (k * 10) (k * 10 + 10) series) (
      slice-get_elem? (k * 10) (k * 10 + 10) series 0
        (at_position series (k * 10) (k * 10 + 0) (omega arith) first) (omega arith))

-- The series is aggregated without an exception, also the empty one, and each load counts in its ten
-- seconds: their value is there and is no less than the load.
pub aggregate_lem :
    (series : List ℕ)
    → (maxima : List ℕ) × (aggregate series ≡ ok maxima)
      × ((i x : ℕ)
          → get_elem? series i ≡ some x
          → (m : ℕ) × (get_elem? maxima (i / 10) ≡ some m) × (x ≤ m))
unfolding aggregate
aggregate_lem series =
    let starts = range_from 0 ((length series + 9) / 10) in
    let (maxima, h) = traverse-ok (window series) starts (window-ok series) in
    (maxima, h, λ i x g. counted maxima h i x g)
  where
    counted :
        (maxima : List ℕ)
        → traverse (window series) (range_from 0 ((length series + 9) / 10)) ≡ ok maxima
        → (i x : ℕ) → get_elem? series i ≡ some x
        → (m : ℕ) × (get_elem? maxima (i / 10) ≡ some m) × (x ≤ m)
    counted maxima h i x g =
        let k = i / 10 in
        let below = get_elem?-length series i g in
        let start : get_elem? (range_from 0 ((length series + 9) / 10)) k ≡ some k =
          range_from-get_elem? 0 ((length series + 9) / 10) k (omega arith)
          ∙ ap some (omega arith) in
        let (m, there, e) =
          traverse-image (window series) (range_from 0 ((length series + 9) / 10)) k h start in
        let placed : get_elem? (slice (k * 10) (k * 10 + 10) series) (i - k * 10) ≡ some x =
          slice-get_elem? (k * 10) (k * 10 + 10) series (i - k * 10)
            (at_position series i (k * 10 + (i - k * 10)) (omega arith) g) (omega arith) in
        (m, there, max_of_le (slice (k * 10) (k * 10 + 10) series) (i - k * 10) e placed)
