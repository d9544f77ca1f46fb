-- ===== src/Prelude/Traversal.antt =====
-- The items of a comprehension, one by one.
use Prim.Native.Nat.{ℕ, zero, suc}
use mathlib.Core.Path.{◌≡◌, refl, sym, subst}
use mathlib.Core.Option.{none, some}
use mathlib.Core.List.{List, [], ◌∷◌, map}
use ipa_arman.Prelude.Lists.{get_elem?, All}
use ipa_arman.Prelude.Effects.{Outcome, ok, traverse, >>=-eq-ok, ok-injective}

module _ {ℓ κ} {A : Type ℓ} {B : Type κ} (f : A → Outcome B) where
  pub traverse-cons :
      (x : A) (xs : List A) {ys : List B}
      → traverse f (x ∷ xs) ≡ ok ys
      → (y : B) × (rest : List B) × (f x ≡ ok y) × (traverse f xs ≡ ok rest) × (y ∷ rest ≡ ys)
  unfolding traverse
  traverse-cons x xs h =
      let (y, one, h1) = >>=-eq-ok (f x) _ h in
      let (rest, others, h2) = >>=-eq-ok (traverse f xs) _ h1 in
      (y, rest, one, others, ok-injective h2)

  pub traverse-item :
      (xs : List A) {ys : List B} (i : ℕ) {y : B}
      → traverse f xs ≡ ok ys
      → get_elem? ys i ≡ some y
      → (x : A) × (get_elem? xs i ≡ some x) × (f x ≡ ok y)
  unfolding traverse
  traverse-item [] i {y} h g =
      let g1 : none ≡ some y = subst (λ l. get_elem? l i ≡ some y) (sym (ok-injective h)) g in cc
  traverse-item (x ∷ xs) zero {y} h g =
      let (z, rest, one, others, e) = traverse-cons x xs h in
      let g1 : some z ≡ some y = subst (λ l. get_elem? l zero ≡ some y) (sym e) g in (x, refl, cc)
  traverse-item (x ∷ xs) (suc i) {y} h g =
      let (z, rest, one, others, e) = traverse-cons x xs h in
      traverse-item xs i others (subst (λ l. get_elem? l (suc i) ≡ some y) (sym e) g)

  pub traverse-image :
      (xs : List A) {ys : List B} (i : ℕ) {x : A}
      → traverse f xs ≡ ok ys
      → get_elem? xs i ≡ some x
      → (y : B) × (get_elem? ys i ≡ some y) × (f x ≡ ok y)
  traverse-image [] i h g = cc
  traverse-image (w ∷ xs) zero h g =
      let (z, rest, one, others, e) = traverse-cons w xs h in
      (z, subst (λ l. get_elem? l zero ≡ some z) e refl, cc)
  traverse-image (w ∷ xs) (suc i) h g =
      let (z, rest, one, others, e) = traverse-cons w xs h in
      let (y, gy, fy) = traverse-image xs i others g in
      (y, subst (λ l. get_elem? l (suc i) ≡ some y) e gy, fy)

-- A comprehension succeeds just if its body does for every item.
pub traverse-All {ℓ κ} :
    {A : Type ℓ} {B : Type κ} (f : A → Outcome B) (xs : List A) {ys : List B}
    → traverse f xs ≡ ok ys
    → All (λ x. (y : B) × (f x ≡ ok y)) xs
traverse-All f [] h = tt
traverse-All f (x ∷ xs) h =
    let (y, rest, one, others, e) = traverse-cons f x xs h in ((y, one), traverse-All f xs others)

pub All-traverse {ℓ κ} :
    {A : Type ℓ} {B : Type κ} (f : A → Outcome B) (xs : List A)
    → All (λ x. (y : B) × (f x ≡ ok y)) xs
    → (ys : List B) × (traverse f xs ≡ ok ys)
unfolding traverse
All-traverse f [] h = ([], refl)
All-traverse f (x ∷ xs) h = let (ys, e) = All-traverse f xs h.1 in (h.0.0 ∷ ys, rw (h.0.1, e) refl)

pub traverse-map {ℓ κ} :
    {A : Type ℓ} {B : Type κ} (f : A → Outcome B) (g : A → B) (xs : List A)
    → All (λ x. f x ≡ ok (g x)) xs
    → traverse f xs ≡ ok (map g xs)
unfolding traverse
traverse-map f g [] h = refl
traverse-map f g (x ∷ xs) h = rw (h.0, traverse-map f g xs h.1) refl
