-- ===== src/Prelude/Folds.antt =====
-- Counting, and what holds of every item, along nested loops and comprehensions.
use Prim.Native.Nat.{ℕ, suc}
use mathlib.Core.Path.{◌≡◌, refl, sym, ap, ◌∙◌}
use mathlib.Core.Logic.{◌↔◌, inl, inr}
use mathlib.Core.Bool.{Bool, true, false, ◌&&◌}
use mathlib.Core.List.{List, [], ◌∷◌, ◌++◌, map, foldl}
use native.Mathlib.Omega.{arith}
use ipa_arman.Prelude.Tests.{if◌then◌else◌, Bool-cases}
use ipa_arman.Prelude.Lists.{for_each, keep, All}

-- How many items pass a test.
abbrev pub count_of {ℓ} : {A : Type ℓ} → (A → Bool) → List A → ℕ
count_of test [] = 0
count_of test (x ∷ xs) = if test x then suc (count_of test xs) else count_of test xs

module _ {ℓ κ} {A : Type ℓ} (P : A → Type κ) where
  pub All-append : (xs ys : List A) → All P (xs ++ ys) ↔ (All P xs × All P ys)
  All-append [] ys = ((λ h. (tt, h)), λ h. h.1)
  All-append (x ∷ xs) ys =
      let (to, from) = All-append xs ys in
      ((λ h. let (a, b) = to h.1 in ((h.0, a), b)), λ h. (h.0.0, from (h.0.1, h.1)))

  -- Of an item that passes the test, if one does.
  pub All-found :
      (test : A → Bool) (xs : List A)
      → All P xs
      → ¬ (count_of test xs ≡ 0)
      → (x : A) × (test x ≡ true) × P x
  All-found test [] h some_ = elim (some_ refl) [ ]
  All-found test (x ∷ xs) h some_ = elim (Bool-cases (test x)) [
    | inl here ↦ (x, here, h.0)
    | inr away ↦ All-found test xs h.1 (rw away at some_)
  ]

pub All-every {ℓ κ} : {A : Type ℓ} {P : A → Type κ} → ((x : A) → P x) → (xs : List A) → All P xs
All-every h [] = tt
All-every h (x ∷ xs) = (h x, All-every h xs)

-- Three properties of every item are one.
pub All-three {ℓ κ} :
    {A : Type ℓ} (P Q R S : A → Type κ)
    → ((x : A) → (P x × Q x × R x) ↔ S x)
    → (xs : List A) → (All P xs × All Q xs × All R xs) ↔ All S xs
All-three P Q R S each [] = ((λ h. tt), λ h. (tt, tt, tt))
All-three P Q R S each (x ∷ xs) =
    let (to, from) = All-three P Q R S each xs in
    let (to1, from1) = each x in
    (
      (λ (p, q, r). (to1 (p.0, q.0, r.0), to (p.1, q.1, r.1))),
      λ h. let (p, q, r) = from1 h.0 in let (ps, qs, rs) = from h.1 in ((p, ps), (q, qs), (r, rs)),
    )

module _ {ℓ κ μ} {A : Type ℓ} {B : Type κ} (P : B → Type μ) where
  pub All-map : (f : A → B) (xs : List A) → All P (map f xs) ↔ All (λ x. P (f x)) xs
  All-map f [] = ((λ h. h), λ h. h)
  All-map f (x ∷ xs) = let (to, from) = All-map f xs in ((λ h. (h.0, to h.1)), λ h. (h.0, from h.1))

  pub All-for_each :
      (f : A → List B) (xs : List A) → All P (for_each f xs) ↔ All (λ x. All P (f x)) xs
  unfolding for_each
  All-for_each f [] = ((λ h. h), λ h. h)
  All-for_each f (x ∷ xs) =
      let (to, from) = All-for_each f xs in
      let (split, both) = All-append P (f x) (for_each f xs) in
      ((λ h. let (a, b) = split h in (a, to b)), λ h. both (h.0, from h.1))

module _ {κ μ} {B : Type κ} {Z : Type μ} (step : Z → B → Z) where
  pub foldl-append :
      (z : Z) (xs ys : List B) → foldl step z (xs ++ ys) ≡ foldl step (foldl step z xs) ys
  foldl-append z [] ys = refl
  foldl-append z (x ∷ xs) ys = foldl-append (step z x) xs ys

-- A fold along nested loops is a fold of folds.
module _ {ℓ κ μ} {A : Type ℓ} {B : Type κ} {Z : Type μ} (step : Z → B → Z) where
  pub foldl-map :
      (f : A → B) (z : Z) (xs : List A) → foldl step z (map f xs) ≡ foldl (λ w x. step w (f x)) z xs
  foldl-map f z [] = refl
  foldl-map f z (x ∷ xs) = foldl-map f (step z (f x)) xs

  pub foldl-for_each :
      (f : A → List B) (z : Z) (xs : List A)
      → foldl step z (for_each f xs) ≡ foldl (λ w x. foldl step w (f x)) z xs
  unfolding for_each
  foldl-for_each f z [] = refl
  foldl-for_each f z (x ∷ xs) =
      foldl-append step z (f x) (for_each f xs) ∙ foldl-for_each f (foldl step z (f x)) xs

-- A fold whose steps do nothing.
pub foldl-still {ℓ μ} :
    {A : Type ℓ} {Z : Type μ} (step : Z → A → Z)
    → ((z : Z) (x : A) → step z x ≡ z)
    → (z : Z) (xs : List A) → foldl step z xs ≡ z
foldl-still step still z [] = refl
foldl-still step still z (x ∷ xs) = rw (still z x) (foldl-still step still z xs)

-- A fold whose steps do nothing but at the items that pass a test.
module _ {ℓ μ} {A : Type ℓ} {Z : Type μ} (step : Z → A → Z) (test : A → Bool)
    (idle : (z : Z) (x : A) → test x ≡ false → step z x ≡ z) where
  foldl-idle : (z : Z) (xs : List A) → count_of test xs ≡ 0 → foldl step z xs ≡ z
  foldl-idle z [] h = refl
  foldl-idle z (x ∷ xs) h = elim (Bool-cases (test x)) [
    | inl here ↦ let h1 = rw here at h in ground arith
    | inr away ↦ rw (idle z x away) (foldl-idle z xs (rw away at h))
  ]

  -- Where one item passes it, the fold is one step.
  pub foldl-once :
      (act : Z → Z) (z : Z) (xs : List A)
      → ((w : Z) (x : A) → test x ≡ true → step w x ≡ act w)
      → count_of test xs ≡ 1
      → foldl step z xs ≡ act z
  foldl-once act z [] does h = ground arith
  foldl-once act z (x ∷ xs) does h = elim (Bool-cases (test x)) [
    | inl here ↦ rw (does z x here) (foldl-idle (act z) xs (let h1 = rw here at h in ground arith))
    | inr away ↦ rw (idle z x away) (foldl-once act z xs does (rw away at h))
  ]

-- Filters and maps, one after the other.
pub keep-keep {ℓ} :
    {A : Type ℓ} (p q : A → Bool) (xs : List A) → keep p (keep q xs) ≡ keep (λ x. q x && p x) xs
unfolding keep
keep-keep p q [] = refl
keep-keep p q (x ∷ xs) = elim (Bool-cases (q x)) [
  | inr out ↦ rw out (keep-keep p q xs)
  | inl in_ ↦ elim (Bool-cases (p x)) [
    | inr out ↦ rw (in_, out) (keep-keep p q xs)
    | inl also ↦ rw (in_, also) (ap (λ l. x ∷ l) (keep-keep p q xs))
  ]
]

pub keep-map {ℓ κ} :
    {A : Type ℓ} {B : Type κ} (p : B → Bool) (f : A → B) (xs : List A)
    → keep p (map f xs) ≡ map f (keep (λ x. p (f x)) xs)
unfolding keep
keep-map p f [] = refl
keep-map p f (x ∷ xs) = elim (Bool-cases (p (f x))) [
  | inr out ↦ rw out (keep-map p f xs)
  | inl in_ ↦ rw in_ (ap (λ l. f x ∷ l) (keep-map p f xs))
]

pub map-map {ℓ κ μ} :
    {A : Type ℓ} {B : Type κ} {C : Type μ} (g : B → C) (f : A → B) (xs : List A)
    → map g (map f xs) ≡ map (λ x. g (f x)) xs
map-map g f [] = refl
map-map g f (x ∷ xs) = ap (λ l. g (f x) ∷ l) (map-map g f xs)

pub map-append {ℓ κ} :
    {A : Type ℓ} {B : Type κ} (f : A → B) (xs ys : List A) → map f (xs ++ ys) ≡ map f xs ++ map f ys
map-append f [] ys = refl
map-append f (x ∷ xs) ys = ap (λ l. f x ∷ l) (map-append f xs ys)

-- The laws of `++`.
pub append_assoc {ℓ} : {A : Type ℓ} (xs ys zs : List A) → (xs ++ ys) ++ zs ≡ xs ++ (ys ++ zs)
append_assoc [] ys zs = refl
append_assoc (x ∷ xs) ys zs = ap (λ l. x ∷ l) (append_assoc xs ys zs)

pub append-nil {ℓ} : {A : Type ℓ} (xs : List A) → xs ++ [] ≡ xs
append-nil [] = refl
append-nil (x ∷ xs) = ap (λ l. x ∷ l) (append-nil xs)

pub for_each-append {ℓ κ} :
    {A : Type ℓ} {B : Type κ} (f : A → List B) (xs ys : List A)
    → for_each f (xs ++ ys) ≡ for_each f xs ++ for_each f ys
unfolding for_each
for_each-append f [] ys = refl
for_each-append f (x ∷ xs) ys =
    ap (λ l. f x ++ l) (for_each-append f xs ys)
    ∙ sym (append_assoc (f x) (for_each f xs) (for_each f ys))
