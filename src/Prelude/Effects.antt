-- ===== src/Prelude/Effects.antt =====
-- Python's exceptions as values, and methods that mutate an object and may raise.
use mathlib.Core.Path.{◌≡◌, refl, ap}
use mathlib.Core.Logic.{◌⊎◌, inl, inr, ◌≢◌}
use native.Mathlib.Omega.{arith}
use mathlib.Core.Bool.{true, false}
use mathlib.Core.Option.{Option, none, some}
use mathlib.Core.List.{List, [], ◌∷◌}

-- The exceptions of the code. `out_of_fuel` is raised by no code: it marks a `while` loop cut short.
pub data Exception : Type 0 where
  value_error type_error key_error index_error attribute_error : Exception
  zero_division_error unbound_local_error assertion_error : Exception
  stop_iteration api_exception plain_exception out_of_fuel : Exception

pub data Outcome {ℓ} (A : Type ℓ) : Type ℓ where
  ok : A → Outcome A
  raised : Exception → Outcome A

-- An exception skips the rest of the chain.
infixl 5 ◌>>=◌ ◌>>◌
abbrev pub ◌>>=◌ {ℓ μ} : {X : Type ℓ} {Y : Type μ} → Outcome X → (X → Outcome Y) → Outcome Y
raised exn >>= next = raised exn
ok x >>= next = next x

abbrev pub ◌>>◌ {ℓ} : {Y : Type ℓ} → Outcome (Unit {0}) → Outcome Y → Outcome Y
first >> second = first >>= (λ done. second)

-- A missing key, index or attribute raises.
abbrev pub or_raise {ℓ} : {A : Type ℓ} → Option A → Exception → Outcome A
or_raise none e = raised e
or_raise (some a) e = ok a

-- A comprehension whose body may raise: the first exception ends it.
unfoldable pub traverse {ℓ κ} :
    {A : Type ℓ} {B : Type κ} → (A → Outcome B) → List A → Outcome (List B)
traverse f [] = ok []
traverse f (x ∷ xs) = do y ← f x; ys ← traverse f xs; ok (y ∷ ys)

-- `list(map(f, xs))`. A StopIteration that escapes from `f` ends the iterator, and `list` takes that
-- for the end of the items.
unfoldable pub list_map {ℓ κ} :
    {A : Type ℓ} {B : Type κ} → (A → Outcome B) → List A → Outcome (List B)
list_map f [] = ok []
list_map f (x ∷ xs) =
    let rest = list_map f xs in
    elim (f x) [
      | ok y ↦ rest >>= λ ys. ok (y ∷ ys)
      | raised stop_iteration ↦ ok []
      | raised e ↦ raised e
    ]

-- A method on an object of type `S`. What it wrote before an exception stays written.
abbrev pub Method : Type 0 → Type 0 → Type 0
Method S A = S → Outcome A × S

pub Outcome-cases {ℓ} :
    {A : Type ℓ} (m : Outcome A) → ((a : A) × (m ≡ ok a)) ⊎ ((e : Exception) × (m ≡ raised e))
Outcome-cases (ok a) = inl (a, refl)
Outcome-cases (raised e) = inr (e, refl)

-- A chain that succeeded had a first value, from which the rest went on.
pub >>=-eq-ok {ℓ μ} :
    {X : Type ℓ} {Y : Type μ} (first : Outcome X) (next : X → Outcome Y) {y : Y}
    → (first >>= next) ≡ ok y
    → (x : X) × (first ≡ ok x) × (next x ≡ ok y)
>>=-eq-ok (raised exn) next done = cc
>>=-eq-ok (ok x) next done = (x, refl, done)

pub ok-false≢true : ok false ≡ ok true → ⊥
ok-false≢true h = cc

module _ {ℓ} {A : Type ℓ} where
  abbrev get_ok : A → Outcome A → A
  get_ok a (ok b) = b
  get_ok a (raised e) = a

  pub ok-injective : {a b : A} → ok a ≡ ok b → a ≡ b
  ok-injective {a} h = ap (get_ok a) h

  pub raised_ne_ok : {e : Exception} {a : A} → raised e ≡ ok a → ⊥
  raised_ne_ok h = cc

-- No `while` loop was cut short.
abbrev pub Halts {ℓ} : {A : Type ℓ} → Outcome A → Type ℓ
Halts {A} m = ¬ (m ≡ raised out_of_fuel)

pub >>=-Halts {ℓ κ} :
    {A : Type ℓ} {B : Type κ} (m : Outcome A) (f : A → Outcome B)
    → Halts m
    → ((a : A) → Halts (f a))
    → Halts (m >>= f)
>>=-Halts (ok a) f hm hf = hf a
>>=-Halts (raised e) f hm hf = λ h. hm (cc)

pub traverse-Halts {ℓ κ} :
    {A : Type ℓ} {B : Type κ} (f : A → Outcome B) (xs : List A)
    → ((a : A) → Halts (f a))
    → Halts (traverse f xs)
unfolding traverse
traverse-Halts f [] h = λ e. cc
traverse-Halts f (x ∷ xs) h =
    >>=-Halts (f x) _ (h x) λ y. >>=-Halts (traverse f xs) _ (traverse-Halts f xs h) λ ys e. cc

pub or_raise-Halts {ℓ} :
    {A : Type ℓ} (o : Option A) (e : Exception) → e ≢ out_of_fuel → Halts (or_raise o e)
or_raise-Halts none e h = ground arith
or_raise-Halts (some a) e h = λ q. cc

pub or_raise-eq-ok {ℓ} :
    {A : Type ℓ} (o : Option A) (e : Exception) {a : A} → or_raise o e ≡ ok a → o ≡ some a
or_raise-eq-ok none e h = cc
or_raise-eq-ok (some b) e h = ap some (ok-injective h)

-- The same, where the rest of the chain ends for the value that came.
pub >>=-Halts_at {ℓ κ} :
    {A : Type ℓ} {B : Type κ} (m : Outcome A) (f : A → Outcome B)
    → Halts m
    → ((a : A) → m ≡ ok a → Halts (f a))
    → Halts (m >>= f)
>>=-Halts_at (ok a) f hm hf = hf a refl
>>=-Halts_at (raised e) f hm hf = λ h. hm (cc)
