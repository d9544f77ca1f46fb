-- ===== src/Optimizer/States/Product.antt =====
-- optimizer/optimizer.py: the combinations that `all_states` tries.
use mathlib.Core.Path.{subst}
use ipa_arman.Prelude.{
  ℕ, String, ◌≡◌, ◌↔◌, ◌⊎◌, refl, sym, ap, Bool, true, false, List, ◌∷◌, [], ◌++◌, map, inl, inr,
  str_eq, if◌then◌else◌, for_each, Listed, Empty,
}
use ipa_arman.Models.Profile.{ResourceAllocation}
use ipa_arman.Optimizer.States.{product, Knobs, Combination, all_combinations}

module _ {ℓ} {A : Type ℓ} where
  Listed-append-left : (a : A) (xs ys : List A) → Listed a xs → Listed a (xs ++ ys)
  Listed-append-left a [] ys m = elim m [ ]
  Listed-append-left a (x ∷ xs) ys (inl e) = inl e
  Listed-append-left a (x ∷ xs) ys (inr m) = inr (Listed-append-left a xs ys m)

  Listed-append-right : (a : A) (xs ys : List A) → Listed a ys → Listed a (xs ++ ys)
  Listed-append-right a [] ys m = m
  Listed-append-right a (x ∷ xs) ys m = inr (Listed-append-right a xs ys m)

  Listed-append : (a : A) (xs ys : List A) → Listed a (xs ++ ys) → Listed a xs ⊎ Listed a ys
  Listed-append a [] ys m = inr m
  Listed-append a (x ∷ xs) ys (inl e) = inl (inl e)
  Listed-append a (x ∷ xs) ys (inr m) = elim (Listed-append a xs ys m) [
    | inl l ↦ inl (inr l)
    | inr l ↦ inr l
  ]

module _ {ℓ κ} {A : Type ℓ} {B : Type κ} where
  Listed-map : (f : A → B) (a : A) (xs : List A) → Listed a xs → Listed (f a) (map f xs)
  Listed-map f a [] m = elim m [ ]
  Listed-map f a (x ∷ xs) (inl e) = inl (ap f e)
  Listed-map f a (x ∷ xs) (inr m) = inr (Listed-map f a xs m)

  Listed-map_inv :
      (f : A → B) (b : B) (xs : List A) → Listed b (map f xs) → (a : A) × Listed a xs × (f a ≡ b)
  Listed-map_inv f b [] m = elim m [ ]
  Listed-map_inv f b (x ∷ xs) (inl e) = (x, inl refl, e)
  Listed-map_inv f b (x ∷ xs) (inr m) = let (a, l, e) = Listed-map_inv f b xs m in (a, inr l, e)

  Listed-for_each :
      (f : A → List B) (a : A) (b : B) (xs : List A)
      → Listed a xs
      → Listed b (f a)
      → Listed b (for_each f xs)
  unfolding for_each
  Listed-for_each f a b [] m l = elim m [ ]
  Listed-for_each f a b (x ∷ xs) (inl e) l =
      Listed-append-left b (f x) _ (subst (λ z. Listed b (f z)) (sym e) l)
  Listed-for_each f a b (x ∷ xs) (inr m) l =
      Listed-append-right b (f x) _ (Listed-for_each f a b xs m l)

  Listed-for_each_inv :
      (f : A → List B) (b : B) (xs : List A)
      → Listed b (for_each f xs)
      → (a : A) × Listed a xs × Listed b (f a)
  unfolding for_each
  Listed-for_each_inv f b [] m = elim m [ ]
  Listed-for_each_inv f b (x ∷ xs) m = elim (Listed-append b (f x) (for_each f xs) m) [
    | inl l ↦ (x, inl refl, l)
    | inr l ↦ let (a, k, e) = Listed-for_each_inv f b xs l in (a, inr k, e)
  ]

-- A tuple that takes its items from the lists, in order.
abbrev pub Picks {ℓ} : {A : Type ℓ} → List A → List (List A) → Type ℓ
Picks [] [] = Unit
Picks [] (xs ∷ xss) = Empty
Picks (y ∷ ys) [] = Empty
Picks (y ∷ ys) (xs ∷ xss) = Listed y xs × Picks ys xss

module _ {ℓ} {A : Type ℓ} where
  product-Picks : (ys : List A) (xss : List (List A)) → Listed ys (product xss) → Picks ys xss
  unfolding product
  product-Picks ys [] m = elim m [ inl e ↦ subst (λ w. Picks w []) e tt | inr z ↦ elim z [ ] ]
  product-Picks ys (xs ∷ xss) m =
      let (x, l, k) = Listed-for_each_inv (λ x. map (λ zs. x ∷ zs) (product xss)) ys xs m in
      let (zs, lz, e) = Listed-map_inv (λ zs. x ∷ zs) ys (product xss) k in
      subst (λ w. Picks w (xs ∷ xss)) e (l, product-Picks zs xss lz)

  Picks-product : (ys : List A) (xss : List (List A)) → Picks ys xss → Listed ys (product xss)
  unfolding product
  Picks-product [] [] h = inl refl
  Picks-product [] (xs ∷ xss) h = elim h [ ]
  Picks-product (y ∷ ys) [] h = elim h [ ]
  Picks-product (y ∷ ys) (xs ∷ xss) (l, h) =
      Listed-for_each (λ x. map (λ zs. x ∷ zs) (product xss)) y (y ∷ ys) xs l
        (Listed-map (λ zs. y ∷ zs) ys (product xss) (Picks-product ys xss h))

module _ {F : Type 0} where
  abbrev variants_of : List (Knobs F) → List (List String)
  variants_of knobs = map (λ (k : Knobs F). k.variants) knobs

  abbrev replicas_of : List (Knobs F) → List (List ℕ)
  replicas_of knobs = map (λ (k : Knobs F). k.replicas) knobs

  abbrev batches_of : List (Knobs F) → List (List ℕ)
  batches_of knobs = map (λ (k : Knobs F). k.batches) knobs

  abbrev allocations_of : List (Knobs F) → List (List (ResourceAllocation F))
  allocations_of knobs = map (λ (k : Knobs F). k.allocations) knobs

  -- For each task one of its variants, of its numbers of replicas, of its batch sizes, and, outside
  -- the mode "base", of its allocations.
  pub record Chooses (base : Bool) (knobs : List (Knobs F)) (c : Combination F) : Type 0 where
    pub variants : Picks c.variants (variants_of knobs)
    pub replicas : Picks c.replicas (replicas_of knobs)
    pub batches : Picks c.batches (batches_of knobs)
    pub allocations :
        if base then (c.allocations ≡ []) else Picks c.allocations (allocations_of knobs)

module _ {F : Type 0} (knobs : List (Knobs F)) where
  -- The last product, by whether the mode is "base".
  abbrev last_product : Bool → List (List (ResourceAllocation F))
  last_product base = if base then [] ∷ [] else product (allocations_of knobs)

  last_product_sound :
      (base : Bool) (as_ : List (ResourceAllocation F))
      → Listed as_ (last_product base)
      → if base then (as_ ≡ []) else Picks as_ (allocations_of knobs)
  last_product_sound true as_ (inl e) = sym e
  last_product_sound true as_ (inr z) = elim z [ ]
  last_product_sound false as_ m = product-Picks as_ (allocations_of knobs) m

  last_product_complete :
      (base : Bool) (as_ : List (ResourceAllocation F))
      → (if base then (as_ ≡ []) else Picks as_ (allocations_of knobs))
      → Listed as_ (last_product base)
  last_product_complete true as_ e = inl (sym e)
  last_product_complete false as_ h = Picks-product as_ (allocations_of knobs) h

  module _ (mode : String) where
    abbrev tuple : List String → List ℕ → List ℕ → List (ResourceAllocation F) → Combination F
    tuple vs rs bs as_ = record { variants = vs; replicas = rs; batches = bs; allocations = as_ }

    abbrev with_batches : List String → List ℕ → List ℕ → List (Combination F)
    with_batches vs rs bs = map (tuple vs rs bs) (last_product (str_eq mode "base"))

    abbrev with_replicas : List String → List ℕ → List (Combination F)
    with_replicas vs rs = for_each (with_batches vs rs) (product (batches_of knobs))

    abbrev with_variants : List String → List (Combination F)
    with_variants vs = for_each (with_replicas vs) (product (replicas_of knobs))

    all_combinations-Chooses :
        (c : Combination F)
        → Listed c (all_combinations mode knobs)
        → Chooses (str_eq mode "base") knobs c
    unfolding all_combinations
    all_combinations-Chooses c m =
        let (vs, lv, m1) = Listed-for_each_inv with_variants c (product (variants_of knobs)) m in
        let (rs, lr, m2) =
          Listed-for_each_inv (with_replicas vs) c (product (replicas_of knobs)) m1 in
        let (bs, lb, m3) =
          Listed-for_each_inv (with_batches vs rs) c (product (batches_of knobs)) m2 in
        let (as_, la, e) =
          Listed-map_inv (tuple vs rs bs) c (last_product (str_eq mode "base")) m3 in
        subst (Chooses (str_eq mode "base") knobs) e (record {
          variants = product-Picks vs (variants_of knobs) lv;
          replicas = product-Picks rs (replicas_of knobs) lr;
          batches = product-Picks bs (batches_of knobs) lb;
          allocations = last_product_sound (str_eq mode "base") as_ la;
        })

    Chooses-all_combinations :
        (c : Combination F)
        → Chooses (str_eq mode "base") knobs c
        → Listed c (all_combinations mode knobs)
    unfolding all_combinations
    Chooses-all_combinations c h =
        Listed-for_each with_variants c.variants c (product (variants_of knobs))
          (Picks-product c.variants (variants_of knobs) h.variants)
          (Listed-for_each (with_replicas c.variants) c.replicas c (product (replicas_of knobs))
            (Picks-product c.replicas (replicas_of knobs) h.replicas)
            (Listed-for_each (with_batches c.variants c.replicas) c.batches c
              (product (batches_of knobs)) (Picks-product c.batches (batches_of knobs) h.batches)
              (Listed-map (tuple c.variants c.replicas c.batches) c.allocations
                (last_product (str_eq mode "base"))
                (last_product_complete (str_eq mode "base") c.allocations h.allocations))))

    -- A combination is tried exactly when it takes, for each task in order, one of its variants, one
    -- of its numbers of replicas, one of its batch sizes, and, outside the mode "base", one of its
    -- allocations.
    pub all_combinations_iff :
        (c : Combination F)
        → Listed c (all_combinations mode knobs) ↔ Chooses (str_eq mode "base") knobs c
    all_combinations_iff c = (all_combinations-Chooses c, Chooses-all_combinations c)
