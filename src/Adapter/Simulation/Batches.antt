-- ===== src/Adapter/Simulation/Batches.antt =====
-- optimizer/sim_adapter.py: the batch sizes of the old configuration and the choice.
use ipa_arman.Prelude.{
  ℕ, ◌+◌, String, ◌≡◌, refl, sym, ◌∙◌, ap, true, List, [], ◌∷◌, str_eq, key_error, Outcome, ok,
  raised, ◌>>=◌, or_raise, some, traverse, lookup, All, Bool-cases, inl, inr, Conversions,
}
use ipa_arman.Adapter.Configs.{
  Config, NodeConfig, Knob, count, differs, node_penalty, penalty, choose_closest,
}
use ipa_arman.Adapter.Simulation.{choose_new}

-- A chain with the work of its first step done apart.
split :
    {A : Type 0} (m : Outcome A) (g : A → ℕ) (rest : Outcome ℕ)
    → (m >>= λ a. rest >>= λ y. ok (g a + y))
      ≡ ((m >>= λ a. ok (g a)) >>= λ x. rest >>= λ y. ok (x + y))
split (ok a) g rest = refl
split (raised e) g rest = refl

module _ {F : Type 0} where
  -- A node whose batch size is a number.
  abbrev pub IsCounted : (String × NodeConfig F) → Type 0
  IsCounted e = (n : ℕ) × (e.1.batch ≡ count n)

  -- The same configuration with the batch sizes `f`.
  abbrev pub with_batches : (String → ℕ) → Config F → Config F
  with_batches f [] = []
  with_batches f ((name, c) ∷ config) =
      (name, record c { batch = count (f name) }) ∷ with_batches f config

  module _ (texts : Conversions F) where
    differs-counted : (new old : Knob F) {n : ℕ} → old ≡ count n → differs texts new old ≡ true
    unfolding differs
    differs-counted new old h = rw (h, differs) refl

    node_penalty-counted :
        (new old : NodeConfig F) (n m : ℕ)
        → old.batch ≡ count n
        → node_penalty texts new old ≡ node_penalty texts new (record old { batch = count m })
    unfolding node_penalty differs
    node_penalty-counted new old n m h =
        let d = differs-counted new.batch old.batch h in rw (node_penalty, d) refl

    -- Looking a node up, before and after.
    lookup-penalty :
        (f : String → ℕ) (name : String) (new : NodeConfig F) (config : Config F)
        → All IsCounted config
        → (or_raise (lookup str_eq name config) key_error >>= λ node.
            ok (node_penalty texts new node))
          ≡ (or_raise (lookup str_eq name (with_batches f config)) key_error >>= λ node.
              ok (node_penalty texts new node))
    unfolding lookup
    lookup-penalty f name new [] h = refl
    lookup-penalty f name new ((key, c) ∷ config) ((n, e), h) =
        elim (Bool-cases (str_eq key name)) [
          | inl here ↦ rw here (ap ok (node_penalty-counted new c n (f key) e))
          | inr away ↦ rw away (lookup-penalty f name new config h)
        ]

    penalty-counted :
        (f : String → ℕ) (new current : Config F)
        → All IsCounted current
        → penalty texts new current ≡ penalty texts new (with_batches f current)
    unfolding penalty
    penalty-counted f [] current h = refl
    penalty-counted f ((name, c) ∷ new) current h =
        let before = or_raise (lookup str_eq name current) key_error in
        let after = or_raise (lookup str_eq name (with_batches f current)) key_error in
        split before (node_penalty texts c) (penalty texts new current)
        ∙ ap (λ p. p >>= λ x. penalty texts new current >>= λ y. ok (x + y))
            (lookup-penalty f name c current h)
        ∙ ap
            (λ q. (after >>= λ node. ok (node_penalty texts c node)) >>= λ x. q >>= λ y. ok (x + y))
            (penalty-counted f new current h)
        ∙ sym (split after (node_penalty texts c) (penalty texts new (with_batches f current)))

    traverse-penalty :
        (f : String → ℕ) (news : List (Config F)) (current : Config F)
        → All IsCounted current
        → traverse (λ new. penalty texts new current) news
          ≡ traverse (λ new. penalty texts new (with_batches f current)) news
    unfolding traverse
    traverse-penalty f [] current h = refl
    traverse-penalty f (new ∷ news) current h =
        rw (penalty-counted f new current h, traverse-penalty f news current h) refl

    -- Where the batch sizes of the old configuration are numbers, as those of the simulation are
    -- after its first pass, the choice does not depend on them: with any other numbers in their place
    -- `choose_config` returns the same.
    pub choose_new-batches :
        (f : String → ℕ) (news : List (Config F)) (current : Config F)
        → All IsCounted current
        → choose_new texts news (some current)
          ≡ choose_new texts news (some (with_batches f current))
    unfolding choose_new choose_closest
    choose_new-batches f news current h = rw (traverse-penalty f news current h) refl
