-- ===== src/Adapter/Cluster/Stored.antt =====
-- optimizer/adapter.py: what the cluster holds after the retries of `change_node_config`, and the
-- bodies that it writes.
use ipa_arman.Prelude.{
  ℕ, zero, suc, String, ◌≡◌, ◌≢◌, refl, sym, ◌∙◌, ap, true, List, some, none, Option, inl, inr,
  Outcome-cases, ok, api_exception, >>=-eq-ok, ok-injective, Conversions,
}
use ipa_arman.Adapter.Configs.{NodeConfig, count, str_of}
use ipa_arman.Adapter.Cluster.{
  Deployment, Kube, Nodes, Locals, queue_of, read_env, set_env, changed_node, replace_both, retry,
  change_init,
}
use ipa_arman.Adapter.Cluster.Environment.{
  mentions, read_env-variant, read_env-batch, last_value-set_env, last_value-set_env_other,
  mentions-set_env, queue_of-apart,
}

module _ {K : Type 0} (kube : Kube K) where
  -- Documented behaviour of the API: what was stored is read, and no other deployment changes.
  pub record Persists : Type 0 where
    pub stored :
        (name : String) (d : Deployment) (k : K)
        → (kube.replace name d k).0 ≡ ok tt
        → kube.get name (kube.replace name d k).1 ≡ ok d
    pub others :
        (name other : String) (d : Deployment) (k : K)
        → other ≢ name
        → kube.get other (kube.replace name d k).1 ≡ kube.get other k

  -- A retry that reports success ends with a pass that raised nothing.
  pub retry-true :
      (n : ℕ) (name : String) (d : Deployment) (q : Option Deployment) (k : K)
      → (retry kube n name d q k).0 ≡ ok true
      → (k0 : K) × ((replace_both kube name d q k0).0 ≡ ok tt)
        × ((retry kube n name d q k).1 ≡ (replace_both kube name d q k0).1)
  unfolding retry
  retry-true zero name d q k h = cc
  retry-true (suc n) name d q k h = elim (Outcome-cases (replace_both kube name d q k).0) [
    | inl (_, g) ↦ (k, g, rw (g, retry) refl)
    | inr (api_exception, g) ↦
        rw (g, retry) (retry-true n name d q (replace_both kube name d q k).1 (rw (g, retry) at h))
    | inr (e, g) ↦ let h1 = rw (g, retry) at h in cc
  ]

  module _ (laws : Persists) where
    open laws use {stored, others}

    -- Both deployments are what a pass without an exception wrote.
    pub replace_both-stored :
        (name : String) (d q : Deployment) (k : K)
        → (replace_both kube name d (some q) k).0 ≡ ok tt
        → (kube.get name (replace_both kube name d (some q) k).1 ≡ ok d)
          × (kube.get (queue_of name) (replace_both kube name d (some q) k).1 ≡ ok q)
    unfolding replace_both
    replace_both-stored name d q k h = elim (Outcome-cases (kube.replace name d k).0) [
      | inr (e, g) ↦ let h1 = rw (g, replace_both) at h in cc
      | inl (_, g) ↦
          let second : (kube.replace (queue_of name) q (kube.replace name d k).1).0 ≡ ok tt =
            rw (g, replace_both) at h in
          let kept =
            others (queue_of name) name q (kube.replace name d k).1
              (λ e. queue_of-apart name (sym e)) in
          (
            rw (g, replace_both) (kept ∙ stored name d k g),
            rw (g, replace_both) (stored (queue_of name) q (kube.replace name d k).1 second),
          )
    ]

    pub replace_alone-stored :
        (name : String) (d : Deployment) (k : K)
        → (replace_both kube name d none k).0 ≡ ok tt
        → kube.get name (replace_both kube name d none k).1 ≡ ok d
    unfolding replace_both
    replace_alone-stored name d k h = elim (Outcome-cases (kube.replace name d k).0) [
      | inr (e, g) ↦ let h1 = rw (g, replace_both) at h in cc
      | inl (_, g) ↦ rw (g, replace_both) (stored name d k g)
    ]

-- A configuration of numbers, as the optimizer's are.
abbrev pub plan : {F : Type 0} → ℕ → ℕ → ℕ → String → NodeConfig F
plan cpu replicas batch variant = record {
  cpu = count cpu;
  replicas = replicas;
  batch = count batch;
  variant = variant;
}

-- Each deployment of the name, as it is before the change, has the variable in its environment.
abbrev pub Has : {K : Type 0} → Kube K → K → String → String → Type 0
Has kube k name key = (d : Deployment) → kube.get name k ≡ ok d → mentions key d.env ≡ true

module _ {F : Type 0} (texts : Conversions F) where
  -- The environment that `changed_node` writes.
  abbrev pub node_env : String → List (String × String) → List (String × String)
  node_env variant env =
      set_env "MLSERVER_MODEL_MAX_BATCH_SIZE" (texts.str_int 1)
        (set_env "MODEL_VARIANT" variant env)

  pub node_env-variant :
      (variant : String) (env : List (String × String)) (l : Locals)
      → mentions "MODEL_VARIANT" env ≡ true
      → (read_env (node_env variant env) l).variant ≡ some variant
  node_env-variant variant env l has =
      read_env-variant (node_env variant env) l
      ∙ last_value-set_env_other "MODEL_VARIANT" "MLSERVER_MODEL_MAX_BATCH_SIZE" (texts.str_int 1)
          (set_env "MODEL_VARIANT" variant env) l.variant (λ e. cc)
      ∙ last_value-set_env "MODEL_VARIANT" variant env l.variant has

  pub node_env-batch :
      (variant : String) (env : List (String × String)) (l : Locals)
      → mentions "MLSERVER_MODEL_MAX_BATCH_SIZE" env ≡ true
      → (read_env (node_env variant env) l).batch ≡ some (texts.str_int 1)
  node_env-batch variant env l has =
      read_env-batch (node_env variant env) l
      ∙ last_value-set_env "MLSERVER_MODEL_MAX_BATCH_SIZE" (texts.str_int 1)
          (set_env "MODEL_VARIANT" variant env) l.batch
          (mentions-set_env "MLSERVER_MODEL_MAX_BATCH_SIZE" "MODEL_VARIANT" variant env ∙ has)

  pub changed_node-env :
      (a : Nodes) (name : String) (c : NodeConfig F) (d : Deployment) {d' : Deployment}
      → changed_node texts a name c d ≡ ok d'
      → (d'.env ≡ node_env c.variant d.env)
        × (d'.replicas ≡ c.replicas)
        × (d'.cpu_request ≡ str_of texts c.cpu)
  unfolding changed_node
  changed_node-env a name c d {d'} h =
      let (args, _, e) = >>=-eq-ok (change_init a name c.variant d.env d.init_args) _ h in
      let made = ok-injective e in
      (
        ap (λ (x : Deployment). x.env) (sym made),
        ap (λ (x : Deployment). x.replicas) (sym made),
        ap (λ (x : Deployment). x.cpu_request) (sym made),
      )
