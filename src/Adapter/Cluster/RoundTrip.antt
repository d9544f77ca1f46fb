-- ===== src/Adapter/Cluster/RoundTrip.antt =====
-- optimizer/adapter.py: the configuration that `change_node_config` leaves in the cluster.
use mathlib.Core.Path.{subst}
use ipa_arman.Prelude.{
  ℕ, String, ◌≡◌, refl, sym, ◌∙◌, ap, true, some, Option, inl, inr, Outcome-cases, ok, >>=-eq-ok,
  ok-injective, Conversions, ReadsBack,
}
use ipa_arman.Adapter.Configs.{NodeConfig, count, text, str_of}
use ipa_arman.Adapter.Cluster.{
  Deployment, Kube, Nodes, Locals, queue_of, read_env, read_queue_env, changed_node, changed_queue,
  extract_node, replace_both, retry, changed_bodies, change_node_config,
}
use ipa_arman.Adapter.Cluster.Environment.{read_queue_env-batch, last_value-set_env}
use ipa_arman.Adapter.Cluster.Stored.{
  Persists, retry-true, replace_both-stored, plan, node_env-variant, changed_node-env, Has,
}

module _ {F : Type 0} (texts : Conversions F) (back : ReadsBack texts) {K : Type 0}
    (kube : Kube K) where
  open back use {parse_int-str_int}

  -- What the bodies of a change hold, with a central queue.
  changed_bodies-central :
      (a : Nodes) (name : String) (c : NodeConfig F) (k : K)
      {bodies : Deployment × Option Deployment}
      → a.central_queue ≡ true
      → changed_bodies texts kube a name c k ≡ ok bodies
      → (d : Deployment) × (q : Deployment) × (kube.get name k ≡ ok d)
        × (kube.get (queue_of name) k ≡ ok q)
        × (changed_node texts a name c d ≡ ok bodies.0)
        × (bodies.1 ≡ some (changed_queue texts c q))
  unfolding changed_bodies
  changed_bodies-central a name c k {bodies} central h =
      let (d, gd, h1) = >>=-eq-ok (kube.get name k) _ h in
      let (d', made, h2) = >>=-eq-ok (changed_node texts a name c d) _ h1 in
      let (q, gq, h3) = >>=-eq-ok (kube.get (queue_of name) k) _ (rw central at h2) in
      let e = ok-injective h3 in
      (
        d,
        q,
        gd,
        gq,
        subst (λ x. changed_node texts a name c d ≡ ok x)
            (ap (λ (b : Deployment × Option Deployment). b.0) e) made,
        ap (λ (b : Deployment × Option Deployment). b.1) (sym e),
      )

  -- Reading a node with a central queue.
  extract_node-central :
      (a : Nodes) (name : String) (k : K) (l : Locals) (d q : Deployment) (cpu : ℕ)
      (variant batch : String)
      → a.central_queue ≡ true
      → kube.get name k ≡ ok d
      → kube.get (queue_of name) k ≡ ok q
      → texts.parse_int d.cpu_request ≡ ok cpu
      → (read_env d.env l).variant ≡ some variant
      → (read_queue_env q.env (read_env d.env l)).batch ≡ some batch
      → extract_node texts kube a k name l
        ≡ ok (
          record { cpu = count cpu; replicas = d.replicas; batch = text batch; variant = variant },
          read_queue_env q.env (read_env d.env l),
        )
  unfolding extract_node read_queue_env read_env
  extract_node-central a name k l d q cpu variant batch central gd gq parsed ev eb =
      rw (extract_node, gd, parsed, ev, central, gq, eb) refl

  -- Where success is reported, the bodies of the last pass are what the cluster holds.
  change_node_config-central :
      (laws : Persists kube) (a : Nodes) (name : String) (c : NodeConfig F) (k : K)
      → a.central_queue ≡ true
      → (change_node_config texts kube a name c k).0 ≡ ok true
      → (d : Deployment) × (q : Deployment) × (d' : Deployment) × (kube.get name k ≡ ok d)
        × (kube.get (queue_of name) k ≡ ok q)
        × (changed_node texts a name c d ≡ ok d')
        × (kube.get name (change_node_config texts kube a name c k).1 ≡ ok d')
        × (kube.get (queue_of name) (change_node_config texts kube a name c k).1
            ≡ ok (changed_queue texts c q))
  unfolding change_node_config
  change_node_config-central laws a name c k central h =
      elim (Outcome-cases (changed_bodies texts kube a name c k)) [
        | inr (e, g) ↦ let h1 = rw (g, change_node_config) at h in cc
        | inl (bodies, g) ↦
            let (d, q, gd, gq, made, queued) = changed_bodies-central a name c k central g in
            let done : (retry kube 3 name bodies.0 bodies.1 k).0 ≡ ok true =
              rw (g, change_node_config) at h in
            let (k0, passed, last) = retry-true kube 3 name bodies.0 bodies.1 k done in
            let whole : (change_node_config texts kube a name c k).1
                ≡ (replace_both kube name bodies.0 bodies.1 k0).1 =
              rw (g, change_node_config) last in
            let moved = whole ∙ ap (λ x. (replace_both kube name bodies.0 x k0).1) queued in
            let (at_node, at_queue) =
              replace_both-stored kube laws name bodies.0 (changed_queue texts c q) k0
                (subst (λ x. (replace_both kube name bodies.0 x k0).0 ≡ ok tt) queued passed) in
            (
              d,
              q,
              bodies.0,
              gd,
              gq,
              made,
              ap (kube.get name) moved ∙ at_node,
              ap (kube.get (queue_of name)) moved ∙ at_queue,
            )
      ]

  -- With a central queue: when `change_node_config` reports success, `extract_current_config` reads
  -- back the number of replicas, the CPU as a whole number, the variant and the batch size that were asked for, if the
  -- API stores what it accepts and the environments name the two variables.
  pub change_node_config-extract_node :
      (laws : Persists kube) (a : Nodes) (name : String) (cpu replicas batch : ℕ) (variant : String)
      (k : K) (l : Locals)
      → a.central_queue ≡ true
      → Has kube k name "MODEL_VARIANT"
      → Has kube k (queue_of name) "MLSERVER_MODEL_MAX_BATCH_SIZE"
      → (change_node_config texts kube a name (plan cpu replicas batch variant) k).0 ≡ ok true
      → (l' : Locals) × (extract_node texts kube a
            (change_node_config texts kube a name (plan cpu replicas batch variant) k).1
            name
            l
          ≡ ok (
            record {
              cpu = count cpu;
              replicas = replicas;
              batch = text (texts.str_int batch);
              variant = variant;
            },
            l',
          ))
  unfolding changed_queue str_of
  change_node_config-extract_node laws a name cpu replicas batch variant k l central hv hb h =
      let c = plan cpu replicas batch variant in
      let k' = (change_node_config texts kube a name c k).1 in
      let (d, q, d', gd, gq, made, at_node, at_queue) =
        change_node_config-central laws a name c k central h in
      let (env, replicas_kept, cpu_kept) = changed_node-env texts a name c d made in
      let l1 = read_env d'.env l in
      let variant_read : l1.variant ≡ some variant =
        ap (λ e. (read_env e l).variant) env ∙ node_env-variant texts variant d.env l (hv d gd) in
      let batch_read =
        read_queue_env-batch (changed_queue texts c q).env l1
        ∙ last_value-set_env "MLSERVER_MODEL_MAX_BATCH_SIZE" (texts.str_int batch) q.env l1.batch
            (hb q gq) in
      let found =
        extract_node-central a name k' l d' (changed_queue texts c q) cpu variant
          (texts.str_int batch) central at_node at_queue
          (ap texts.parse_int cpu_kept ∙ parse_int-str_int cpu) variant_read batch_read in
      (
        read_queue_env (changed_queue texts c q).env l1,
        found
            ∙ ap (λ n. ok (shown n, read_queue_env (changed_queue texts c q).env l1)) replicas_kept,
      )
    where
      shown : ℕ → NodeConfig F
      shown n = record {
        cpu = count cpu;
        replicas = n;
        batch = text (texts.str_int batch);
        variant = variant;
      }
