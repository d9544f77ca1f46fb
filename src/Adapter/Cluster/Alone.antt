-- ===== src/Adapter/Cluster/Alone.antt =====
-- optimizer/adapter.py: what `change_node_config` leaves in the cluster without a central queue.
use mathlib.Core.Path.{subst}
use ipa_arman.Prelude.{
  false, ℕ, String, ◌≡◌, refl, sym, ◌∙◌, ap, true, some, none, Option, inl, inr, Outcome-cases, ok,
  >>=-eq-ok, ok-injective, Conversions, ReadsBack,
}
use ipa_arman.Adapter.Configs.{NodeConfig, count, text, str_of}
use ipa_arman.Adapter.Cluster.{
  Deployment, Kube, Nodes, Locals, read_env, changed_node, extract_node, replace_both, retry,
  changed_bodies, change_node_config,
}
use ipa_arman.Adapter.Cluster.Stored.{
  Persists, retry-true, replace_alone-stored, plan, node_env-variant, node_env-batch,
  changed_node-env, Has,
}

module _ {F : Type 0} (texts : Conversions F) (back : ReadsBack texts) {K : Type 0}
    (kube : Kube K) where
  open back use {parse_int-str_int}

  changed_bodies-alone :
      (a : Nodes) (name : String) (c : NodeConfig F) (k : K)
      {bodies : Deployment × Option Deployment}
      → a.central_queue ≡ false
      → changed_bodies texts kube a name c k ≡ ok bodies
      → (d : Deployment) × (kube.get name k ≡ ok d)
        × (changed_node texts a name c d ≡ ok bodies.0)
        × (bodies.1 ≡ none)
  unfolding changed_bodies
  changed_bodies-alone a name c k {bodies} alone h =
      let (d, gd, h1) = >>=-eq-ok (kube.get name k) _ h in
      let (d', made, h2) = >>=-eq-ok (changed_node texts a name c d) _ h1 in
      let e = ok-injective (rw alone at h2) in
      (
        d,
        gd,
        made ∙ ap (λ (b : Deployment × Option Deployment). ok b.0) e,
        ap (λ (b : Deployment × Option Deployment). b.1) (sym e),
      )

  change_node_config-alone :
      (laws : Persists kube) (a : Nodes) (name : String) (c : NodeConfig F) (k : K)
      → a.central_queue ≡ false
      → (change_node_config texts kube a name c k).0 ≡ ok true
      → (d : Deployment) × (d' : Deployment) × (kube.get name k ≡ ok d)
        × (changed_node texts a name c d ≡ ok d')
        × (kube.get name (change_node_config texts kube a name c k).1 ≡ ok d')
  unfolding change_node_config
  change_node_config-alone laws a name c k alone h =
      elim (Outcome-cases (changed_bodies texts kube a name c k)) [
        | inr (e, g) ↦ let h1 = rw (g, change_node_config) at h in cc
        | inl (bodies, g) ↦
            let (d, gd, made, no_queue) = changed_bodies-alone a name c k alone g in
            let done : (retry kube 3 name bodies.0 bodies.1 k).0 ≡ ok true =
              rw (g, change_node_config) at h in
            let (k0, passed, last) = retry-true kube 3 name bodies.0 bodies.1 k done in
            let whole : (change_node_config texts kube a name c k).1
                ≡ (replace_both kube name bodies.0 bodies.1 k0).1 =
              rw (g, change_node_config) last in
            let moved = whole ∙ ap (λ x. (replace_both kube name bodies.0 x k0).1) no_queue in
            let at_node =
              replace_alone-stored kube laws name bodies.0 k0
                (subst (λ x. (replace_both kube name bodies.0 x k0).0 ≡ ok tt) no_queue passed) in
            (d, bodies.0, gd, made, ap (kube.get name) moved ∙ at_node)
      ]

  extract_node-alone :
      (a : Nodes) (name : String) (k : K) (l : Locals) (d : Deployment) (cpu : ℕ)
      (variant batch : String)
      → a.central_queue ≡ false
      → kube.get name k ≡ ok d
      → texts.parse_int d.cpu_request ≡ ok cpu
      → (read_env d.env l).variant ≡ some variant
      → (read_env d.env l).batch ≡ some batch
      → extract_node texts kube a k name l
        ≡ ok (
          record { cpu = count cpu; replicas = d.replicas; batch = text batch; variant = variant },
          read_env d.env l,
        )
  unfolding extract_node read_env
  extract_node-alone a name k l d cpu variant batch alone gd parsed ev eb =
      rw (extract_node, gd, parsed, ev, alone, eb) refl

  -- Without a central queue the batch size that was asked for is lost: when `change_node_config`
  -- reports success, `extract_current_config` reads the replicas, the CPU as a whole number and the variant that were
  -- asked for and the batch size 1, if the API stores what it accepts and the environment names the
  -- two variables.
  pub change_node_config-alone_extract_node :
      (laws : Persists kube) (a : Nodes) (name : String) (cpu replicas batch : ℕ) (variant : String)
      (k : K) (l : Locals)
      → a.central_queue ≡ false
      → Has kube k name "MODEL_VARIANT"
      → Has kube k name "MLSERVER_MODEL_MAX_BATCH_SIZE"
      → (change_node_config texts kube a name (plan cpu replicas batch variant) k).0 ≡ ok true
      → (l' : Locals) × (extract_node texts kube a
            (change_node_config texts kube a name (plan cpu replicas batch variant) k).1
            name
            l
          ≡ ok (
            record {
              cpu = count cpu;
              replicas = replicas;
              batch = text (texts.str_int 1);
              variant = variant;
            },
            l',
          ))
  unfolding str_of
  change_node_config-alone_extract_node laws a name cpu replicas batch variant k l alone hv hb h =
      let c = plan cpu replicas batch variant in
      let (d, d', gd, made, at_node) = change_node_config-alone laws a name c k alone h in
      let (env, replicas_kept, cpu_kept) = changed_node-env texts a name c d made in
      let found =
        extract_node-alone a name (change_node_config texts kube a name c k).1 l d' cpu variant
          (texts.str_int 1) alone at_node (ap texts.parse_int cpu_kept ∙ parse_int-str_int cpu)
          (ap (λ e. (read_env e l).variant) env ∙ node_env-variant texts variant d.env l (hv d gd))
          (ap (λ e. (read_env e l).batch) env ∙ node_env-batch texts variant d.env l (hb d gd)) in
      (read_env d'.env l, found ∙ ap (λ n. ok (shown n, read_env d'.env l)) replicas_kept)
    where
      shown : ℕ → NodeConfig F
      shown n = record {
        cpu = count cpu;
        replicas = n;
        batch = text (texts.str_int 1);
        variant = variant;
      }
