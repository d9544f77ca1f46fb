-- ===== src/Adapter/Cluster.antt =====
-- optimizer/adapter.py: reading the configuration of the nodes off the cluster, and changing it.
pub mod Environment
pub mod Stored
pub mod RoundTrip
pub mod Alone
use Prim.Native.Char.{code}
use Prim.Native.String.{◌++◌ as text_append}
use ipa_arman.Prelude.{
  ℕ, suc, zero, String, Bool, true, false, not, ◌&&◌, ◌||◌, ◌==◌, List, [], ◌∷◌, map, if◌then◌else◌,
  str_eq, key_error, unbound_local_error, api_exception, Outcome, ok, raised, ◌>>=◌, ◌>>◌, or_raise,
  traverse, Method, Dict, lookup, insert, some, none, Option, Conversions,
}
use ipa_arman.Adapter.Configs.{Knob, count, text, NodeConfig, Config, str_of}

-- What the adapter reads and writes of a SeldonDeployment: of its first component the replicas and,
-- of the first container, the CPU and the environment; `init_args` are the arguments of the first
-- init container, if there is one.
pub record Deployment : Type 0 where
  pub replicas : ℕ
  pub cpu_limit : String
  pub cpu_request : String
  pub env : List (String × String)
  pub init_args : Option (List String)

-- The API of the cluster, on the cluster's state.
pub record Kube (K : Type 0) : Type 0 where
  pub get : String → K → Outcome Deployment
  pub replace : String → Deployment → Method K (Unit {0})

-- The options of an adapter that the two methods read.
pub record Nodes : Type 0 where
  pub node_names : List String
  pub central_queue : Bool
  pub from_storage : Dict String Bool

-- The local variables `variant` and `batch`, which keep their values from one node to the next.
pub record Locals : Type 0 where
  pub variant : Option String
  pub batch : Option String

unfoldable pub queue_of : String → String
queue_of name = text_append "queue-" name

-- The body of the loop over the environment.
unfoldable pub read_variable : String → String → Locals → Locals
read_variable name value l =
    let l1 = if str_eq name "MODEL_VARIANT" then record l { variant = some value } else l in
    if str_eq name "MLSERVER_MODEL_MAX_BATCH_SIZE" then record l1 { batch = some value } else l1

unfoldable pub read_env : List (String × String) → Locals → Locals
read_env [] l = l
read_env ((name, value) ∷ env) l = read_env env (read_variable name value l)

-- The same for the environment of a queue, of which only the batch size is read.
unfoldable pub read_queue_variable : String → String → Locals → Locals
read_queue_variable name value l =
    if str_eq name "MLSERVER_MODEL_MAX_BATCH_SIZE" then record l { batch = some value } else l

unfoldable pub read_queue_env : List (String × String) → Locals → Locals
read_queue_env [] l = l
read_queue_env ((name, value) ∷ env) l = read_queue_env env (read_queue_variable name value l)

-- `deployment["env"][i]["value"] = …` for each entry of a name.
unfoldable pub set_env : String → String → List (String × String) → List (String × String)
set_env key value env =
    map (λ (e : String × String). (e.0, if str_eq e.0 key then value else e.1)) env

unfoldable pub has_slash : String → Bool
has_slash String.[] = false
has_slash (String.◌∷◌ c s) = code c == 47 || has_slash s

unfoldable pub is_empty : String → Bool
is_empty String.[] = true
is_empty (String.◌∷◌ c s) = false

-- `re.sub(r"/([^/]+)$", "/" + variant, model)`
unfoldable pub replace_last : String → String → String
replace_last variant String.[] = String.[]
replace_last variant (String.◌∷◌ c s) =
    let rest = replace_last variant s in
    if code c == 47 && not (has_slash s) && not (is_empty s)
    then String.◌∷◌ c variant
    else String.◌∷◌ c rest

-- What a variable MODEL_VARIANT does to the init container.
unfoldable pub change_args :
    Nodes → String → String → Option (List String) → Outcome (Option (List String))
change_args a name variant args = do
  stored ← or_raise (lookup str_eq name a.from_storage) key_error
  if not stored
      then ok args
      else (or_raise args key_error >>= λ models. ok (
          if str_eq name "yolo" || str_eq name "resnet-human"
          then args
          else some (map (replace_last variant) models)))

-- The loop over the environment, on the init container.
unfoldable pub change_init :
    Nodes
    → String
    → String
    → List (String × String)
    → Option (List String)
    → Outcome (Option (List String))
change_init a name variant [] args = ok args
change_init a name variant ((key, value) ∷ env) args =
    (if str_eq key "MODEL_VARIANT" then change_args a name variant args else ok args) >>= λ changed.
    change_init a name variant env changed

module _ {K : Type 0} (kube : Kube K) where
  -- One pass through the body of the `try`, on the node and, with a central queue, on its queue.
  unfoldable pub replace_both : String → Deployment → Option Deployment → Method K (Unit {0})
  replace_both name d queue k =
      let (first, k1) = kube.replace name d k in
      elim first [
        | raised e ↦ (raised e, k1)
        | ok _ ↦ elim queue [ none ↦ (ok tt, k1) | some q ↦ kube.replace (queue_of name) q k1 ]
      ]

  -- The retries that are left.
  unfoldable pub retry : ℕ → String → Deployment → Option Deployment → Method K Bool
  retry zero name d queue k = (ok false, k)
  retry (suc n) name d queue k =
      let (done, k1) = replace_both name d queue k in
      elim done [
        | ok _ ↦ (ok true, k1)
        | raised api_exception ↦ retry n name d queue k1
        | raised e ↦ (raised e, k1)
      ]

module _ {F : Type 0} (texts : Conversions F) where
  -- The new body of a node. Its own batch size becomes 1.
  unfoldable pub changed_node : Nodes → String → NodeConfig F → Deployment → Outcome Deployment
  changed_node a name c d = do
    args ← change_init a name c.variant d.env d.init_args
    ok (record {
      replicas = c.replicas;
      cpu_limit = str_of texts c.cpu;
      cpu_request = str_of texts c.cpu;
      env =
          set_env "MLSERVER_MODEL_MAX_BATCH_SIZE" (texts.str_int 1)
            (set_env "MODEL_VARIANT" c.variant d.env);
      init_args = args;
    })

  -- The new body of a queue.
  unfoldable pub changed_queue : NodeConfig F → Deployment → Deployment
  changed_queue c d = record d {
    env = set_env "MLSERVER_MODEL_MAX_BATCH_SIZE" (str_of texts c.batch) d.env;
  }

  module _ {K : Type 0} (kube : Kube K) where
    -- The body of the loop over the nodes.
    unfoldable pub extract_node : Nodes → K → String → Locals → Outcome (NodeConfig F × Locals)
    extract_node a k name l = do
      d ← kube.get name k
      cpu ← texts.parse_int d.cpu_request
      let l1 = read_env d.env l
      variant ← or_raise l1.variant unbound_local_error
      l2 ←
          (if a.central_queue
            then (kube.get (queue_of name) k >>= λ q. ok (read_queue_env q.env l1))
            else ok l1)
      batch ← or_raise l2.batch unbound_local_error
      ok (
        record { cpu = count cpu; replicas = d.replicas; batch = text batch; variant = variant },
        l2,
      )

    unfoldable pub extract_nodes : Nodes → K → List String → Locals → Config F → Outcome (Config F)
    extract_nodes a k [] l config = ok config
    extract_nodes a k (name ∷ names) l config = extract_node a k name l >>= λ (node, l').
        extract_nodes a k names l' (insert str_eq name node config)

    unfoldable pub extract_current_config : Nodes → K → Outcome (Config F)
    extract_current_config a k =
        extract_nodes a k a.node_names (record { variant = none; batch = none }) []

    -- The two new bodies.
    unfoldable pub changed_bodies :
        Nodes → String → NodeConfig F → K → Outcome (Deployment × Option Deployment)
    changed_bodies a name c k = do
      d ← kube.get name k
      d' ← changed_node a name c d
      if a.central_queue
          then (kube.get (queue_of name) k >>= λ q. ok (d', some (changed_queue c q)))
          else ok (d', none)

    unfoldable pub change_node_config : Nodes → String → NodeConfig F → Method K Bool
    change_node_config a name c k = elim (changed_bodies a name c k) [
      | raised e ↦ (raised e, k)
      | ok bodies ↦ retry kube 3 name bodies.0 bodies.1 k
    ]

    -- The threads of the executor, one after the other, each run to its end; `list` of the results
    -- raises the first exception.
    unfoldable pub change_nodes : Nodes → Config F → K → List (Outcome Bool) × K
    change_nodes a [] k = ([], k)
    change_nodes a ((name, c) ∷ config) k =
        let (result, k1) = change_node_config a name c k in
        let (results, k2) = change_nodes a config k1 in (result ∷ results, k2)

    unfoldable pub change_pipeline_config : Nodes → Config F → Method K (List Bool)
    change_pipeline_config a config k =
        let (results, k') = change_nodes a config k in (traverse (λ result. result) results, k')
