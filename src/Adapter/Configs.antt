-- ===== src/Adapter/Configs.antt =====
-- optimizer/adapter.py: configurations of the nodes, and the choice among those of the optimizer.
pub mod Choice
use ipa_arman.Prelude.{
  ℕ, suc, ◌+◌, String, Bool, true, false, not, List, [], ◌∷◌, ◌==◌, leb, if◌then◌else◌, str_eq,
  value_error, index_error, key_error, Outcome, ok, raised, ◌>>=◌, or_raise, traverse, get_elem?,
  Dict, lookup, insert, map, some, none, Option, Conversions,
}
use ipa_arman.Optimizer.Rows.{State, TaskConfig}

-- A value under a knob: an int, a double or a string.
pub data Knob (F : Type 0) : Type 0 where
  count : ℕ → Knob F
  number : F → Knob F
  text : String → Knob F

pub record NodeConfig (F : Type 0) : Type 0 where
  pub cpu : Knob F
  pub replicas : ℕ
  pub batch : Knob F
  pub variant : String

-- By the names of the nodes.
abbrev pub Config : Type 0 → Type 0
Config F = Dict String (NodeConfig F)

pub record Metrics (F : Type 0) : Type 0 where
  pub latency : F
  pub accuracy : F
  pub throughput : F

-- `max` of the scores: the smallest penalty.
unfoldable pub best_penalty : ℕ → List ℕ → ℕ
best_penalty n [] = n
best_penalty n (m ∷ ms) = best_penalty (if leb n m then n else m) ms

-- `scores.index(best)`
unfoldable pub index_of : ℕ → List ℕ → Outcome ℕ
index_of n [] = raised value_error
index_of n (m ∷ ms) = if m == n then ok 0 else (index_of n ms >>= λ i. ok (suc i))

-- `scores.index(max(scores))`; `max` of no score raises.
unfoldable pub best_index : List ℕ → Outcome ℕ
best_index [] = raised value_error
best_index (n ∷ ns) = index_of (best_penalty n ns) (n ∷ ns)

module _ {F : Type 0} where
  -- The columns of the task `k` and of those behind it, under the names of their nodes.
  unfoldable pub parse_tasks : List String → List (TaskConfig F) → Config F → Outcome (Config F)
  parse_tasks [] columns config = ok config
  parse_tasks (name ∷ names) [] config = raised key_error
  parse_tasks (name ∷ names) (t ∷ columns) config = parse_tasks names columns (
      insert str_eq name
        (record {
          cpu = number t.cpu;
          replicas = t.replicas;
          batch = count t.batch;
          variant = t.variant;
        })
        config)

  unfoldable pub output_parser : List String → List (State F) → Outcome (List (Config F))
  output_parser node_names rows =
      traverse (λ (row : State F). parse_tasks node_names row.configs []) rows

  module _ (texts : Conversions F) where
    unfoldable pub str_of : Knob F → String
    str_of (count n) = texts.str_int n
    str_of (number x) = texts.str_double x
    str_of (text s) = s

    -- `str(value) != current`: a string is never equal to a number.
    unfoldable pub differs : Knob F → Knob F → Bool
    differs value (text s) = not (str_eq (str_of value) s)
    differs value _ = true

    -- How many of its two knobs differ from those of the node in the current configuration.
    unfoldable pub node_penalty : NodeConfig F → NodeConfig F → ℕ
    node_penalty new current =
        (if str_eq new.variant current.variant then 0 else 1)
        + (if differs new.batch current.batch then 1 else 0)

    -- `new_config_score`, without its sign.
    unfoldable pub penalty : Config F → Config F → Outcome ℕ
    penalty [] current = ok 0
    penalty ((name, new) ∷ config) current = do
      node ← or_raise (lookup str_eq name current) key_error
      rest ← penalty config current
      ok (node_penalty new node + rest)

    -- The configuration that changes the least, the first of these.
    unfoldable pub choose_closest : List (Config F) → Config F → Outcome (Config F)
    choose_closest news current = do
      scores ← traverse (λ new. penalty new current) news
      i ← best_index scores
      or_raise (get_elem? news i) index_error

-- What a report adds to a node, where the node is among those of the adapter.
pub record SavedNode (F : Type 0) : Type 0 where
  pub node : NodeConfig F
  pub metrics : Option (Metrics F)

module _ {F : Type 0} where
  -- The loop over the nodes, with what is left of the three lists.
  unfoldable pub save_nodes :
      List String
      → List F
      → List F
      → List F
      → Dict String (SavedNode F)
      → Outcome (Dict String (SavedNode F))
  save_nodes [] ls as_ xs saved = ok saved
  save_nodes (name ∷ names) (l ∷ ls) (a ∷ as_) (x ∷ xs) saved = do
    entry ← or_raise (lookup str_eq name saved) key_error
    let metrics : Metrics F = record { latency = l; accuracy = a; throughput = x }
    save_nodes names ls as_ xs
        (insert str_eq name (record { node = entry.node; metrics = some metrics }) saved)
  save_nodes (name ∷ names) [] as_ xs saved = raised index_error
  save_nodes (name ∷ names) (l ∷ ls) as_ xs saved =
      or_raise (lookup str_eq name saved) key_error >>= λ entry. raised index_error

  unfoldable pub saving_config_builder :
      Config F → List String → List F → List F → List F → Outcome (Dict String (SavedNode F))
  saving_config_builder config node_orders ls as_ xs =
      save_nodes node_orders ls as_ xs
        (map (λ (e : String × NodeConfig F). (e.0, record { node = e.1; metrics = none })) config)
