-- ===== src/Adapter/Tests.antt =====
-- A cluster of two deployments, and the predictions of a sample series.
use mathlib.Core.Path.{subst}
use ipa_arman.Adapter.Cluster.Environment.{mentions}
use ipa_arman.Prelude.{
  ok-injective, ℕ, zero, suc, String, ◌≡◌, ◌≢◌, refl, sym, ◌∙◌, ap, Bool, true, false, List, [],
  ◌∷◌, if◌then◌else◌, str_eq, eq_iff, some, none, inl, inr, Bool-cases, Outcome, ok, raised,
  api_exception, lookup, insert, traverse, ◌/◌, Conversions, ReadsBack,
}
use ipa_arman.Adapter.Configs.{
  Config, NodeConfig, count, number, text, str_of, differs, node_penalty, penalty, best_penalty,
  index_of, best_index, choose_closest,
}
use ipa_arman.Adapter.Configs.Choice.{IsClosest, choose_closest_lem}
use ipa_arman.Adapter.Cluster.{
  Deployment, Kube, Nodes, Locals, queue_of, read_variable, read_env, read_queue_variable,
  read_queue_env, set_env, change_args, change_init, changed_node, changed_queue, extract_node,
  replace_both, retry, changed_bodies, change_node_config, has_slash, is_empty, replace_last,
}
use ipa_arman.Adapter.Cluster.RoundTrip.{change_node_config-extract_node}
use ipa_arman.Adapter.Cluster.Alone.{change_node_config-alone_extract_node}
use ipa_arman.Adapter.Cluster.Stored.{Persists, Has}
use ipa_arman.Samples.{milli}

-- A number as so many strokes.
abbrev tally : ℕ → String
tally zero = String.[]
tally (suc n) = String.◌∷◌ "|" (tally n)

abbrev strokes : String → ℕ
strokes String.[] = 0
strokes (String.◌∷◌ c s) = suc (strokes s)

strokes-tally : (n : ℕ) → strokes (tally n) ≡ n
strokes-tally zero = refl
strokes-tally (suc n) = ap suc (strokes-tally n)

abbrev pub texts : Conversions ℕ
texts = record {
  str_int = tally;
  str_double = tally;
  parse_int = λ s. ok (strokes s);
  truncate = λ x. ok (x / 1000);
  round = λ x. ok (x / 1000);
}

texts-ReadsBack : ReadsBack texts
texts-ReadsBack = record { parse_int-str_int = λ n. ap ok (strokes-tally n) }

abbrev pub Store : Type 0
Store = List (String × Deployment)

abbrev find : String → Store → Outcome Deployment
find name [] = raised api_exception
find name ((other, d) ∷ store) = if str_eq other name then ok d else find name store

abbrev put : String → Deployment → Store → Store
put name d [] = []
put name d ((other, old) ∷ store) =
    if str_eq other name then (other, d) ∷ store else (other, old) ∷ put name d store

abbrev has : String → Store → Bool
has name [] = false
has name ((other, d) ∷ store) = if str_eq other name then true else has name store

-- An API that stores what it is given under a name that exists.
abbrev pub kube : Kube Store
kube = record {
  get = find;
  replace = λ name d store.
      if has name store then (ok tt, put name d store) else (raised api_exception, store);
}

find-put :
    (name : String) (d : Deployment) (store : Store)
    → has name store ≡ true
    → find name (put name d store) ≡ ok d
find-put name d [] h = cc
find-put name d ((other, old) ∷ store) h = elim (Bool-cases (str_eq other name)) [
  | inl same ↦ rw (same, same) refl
  | inr apart ↦ rw (apart, apart) (find-put name d store (rw apart at h))
]

find-put_other :
    (name other : String) (d : Deployment) (store : Store)
    → other ≢ name
    → find other (put name d store) ≡ find other store
find-put_other name other d [] apart = refl
find-put_other name other d ((key, old) ∷ store) apart = elim (Bool-cases (str_eq key name)) [
  | inl replaced ↦ elim (Bool-cases (str_eq key other)) [
    | inl both ↦ absurd (apart (sym ((eq_iff key other).0 both) ∙ (eq_iff key name).0 replaced))
    | inr away ↦ rw (replaced, away) refl
  ]
  | inr kept ↦ elim (Bool-cases (str_eq key other)) [
    | inl here ↦ rw (kept, here) refl
    | inr away ↦ rw (kept, away) (find-put_other name other d store apart)
  ]
]

stored :
    (name : String) (d : Deployment) (store : Store)
    → (kube.replace name d store).0 ≡ ok tt
    → find name (kube.replace name d store).1 ≡ ok d
stored name d store h = elim (Bool-cases (has name store)) [
  | inl there ↦ rw there (find-put name d store there)
  | inr gone ↦ let h1 = rw gone at h in cc
]

others :
    (name other : String) (d : Deployment) (store : Store)
    → other ≢ name
    → find other (kube.replace name d store).1 ≡ find other store
others name other d store apart = elim (Bool-cases (has name store)) [
  | inl there ↦ rw there (find-put_other name other d store apart)
  | inr gone ↦ rw gone refl
]

kube-Persists : Persists kube
kube-Persists = record {
  stored = λ name d store h. stored name d store h;
  others = λ name other d store apart. others name other d store apart;
}

-- All that a run unfolds.
unfoldable pub adapter_program : Unit {0}
unfolding lookup insert traverse str_of differs node_penalty penalty best_penalty index_of
    best_index choose_closest queue_of read_variable read_env read_queue_variable read_queue_env
    set_env change_args change_init changed_node changed_queue extract_node replace_both retry
    changed_bodies change_node_config has_slash is_empty replace_last
adapter_program = tt

abbrev pub nodes : Nodes
nodes = record {
  node_names = "detect" ∷ [];
  central_queue = true;
  from_storage = ("detect", true) ∷ [];
}

abbrev deployed : Deployment
deployed = record {
  replicas = 1;
  cpu_limit = tally 1;
  cpu_request = tally 1;
  env = ("MODEL_VARIANT", "small") ∷ ("MLSERVER_MODEL_MAX_BATCH_SIZE", tally 1) ∷ [];
  init_args = some ("s3:/models/small" ∷ []);
}

abbrev pub store : Store
store = ("detect", deployed) ∷ ("queue-detect", record deployed { init_args = none }) ∷ []

abbrev locals : Locals
locals = record { variant = none; batch = none }

abbrev wanted : NodeConfig ℕ
wanted = record { cpu = count 2; replicas = 3; batch = count 4; variant = "large" }

detect-changes : (change_node_config texts kube nodes "detect" wanted store).0 ≡ ok true
unfolding adapter_program
detect-changes = refl

detect-Has : Has kube store "detect" "MODEL_VARIANT"
detect-Has d h =
    subst (λ (x : Deployment). mentions "MODEL_VARIANT" x.env ≡ true) (ok-injective h) refl

queue-Has : Has kube store (queue_of "detect") "MLSERVER_MODEL_MAX_BATCH_SIZE"
unfolding queue_of
queue-Has d h =
    subst (λ (x : Deployment). mentions "MLSERVER_MODEL_MAX_BATCH_SIZE" x.env ≡ true)
      (ok-injective h) refl

change_node_config-extract_node_example :
    (l : Locals) × (extract_node texts kube nodes
        (change_node_config texts kube nodes "detect" wanted store).1
        "detect"
        locals
      ≡ ok (record { cpu = count 2; replicas = 3; batch = text (tally 4); variant = "large" }, l))
change_node_config-extract_node_example =
    change_node_config-extract_node texts texts-ReadsBack kube kube-Persists nodes "detect" 2 3 4
      "large" store locals refl detect-Has queue-Has detect-changes

abbrev alone : Nodes
alone = record nodes { central_queue = false }

detect-changes_alone : (change_node_config texts kube alone "detect" wanted store).0 ≡ ok true
unfolding adapter_program
detect-changes_alone = refl

detect-Has_batch : Has kube store "detect" "MLSERVER_MODEL_MAX_BATCH_SIZE"
detect-Has_batch d h =
    subst (λ (x : Deployment). mentions "MLSERVER_MODEL_MAX_BATCH_SIZE" x.env ≡ true)
      (ok-injective h) refl

change_node_config-alone_extract_node_example :
    (l : Locals) × (extract_node texts kube alone
        (change_node_config texts kube alone "detect" wanted store).1
        "detect"
        locals
      ≡ ok (record { cpu = count 2; replicas = 3; batch = text (tally 1); variant = "large" }, l))
change_node_config-alone_extract_node_example =
    change_node_config-alone_extract_node texts texts-ReadsBack kube kube-Persists alone "detect" 2
      3 4 "large" store locals refl detect-Has detect-Has_batch detect-changes_alone

renamed : replace_last "large" "s3:/models/small" ≡ "s3:/models/large"
unfolding adapter_program
renamed = refl

abbrev pub candidate : String → ℕ → Config ℕ
candidate variant batch =
    ("detect", record { cpu = number 1000; replicas = 1; batch = count batch; variant = variant })
    ∷ []

abbrev pub candidates : List (Config ℕ)
candidates =
    candidate "large" 1 ∷ candidate "small" 4 ∷ candidate "small" 1 ∷ candidate "large" 4 ∷ []

abbrev current : Config ℕ
current =
    ("detect", record { cpu = count 1; replicas = 1; batch = text (tally 1); variant = "small" })
    ∷ []

candidates-scores : traverse (λ new. penalty texts new current) candidates ≡ ok (1 ∷ 1 ∷ 0 ∷ 2 ∷ [])
unfolding adapter_program
candidates-scores = refl

choose_closest_lem_example :
    (chosen : Config ℕ) × (i : ℕ) × (choose_closest texts candidates current ≡ ok chosen)
    × IsClosest texts candidates current chosen i
choose_closest_lem_example =
    choose_closest_lem texts candidates current 1 (1 ∷ 0 ∷ 2 ∷ []) candidates-scores
