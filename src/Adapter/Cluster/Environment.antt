-- ===== src/Adapter/Cluster/Environment.antt =====
-- optimizer/adapter.py: a variable of a container's environment, written and then read.
use Prim.Native.String.{◌++◌ as text_append}
use Prim.Native.String.append
use ipa_arman.Prelude.{
  ℕ, suc, ◌+◌, String, ◌≡◌, ◌≢◌, refl, sym, ◌∙◌, ap, Bool, true, false, List, [], ◌∷◌,
  if◌then◌else◌, str_eq, eq_iff, some, Option, inl, inr, arith, Bool-cases,
}
use ipa_arman.Adapter.Cluster.{
  Locals, queue_of, read_variable, read_queue_variable, read_env, read_queue_env, set_env,
}

-- The value of the last entry of a name, and `old` where there is none.
abbrev pub last_value : String → List (String × String) → Option String → Option String
last_value key [] old = old
last_value key ((name, value) ∷ env) old =
    last_value key env (if str_eq name key then some value else old)

abbrev pub mentions : String → List (String × String) → Bool
mentions key [] = false
mentions key ((name, value) ∷ env) = if str_eq name key then true else mentions key env

read_variable-variant :
    (name value : String) (l : Locals)
    → (read_variable name value l).variant
      ≡ (if str_eq name "MODEL_VARIANT" then some value else l.variant)
unfolding read_variable
read_variable-variant name value l = ground arith

read_variable-batch :
    (name value : String) (l : Locals)
    → (read_variable name value l).batch
      ≡ (if str_eq name "MLSERVER_MODEL_MAX_BATCH_SIZE" then some value else l.batch)
unfolding read_variable
read_variable-batch name value l = ground arith

read_queue_variable-batch :
    (name value : String) (l : Locals)
    → (read_queue_variable name value l).batch
      ≡ (if str_eq name "MLSERVER_MODEL_MAX_BATCH_SIZE" then some value else l.batch)
unfolding read_queue_variable
read_queue_variable-batch name value l = ground arith

pub read_env-variant :
    (env : List (String × String)) (l : Locals)
    → (read_env env l).variant ≡ last_value "MODEL_VARIANT" env l.variant
unfolding read_env
read_env-variant [] l = refl
read_env-variant ((name, value) ∷ env) l =
    read_env-variant env (read_variable name value l)
    ∙ ap (last_value "MODEL_VARIANT" env) (read_variable-variant name value l)

pub read_env-batch :
    (env : List (String × String)) (l : Locals)
    → (read_env env l).batch ≡ last_value "MLSERVER_MODEL_MAX_BATCH_SIZE" env l.batch
unfolding read_env
read_env-batch [] l = refl
read_env-batch ((name, value) ∷ env) l =
    read_env-batch env (read_variable name value l)
    ∙ ap (last_value "MLSERVER_MODEL_MAX_BATCH_SIZE" env) (read_variable-batch name value l)

pub read_queue_env-batch :
    (env : List (String × String)) (l : Locals)
    → (read_queue_env env l).batch ≡ last_value "MLSERVER_MODEL_MAX_BATCH_SIZE" env l.batch
unfolding read_queue_env
read_queue_env-batch [] l = refl
read_queue_env-batch ((name, value) ∷ env) l =
    read_queue_env-batch env (read_queue_variable name value l)
    ∙ ap (last_value "MLSERVER_MODEL_MAX_BATCH_SIZE" env) (read_queue_variable-batch name value l)

last_value_kept :
    (key v : String) (env : List (String × String))
    → last_value key (set_env key v env) (some v) ≡ some v
unfolding set_env
last_value_kept key v [] = refl
last_value_kept key v ((name, value) ∷ env) =
    ap (last_value key (set_env key v env)) (unchanged (str_eq name key))
    ∙ last_value_kept key v env
  where
    unchanged : (same : Bool) → (if same then some (if same then v else value) else some v) ≡ some v
    unchanged true = refl
    unchanged false = refl

-- What was written is read, where the environment has the name.
pub last_value-set_env :
    (key v : String) (env : List (String × String)) (old : Option String)
    → mentions key env ≡ true
    → last_value key (set_env key v env) old ≡ some v
unfolding set_env
last_value-set_env key v [] old h = cc
last_value-set_env key v ((name, value) ∷ env) old h =
    go (str_eq name key) h (λ g. last_value-set_env key v env old g)
  where
    go :
        (same : Bool)
        → (if same then true else mentions key env) ≡ true
        → (mentions key env ≡ true → last_value key (set_env key v env) old ≡ some v)
        → last_value key
            (set_env key v env)
            (if same then some (if same then v else value) else old)
          ≡ some v
    go true g later = last_value_kept key v env
    go false g later = later g

-- Another name is left alone.
pub last_value-set_env_other :
    (key other v : String) (env : List (String × String)) (old : Option String)
    → key ≢ other
    → last_value key (set_env other v env) old ≡ last_value key env old
unfolding set_env
last_value-set_env_other key other v [] old apart = refl
last_value-set_env_other key other v ((name, value) ∷ env) old apart =
    ap (last_value key (set_env other v env)) same_value
    ∙ last_value-set_env_other key other v env (if str_eq name key then some value else old) apart
  where
    same_value :
        (if str_eq name key then some (if str_eq name other then v else value) else old)
        ≡ (if str_eq name key then some value else old)
    same_value = elim (Bool-cases (str_eq name key)) [
      | inr far ↦ rw far refl
      | inl here ↦ elim (Bool-cases (str_eq name other)) [
        | inr away ↦ rw away refl
        | inl both ↦ absurd (apart (sym ((eq_iff name key).0 here) ∙ (eq_iff name other).0 both))
      ]
    ]

pub mentions-set_env :
    (key other v : String) (env : List (String × String))
    → mentions key (set_env other v env) ≡ mentions key env
unfolding set_env
mentions-set_env key other v [] = refl
mentions-set_env key other v ((name, value) ∷ env) = let h = mentions-set_env key other v env in cc

abbrev size : String → ℕ
size String.[] = 0
size (String.◌∷◌ c s) = suc (size s)

size-append : (s t : String) → size (text_append s t) ≡ size s + size t
size-append String.[] t = rw (append.nil t) (omega arith)
size-append (String.◌∷◌ c s) t = let h = size-append s t in rw (append.cons c s t) (omega arith)

-- The queue of a node is another deployment.
pub queue_of-apart : (name : String) → queue_of name ≢ name
unfolding queue_of
queue_of-apart name h =
    let both : size (text_append "queue-" name) ≡ size name = ap size h in
    let parts = size-append "queue-" name in omega arith
