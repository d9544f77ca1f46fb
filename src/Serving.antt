-- ===== src/Serving.antt =====
-- pipelines/router/models.py: the parts of a request that the router of a pipeline reads and writes.
pub mod Router
pub mod Names
pub mod Passes
pub mod Stamped
pub mod Tests
use ipa_arman.Prelude.{ℕ, String, Option, List, [], ◌∷◌, str_eq, Outcome, Dict, insert}

-- The times of the models: for each the clock at its arrival and at its serving.
abbrev pub ModelTimes : Type 0 → Type 0
ModelTimes F = Dict String (Dict String F)

-- The parameters that the code names. The times are text, as `str` prints them.
pub record Parameters : Type 0 where
  pub pipeline_arrival : Option String
  pub times : Option String

-- An input or an output: its name, the size of its batch, its data and its parameters.
pub record Tensor : Type 0 where
  pub name : String
  pub batch : ℕ
  pub data_ : List String
  pub parameters : Parameters

-- What the router takes from Python's `str`, `float` and `eval`: a clock as text, and the times of the
-- models as `str([str(times)])` prints them and `eval(eval(text)[0])` reads them.
pub record Literals (F : Type 0) : Type 0 where
  pub str_clock : F → String
  pub parse_clock : String → Outcome F
  pub print_times : ModelTimes F → String
  pub eval_times : String → Outcome (ModelTimes F)

-- `{PREDICTIVE_UNIT_ID: {"arrival": …, "serving": …}}`, added to the times of the models.
unfoldable pub add_times : {F : Type 0} → String → F → F → ModelTimes F → ModelTimes F
add_times unit arrival serving times =
    insert str_eq unit (("arrival", arrival) ∷ ("serving", serving) ∷ []) times
