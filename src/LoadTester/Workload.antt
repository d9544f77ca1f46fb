-- ===== src/LoadTester/Workload.antt =====
-- load_tester/barazmoon/twitter/loader.py and experiments/utils/workload.py: the load of each second.
use Prim.Native.Char.{Char, code}
use ipa_arman.Prelude.{
  ℕ, zero, suc, ◌+◌, ◌-◌, ◌*◌, String, not, ◌&&◌, Option, none, some, List, [], ◌∷◌, ◌++◌, ltb, leb,
  ◌==◌, str_lt, if◌then◌else◌, value_error, zero_division_error, unbound_local_error, Outcome, ok,
  raised, ◌>>=◌, traverse, slice, length, contains, join, Conversions, Runtime,
}

-- `text.split(separator)` for one character.
unfoldable pub prepend : Char → List String → List String
prepend c [] = String.◌∷◌ c String.[] ∷ []
prepend c (word ∷ words) = String.◌∷◌ c word ∷ words

unfoldable pub split : Char → String → List String
split separator String.[] = String.[] ∷ []
split separator (String.◌∷◌ c s) =
    let rest = split separator s in
    if code c == code separator then String.[] ∷ rest else prepend c rest

-- `a, b = parts`
unfoldable pub two_parts {ℓ} : {A : Type ℓ} → List A → Outcome (A × A)
two_parts (a ∷ b ∷ []) = ok (a, b)
two_parts _ = raised value_error

-- The seconds from the start of January 2023. `datetime` raises for what is no date and time.
unfoldable pub seconds_of : ℕ → ℕ → ℕ → ℕ → Outcome ℕ
seconds_of day hour minute second =
    if leb 1 day && leb day 31 && ltb hour 24 && ltb minute 60 && ltb second 60
    then ok ((((day - 1) * 24 + hour) * 60 + minute) * 60 + second)
    else raised value_error

unfoldable pub date_of : List ℕ → Outcome ℕ
date_of (day ∷ hour ∷ minute ∷ []) = seconds_of day hour minute 0
date_of (day ∷ hour ∷ minute ∷ second ∷ []) = seconds_of day hour minute second
date_of _ = raised value_error

-- `[value] * n`
unfoldable pub repeated {ℓ} : {A : Type ℓ} → ℕ → A → List A
repeated zero x = []
repeated (suc n) x = x ∷ repeated n x

-- The entries of a configuration that the workload is made from.
pub record Window (F : Type 0) : Type 0 where
  pub damping_factor : Option F
  pub start : String
  pub end : String

pub data WorkloadConfig (F : Type 0) : Type 0 where
  static : ℕ → ℕ → WorkloadConfig F
  twitter : List (Window F) → WorkloadConfig F
  other : WorkloadConfig F

-- `data` is the text of the file of the workload.
module _ {F : Type 0} ⦃r : Runtime F⦄ (texts : Conversions F) (data_ : String) where
  open r use {of_ℕ, div, eq}

  -- The words that are no numbers are left out.
  unfoldable pub numbers_in : List String → List ℕ
  numbers_in [] = []
  numbers_in (word ∷ words) = elim (texts.parse_int word) [
    | ok n ↦ n ∷ numbers_in words
    | raised e ↦ numbers_in words
  ]

  unfoldable pub get_workload : List ℕ
  get_workload = numbers_in (split " " data_)

  -- `int(l / damping_factor)`
  unfoldable pub damped : F → ℕ → Outcome ℕ
  damped factor l =
      if eq factor (of_ℕ 0)
      then raised zero_division_error
      else texts.truncate (div (of_ℕ l) factor)

  unfoldable pub damp : Option F → List ℕ → Outcome (List ℕ)
  damp none ls = ok ls
  damp (some factor) ls = traverse (damped factor) ls

  unfoldable pub parse_date_str : String → Outcome ℕ
  parse_date_str text = do parts ← traverse texts.parse_int (split ":" text); date_of parts

  unfoldable pub twitter_workload_generator : String → Option F → Outcome (List ℕ)
  twitter_workload_generator days factor =
      if not (contains ":" days)
      then (do
        parts ← traverse texts.parse_int (split "-" days)
        (first, last) ← two_parts parts
        loads ← damp factor get_workload
        ok (slice first last loads))
      else (do
        (first, last) ← two_parts (split "-" days)
        start ← parse_date_str first
        end ← parse_date_str last
        loads ← damp factor get_workload
        ok (slice start (end + 1) loads))

  -- `str(int(start) + teleport_interval)`
  unfoldable pub teleported : Option ℕ → String → Outcome String
  teleported none start = ok start
  teleported (some interval) start = do n ← texts.parse_int start; ok (texts.str_int (n + interval))

  -- A turn of the loop over the windows: the two strings are compared as strings.
  unfoldable pub window_load : Option ℕ → Window F → Outcome (List ℕ)
  window_load interval w = do
    start ← teleported interval w.start
    if str_lt w.end start
        then raised value_error
        else twitter_workload_generator (join start (join "-" w.end)) w.damping_factor

  unfoldable pub windows_load : Option ℕ → List ℕ → List (Window F) → Outcome (List ℕ)
  windows_load interval workload [] = ok workload
  windows_load interval workload (w ∷ ws) = do
    loads ← window_load interval w
    windows_load interval (workload ++ loads) ws

  unfoldable pub make_workload : Option ℕ → WorkloadConfig F → Outcome (ℕ × List ℕ)
  make_workload interval (static load duration) = ok (duration, repeated duration load)
  make_workload interval (twitter windows) = do
    workload ← windows_load interval [] windows
    ok (length workload, workload)
  make_workload interval other = raised unbound_local_error
