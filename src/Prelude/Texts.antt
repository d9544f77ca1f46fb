-- ===== src/Prelude/Texts.antt =====
-- What the code takes from Python's `str`, `int` and `round`.
use Prim.Native.Nat.{ℕ}
use Prim.Native.String.{String, ◌++◌ as text_append}
use mathlib.Core.Path.{◌≡◌}
use mathlib.Core.Bool.{Bool, true, false}
use mathlib.Core.Option.{none, some}
use text.Mathlib.Text.{find?}
use ipa_arman.Prelude.Effects.{Outcome, ok}

-- `str` of an int and of a double, `int` of a string and of a double, and `round`.
pub record Conversions (F : Type 0) : Type 0 where
  pub str_int : ℕ → String
  pub str_double : F → String
  pub parse_int : String → Outcome ℕ
  pub truncate : F → Outcome ℕ
  pub round : F → Outcome ℕ

-- Documented behaviour: `int` reads what `str` prints.
pub record ReadsBack {F : Type 0} (texts : Conversions F) : Type 0 where
  pub parse_int-str_int : (n : ℕ) → texts.parse_int (texts.str_int n) ≡ ok n

-- `part in text` on strings.
abbrev pub contains : String → String → Bool
contains part whole = elim (find? whole part) [ none ↦ false | some _ ↦ true ]

-- `s + t` on strings.
abbrev pub join : String → String → String
join = text_append
