-- ===== src/Serving/Names.antt =====
-- pipelines/router/models.py: the name of a model without `queue-`, as the message of a late request
-- has it.
use mathlib.Core.Path.{subst}
use Prim.Native.Char.{Char}
use text.Mathlib.Text.{starts_with}
use ipa_arman.Prelude.{
  ℕ, zero, suc, String, ◌≡◌, ◌↔◌, refl, ◌∙◌, ap, Bool-cases, inl, inr, true, false,
}
use ipa_arman.Serving.Router.{without_queue}

-- A text without its first `n` characters.
abbrev pub drop_chars : ℕ → String → String
drop_chars n String.[] = String.[]
drop_chars zero (String.◌∷◌ c s) = String.◌∷◌ c s
drop_chars (suc n) (String.◌∷◌ c s) = drop_chars n s

-- `s.replace("queue-", "")`: from the left, each `queue-` is left out, and every other character stays.
pub data Replaced : String → String → Type 0 where
  ends : Replaced String.[] String.[]
  cut :
      {s out : String}
      → starts_with s "queue-" ≡ true
      → Replaced (drop_chars 6 s) out
      → Replaced s out
  kept :
      (c : Char) {s out : String}
      → starts_with (String.◌∷◌ c s) "queue-" ≡ false
      → Replaced s out
      → Replaced (String.◌∷◌ c s) (String.◌∷◌ c out)

drop_chars-zero : (s : String) → drop_chars 0 s ≡ s
drop_chars-zero String.[] = refl
drop_chars-zero (String.◌∷◌ c s) = refl

without_queue-skip : (n : ℕ) (s : String) → without_queue n s ≡ without_queue 0 (drop_chars n s)
unfolding without_queue
without_queue-skip n String.[] = refl
without_queue-skip zero (String.◌∷◌ c s) = refl
without_queue-skip (suc n) (String.◌∷◌ c s) = without_queue-skip n s

skipped-Replaced : (n : ℕ) (s : String) → Replaced (drop_chars n s) (without_queue n s)
unfolding without_queue
skipped-Replaced n String.[] = ends
skipped-Replaced (suc n) (String.◌∷◌ c s) = skipped-Replaced n s
skipped-Replaced zero (String.◌∷◌ c s) = elim (Bool-cases (starts_with (String.◌∷◌ c s) "queue-")) [
  | inl here ↦ rw here (cut here (skipped-Replaced 5 s))
  | inr away ↦ rw away (
      kept c away
        (subst (λ w. Replaced w (without_queue 0 s)) (drop_chars-zero s) (skipped-Replaced 0 s)))
]

without_queue-cut :
    (s : String)
    → starts_with s "queue-" ≡ true
    → without_queue 0 s ≡ without_queue 0 (drop_chars 6 s)
unfolding without_queue
without_queue-cut String.[] here = refl
without_queue-cut (String.◌∷◌ c s) here = rw here (without_queue-skip 5 s)

Replaced-without_queue : {s out : String} → Replaced s out → without_queue 0 s ≡ out
unfolding without_queue
Replaced-without_queue ends = refl
Replaced-without_queue (cut {s} here rest) = without_queue-cut s here ∙ Replaced-without_queue rest
Replaced-without_queue (kept c away rest) =
    rw away (ap (String.◌∷◌ c) (Replaced-without_queue rest))

pub without_queue_iff : (s out : String) → (without_queue 0 s ≡ out) ↔ Replaced s out
without_queue_iff s out = (
  (λ e.
      subst (Replaced s) e
        (subst (λ w. Replaced w (without_queue 0 s)) (drop_chars-zero s) (skipped-Replaced 0 s))),
  Replaced-without_queue,
)
