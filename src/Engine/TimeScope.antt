-- ===== src/Engine/TimeScope.antt =====
-- The time scope of an event: `_infer_time_scope` and `_normalize_time_fields`.
pub mod Laws
use nudging_tool.Prelude.{
  ℕ, code, String, Bool, true, false, ◌&&◌, ◌||◌, Option, none, some, List, [], ◌∷◌, ◌==◌, eqb,
  if◌then◌else◌, is_empty,
}
use nudging_tool.Text.{is_digit, strip}
use nudging_tool.Json.{Json, Dict, str, or_else, get, put}

pub record TimeScope : Type 0 where
  pub frequency : String
  pub scope : String

-- One character of a pattern: `\d`, or a character that stands for itself.
pub data Atom : Type 0 where
  digit : Atom
  literal : ℕ → Atom

abbrev pub atom_matches : Atom → ℕ → Bool → Bool
atom_matches digit c d = d
atom_matches (literal k) c d = eqb k c

-- `re.match` of an anchored pattern on a stripped text, where `$` is the end.
unfoldable pub matches : List Atom → String → Bool
matches [] String.[] = true
matches [] (String.◌∷◌ c s) = false
matches (a ∷ p) String.[] = false
matches (a ∷ p) (String.◌∷◌ c s) = atom_matches a (code c) (is_digit c) && matches p s

abbrev pub dash : Atom
dash = literal b'-'

abbrev pub yearly_re : List Atom
yearly_re = digit ∷ digit ∷ digit ∷ digit ∷ []

abbrev pub monthly_re : List Atom
monthly_re = digit ∷ digit ∷ digit ∷ digit ∷ dash ∷ digit ∷ digit ∷ []

abbrev pub weekly_re : List Atom
weekly_re = digit ∷ digit ∷ digit ∷ digit ∷ dash ∷ literal b'W' ∷ digit ∷ digit ∷ []

abbrev pub daily_re : List Atom
daily_re = digit ∷ digit ∷ digit ∷ digit ∷ dash ∷ digit ∷ digit ∷ dash ∷ digit ∷ digit ∷ []

-- The scope of a stripped text.
unfoldable pub scope_of_text : String → Option TimeScope
scope_of_text raw =
    if matches daily_re raw
    then some (record { frequency = "daily"; scope = raw })
    else if matches weekly_re raw
    then some (record { frequency = "weekly"; scope = raw })
    else if matches monthly_re raw
    then some (record { frequency = "monthly"; scope = raw })
    else if matches yearly_re raw
    then some (record { frequency = "yearly"; scope = raw })
    else none

-- `facts.get("time") or facts.get("date") or facts.get("week") or facts.get("period")`
abbrev pub raw_time : Dict → Json
raw_time facts =
    or_else (or_else (or_else (get "time" facts) (get "date" facts)) (get "week" facts))
      (get "period" facts)

abbrev pub scope_of_value : Json → Option TimeScope
scope_of_value (str raw) = if is_empty (strip raw) then none else scope_of_text (strip raw)
scope_of_value _ = none

unfoldable pub infer_time_scope : Dict → Option TimeScope
infer_time_scope facts = scope_of_value (raw_time facts)

unfoldable pub normalize_time_fields : Dict → TimeScope → Dict
normalize_time_fields facts ts =
    let out = put "time" (str ts.scope) facts in
    if ts.frequency == "daily"
    then put "date" (str ts.scope) out
    else if ts.frequency == "weekly"
    then put "week" (str ts.scope) out
    else if ts.frequency == "monthly" || ts.frequency == "yearly"
    then put "period" (str ts.scope) out
    else out
