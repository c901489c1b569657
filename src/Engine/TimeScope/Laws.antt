-- ===== src/Engine/TimeScope/Laws.antt =====
-- The time scope of an event is read in one way, and survives its normalisation.
use nudging_tool.Prelude.{
  ℕ, suc, String, ◌≡◌, refl, true, false, some, List, [], ◌∷◌, ◌==◌, arith, length, inl, inr,
  Bool-cases, is_empty, ◌⊎◌, ◌↔◌, ap, ◌∙◌, eqb,
}
use nudging_tool.Text.{strip}
use nudging_tool.Text.Laws.{strip_idem}
use nudging_tool.Json.{Json, Dict, truthy, str, get, put}
use nudging_tool.Json.Laws.{get-put}
use nudging_tool.Engine.TimeScope.{
  TimeScope, Atom, matches, yearly_re, monthly_re, weekly_re, daily_re, scope_of_text,
  scope_of_value, raw_time, infer_time_scope, normalize_time_fields,
}

-- The number of characters of a text.
abbrev pub size : String → ℕ
size String.[] = 0
size (String.◌∷◌ c s) = suc (size s)

pub size_of_matches : (p : List Atom) (s : String) → matches p s ≡ true → size s ≡ length p
unfolding matches
size_of_matches [] String.[] h = refl
size_of_matches [] (String.◌∷◌ c s) h = cc
size_of_matches (a ∷ p) String.[] h = cc
size_of_matches (a ∷ p) (String.◌∷◌ c s) h = ground (arith, size_of_matches p s)

scope_of_text-scope : (raw : String) (ts : TimeScope) → scope_of_text raw ≡ some ts → ts.scope ≡ raw
unfolding scope_of_text
scope_of_text-scope raw ts h = ground arith

-- The pattern of a frequency.
abbrev pub PatternOf : String → String → Type 0
PatternOf frequency scope =
    ((frequency ≡ "daily") × (matches daily_re scope ≡ true))
    ⊎ ((frequency ≡ "weekly") × (matches weekly_re scope ≡ true))
    ⊎ ((frequency ≡ "monthly") × (matches monthly_re scope ≡ true))
    ⊎ ((frequency ≡ "yearly") × (matches yearly_re scope ≡ true))

-- Patterns of different lengths do not match the same text.
matches-false :
    (p q : List Atom) (s : String)
    → matches p s ≡ true
    → eqb (length q) (length p) ≡ false
    → matches q s ≡ false
matches-false p q s h apart = elim (Bool-cases (matches q s)) [
  | inl both ↦ ground (arith, size_of_matches p s h, size_of_matches q s both)
  | inr other ↦ other
]

pattern-scope :
    (raw frequency : String)
    → PatternOf frequency raw
    → scope_of_text raw ≡ some (record { frequency = frequency; scope = raw })
unfolding scope_of_text
pattern-scope raw frequency (inl (e, h)) = rw (h, e) refl
pattern-scope raw frequency (inr (inl (e, h))) =
    rw (matches-false weekly_re daily_re raw h refl, h, e) refl
pattern-scope raw frequency (inr (inr (inl (e, h)))) =
    rw
      (
        matches-false monthly_re daily_re raw h refl,
        matches-false monthly_re weekly_re raw h refl,
        h,
        e,
      )
      refl
pattern-scope raw frequency (inr (inr (inr (e, h)))) =
    rw
      (
        matches-false yearly_re daily_re raw h refl,
        matches-false yearly_re weekly_re raw h refl,
        matches-false yearly_re monthly_re raw h refl,
        h,
        e,
      )
      refl

scope-pattern :
    (raw frequency : String)
    → scope_of_text raw ≡ some (record { frequency = frequency; scope = raw })
    → PatternOf frequency raw
unfolding scope_of_text
scope-pattern raw frequency h = elim (Bool-cases (matches daily_re raw)) [
  | inl m ↦ inl (ground arith, m)
  | inr not_daily ↦ elim (Bool-cases (matches weekly_re raw)) [
    | inl m ↦ inr (inl (ground arith, m))
    | inr not_weekly ↦ elim (Bool-cases (matches monthly_re raw)) [
      | inl m ↦ inr (inr (inl (ground arith, m)))
      | inr not_monthly ↦ inr (inr (inr (ground arith, ground arith)))
    ]
  ]
]

-- A text has the scope of a frequency exactly when the pattern of that frequency matches it: the
-- order in which the four patterns are tried does not matter.
pub scope_of_text_iff :
    (raw : String) (frequency : String)
    → (scope_of_text raw ≡ some (record { frequency = frequency; scope = raw }))
      ↔ PatternOf frequency raw
scope_of_text_iff raw frequency = (scope-pattern raw frequency, pattern-scope raw frequency)

value_cases :
    (v : Json) (ts : TimeScope)
    → scope_of_value v ≡ some ts
    → (raw : String) × (is_empty (strip raw) ≡ false) × (scope_of_text (strip raw) ≡ some ts)
value_cases (str raw) ts h = (raw, ground arith, ground arith)
value_cases _ ts h = cc

time_of_put :
    (k : String) (v w : Json) (facts : Dict)
    → (k == "time") ≡ false
    → get "time" (put k v (put "time" w facts)) ≡ w
time_of_put k v w facts h =
    rw (get-put k "time" v (put "time" w facts), h) (get-put "time" "time" w facts)

normalized-time :
    (facts : Dict) (ts : TimeScope) → get "time" (normalize_time_fields facts ts) ≡ str ts.scope
unfolding normalize_time_fields
normalized-time facts ts = ground (
  arith,
  time_of_put "date" (str ts.scope) (str ts.scope) facts refl,
  time_of_put "week" (str ts.scope) (str ts.scope) facts refl,
  time_of_put "period" (str ts.scope) (str ts.scope) facts refl,
  get-put "time" "time" (str ts.scope) facts,
)

raw_time-time : (d : Dict) (v : Json) → get "time" d ≡ v → truthy v ≡ true → raw_time d ≡ v
raw_time-time d v e h = rw e (ground arith)

scope_of_value-strip :
    (raw scope : String) (ts : TimeScope)
    → scope ≡ strip raw
    → is_empty (strip raw) ≡ false
    → scope_of_text (strip raw) ≡ some ts
    → scope_of_value (str scope) ≡ some ts
scope_of_value-strip raw scope ts same filled scoped = rw (same, strip_idem raw, filled) scoped

-- An event whose scope was inferred has the same scope again once its time fields are normalised.
pub infer-normalize :
    (facts : Dict) (ts : TimeScope)
    → infer_time_scope facts ≡ some ts
    → infer_time_scope (normalize_time_fields facts ts) ≡ some ts
unfolding infer_time_scope normalize_time_fields
infer-normalize facts ts h =
    let (raw, filled, scoped) = value_cases (raw_time facts) ts h in
    let same : (ts.scope ≡ strip raw) = scope_of_text-scope (strip raw) ts scoped in
    ap scope_of_value (
      raw_time-time (normalize_time_fields facts ts) (str ts.scope) (normalized-time facts ts)
        (rw same (ground arith)))
    ∙ scope_of_value-strip raw ts.scope ts same filled scoped
