-- ===== src/Engine/Resolve/Laws.antt =====
-- Which rules an event can reach.
use nudging_tool.Prelude.{
  Char, Bool-cases, inl, inr, ◌⊎◌, sym, subst, false, refl, Option, none, some, All, String, ◌≡◌,
  Bool, true, ◌&&◌, List, [], ◌∷◌, map, select, contains, ◌==◌, arith, any, ap, ◌∙◌, eq_iff,
}
use nudging_tool.Text.{strip, lower, is_space}
use nudging_tool.Json.{Json, str, lookup, get, text_of, or_else, or_null}
use nudging_tool.Db.{Rule, Db}
use nudging_tool.Env.{Env}
use nudging_tool.Engine.Resolve.{has_window, filter_rule_ids_by_definition}

module _ (env : Env) (candidates : List String) (frequency id : String) where
  -- Whether a rule of the id is enabled and has the window of the frequency.
  abbrev is_runnable : Rule → Bool
  is_runnable r =
      (r.id == id) && r.enabled && has_window env (strip (lower env.lower_other frequency)) r

  same_candidate :
      (other : String) → (other == id) ≡ true → contains other candidates ≡ contains id candidates
  same_candidate other same = ap (λ x. contains x candidates) ((eq_iff other id).0 same)

  chosen_rules :
      (rules : List Rule)
      → contains id (
          map
            (λ (r : Rule). r.id)
            (select
              (λ r.
                contains r.id candidates
                && r.enabled
                && has_window env (strip (lower env.lower_other frequency)) r)
              rules))
        ≡ (contains id candidates && any is_runnable rules)
  chosen_rules [] = ground arith
  chosen_rules (r ∷ rs) = ground (arith, chosen_rules rs, same_candidate r.id)

-- The frequencies of a time scope.
abbrev pub frequencies : List String
frequencies = "daily" ∷ "weekly" ∷ "monthly" ∷ "yearly" ∷ []

frequency_cases :
    (f : String)
    → contains f frequencies ≡ true
    → (f ≡ "daily") ⊎ ((f ≡ "weekly") ⊎ ((f ≡ "monthly") ⊎ (f ≡ "yearly")))
frequency_cases f h = elim (Bool-cases ("daily" == f)) [
  | inl e ↦ inl (sym ((eq_iff "daily" f).0 e))
  | inr a ↦ elim (Bool-cases ("weekly" == f)) [
    | inl e ↦ inr (inl (sym ((eq_iff "weekly" f).0 e)))
    | inr b ↦ elim (Bool-cases ("monthly" == f)) [
      | inl e ↦ inr (inr (inl (sym ((eq_iff "monthly" f).0 e))))
      | inr c ↦ inr (inr (inr (sym ((eq_iff "yearly" f).0 (ground arith)))))
    ]
  ]
]

-- A frequency is stripped and in lower case, and is not empty.
abbrev IsPlain : (Char → String) → String → Type 0
IsPlain other f = (strip (lower other f) ≡ f) × (("" == f) ≡ false)

frequency-IsPlain :
    (other : Char → String) (f : String) → contains f frequencies ≡ true → IsPlain other f
unfolding strip lower is_space
frequency-IsPlain other f h = elim (frequency_cases f h) [
  | inl e ↦ subst (IsPlain other) (sym e) (refl, refl)
  | inr (inl e) ↦ subst (IsPlain other) (sym e) (refl, refl)
  | inr (inr (inl e)) ↦ subst (IsPlain other) (sym e) (refl, refl)
  | inr (inr (inr e)) ↦ subst (IsPlain other) (sym e) (refl, refl)
]

-- The window that a definition holds, if it holds one.
abbrev pub window_value : Option String → Option Json
window_value none = none
window_value (some w) = some (str w)

-- Whether the window is the frequency, without regard to case.
abbrev pub is_window : Env → String → Option String → Bool
is_window env frequency none = false
is_window env frequency (some w) = lower env.lower_other w == frequency

module _ (env : Env) (frequency id : String) (window : Option String) where
  abbrev pub HasWindow : Rule → Type 0
  HasWindow r = r.id ≡ id → lookup "dedup_window" r.definition ≡ window_value window

  text_window :
      (w : Option String)
      → ("" == frequency) ≡ false
      → (lower env.lower_other (text_of env.repr (or_else (or_null (window_value w)) (str "")))
          == frequency)
        ≡ is_window env frequency w
  unfolding lower
  text_window none h = h
  text_window (some String.[]) h = refl
  text_window (some (String.◌∷◌ c s)) h = refl

  has_window-window :
      (r : Rule)
      → ("" == frequency) ≡ false
      → lookup "dedup_window" r.definition ≡ window_value window
      → has_window env frequency r ≡ is_window env frequency window
  unfolding get
  has_window-window r h e =
      ap (λ v. lower env.lower_other (text_of env.repr (or_else (or_null v) (str ""))) == frequency)
        e
      ∙ text_window window h

  -- Which rules of an id an event of a frequency reaches.
  runnable_rules :
      (rules : List Rule)
      → ("" == frequency) ≡ false
      → strip (lower env.lower_other frequency) ≡ frequency
      → All HasWindow rules
      → any (is_runnable env [] frequency id) rules
        ≡ (any (λ r. (r.id == id) && r.enabled) rules && is_window env frequency window)
  runnable_rules [] h plain all = refl
  runnable_rules (r ∷ rs) h plain all =
      let rest = runnable_rules rs h plain all.1 in
      let other = strip (lower env.lower_other frequency) in
      let hit : (r.id == id) ≡ true → has_window env other r ≡ is_window env frequency window =
        (λ q.
          ap (λ f. has_window env f r) plain
          ∙ has_window-window r h (all.0 ((eq_iff r.id id).0 q))) in
      elim (Bool-cases (r.id == id)) [
        | inl same ↦ let read = hit same in ground (arith, read, rest)
        | inr differs ↦ ground (arith, rest)
      ]

  -- Where every rule of an id has the same window in its definition, or none, the id is chosen for
  -- a frequency of a time scope exactly when it is a candidate, a rule of that id is enabled, and the
  -- window is the frequency, without regard to case. So a window such as `always` is never chosen.
  pub filter_rule_ids_by_definition-contains :
      (candidates : List String) (db : Db)
      → contains frequency frequencies ≡ true
      → All HasWindow db.rules
      → contains id (filter_rule_ids_by_definition env db candidates frequency) ≡ (
          contains id candidates
          && (any (λ r. (r.id == id) && r.enabled) db.rules && is_window env frequency window))
  unfolding filter_rule_ids_by_definition
  filter_rule_ids_by_definition-contains candidates db known all =
      let (plain, filled) = frequency-IsPlain env.lower_other frequency known in
      chosen_rules env candidates frequency id db.rules
      ∙ ap (λ b. contains id candidates && b) (runnable_rules db.rules filled plain all)
