-- ===== src/Orchestrator/Kinds/Laws.antt =====
-- The kinds that a preference enables.
use nudging_tool.Prelude.{
  String, ◌≡◌, refl, Bool, true, ◌||◌, Option, none, some, List, [], ◌∷◌, ◌++◌, ◌==◌, contains,
  select, arith, ◌∙◌, not, subst, eq_iff, Bool-cases, inl, inr,
}
use nudging_tool.Json.{Json, arr, obj, texts, get}
use nudging_tool.Db.{UserPreference}
use nudging_tool.Env.{ActiveKind}
use nudging_tool.Orchestrator.Kinds.{
  kinds, required_kinds, append_missing, enabled_by, consents_kinds, enabled_kinds,
}

contains-append :
    (k : String) (xs ys : List String) → contains k (xs ++ ys) ≡ (contains k xs || contains k ys)
contains-append k [] ys = refl
contains-append k (x ∷ xs) ys = ground (arith, contains-append k xs ys)

contains-same :
    (k r : String) (xs : List String)
    → contains r xs ≡ true
    → (r == k) ≡ true
    → contains k xs ≡ true
contains-same k r xs h e = subst (λ x. contains x xs ≡ true) ((eq_iff r k).0 e) h

-- What is enabled stays so, and what is required becomes so.
pub append_missing-contains :
    (k : String) (required enabled : List String)
    → contains k (append_missing required enabled) ≡ (contains k enabled || contains k required)
unfolding append_missing
append_missing-contains k [] enabled = ground arith
append_missing-contains k (r ∷ rs) enabled = elim (Bool-cases (contains r enabled)) [
  | inl there ↦
      rw (there, append_missing-contains k rs enabled) (ground (arith, contains-same k r enabled))
  | inr missing ↦
      rw
        (
          missing,
          append_missing-contains k rs (enabled ++ r ∷ []),
          contains-append k enabled (r ∷ []),
        )
        (ground arith)
]

contains-select :
    (p : ActiveKind → Bool) (k : String) (active : List ActiveKind)
    → contains k (kinds (select p active)) ≡ true
    → contains k (kinds active) ≡ true
contains-select p k [] h = h
contains-select p k (a ∷ rest) h = ground (arith, contains-select p k rest)

selected-active :
    (raw : List String) (active : List ActiveKind) (k : String)
    → contains k (select (λ x. contains x (kinds active)) raw) ≡ true
    → contains k (kinds active) ≡ true
selected-active [] active k h = ground arith
selected-active (r ∷ rs) active k h = ground (arith, selected-active rs active k, eq_iff r k)

-- Bounds on what is enabled.
abbrev Bounded : List ActiveKind → List String → String → Type 0
Bounded active enabled k =
    (contains k (required_kinds active) ≡ true → contains k enabled ≡ true)
    × (contains k enabled ≡ true → contains k (kinds active) ≡ true)

all-Bounded : (active : List ActiveKind) (k : String) → Bounded active (kinds active) k
all-Bounded active k = (contains-select _ k active, λ h. h)

appended-Bounded :
    (wanted : List String) (active : List ActiveKind) (k : String)
    → Bounded active
        (append_missing (required_kinds active) (select (λ x. contains x (kinds active)) wanted))
        k
appended-Bounded wanted active k = (
  λ h.
      append_missing-contains k (required_kinds active)
        (select (λ x. contains x (kinds active)) wanted)
      ∙ ground arith,
  λ h. ground (
    arith,
    append_missing-contains k (required_kinds active)
        (select (λ x. contains x (kinds active)) wanted),
    selected-active wanted active k,
    contains-select (λ x. not x.editable) k active,
  ),
)

enabled_by-Bounded :
    (v : Json) (active : List ActiveKind) (k : String) → Bounded active (enabled_by v active) k
enabled_by-Bounded (arr raw) active k = appended-Bounded (texts raw) active k
enabled_by-Bounded _ active k = all-Bounded active k

consents-Bounded :
    (v : Json) (active : List ActiveKind) (k : String) → Bounded active (consents_kinds v active) k
consents-Bounded (obj d) active k = enabled_by-Bounded (get "enabled_notification_kinds" d) active k
consents-Bounded _ active k = all-Bounded active k

-- Whatever a preference says, every kind that a user cannot edit is enabled, and nothing is enabled
-- that is not active.
pub enabled_kinds-required :
    (pref : Option UserPreference) (active : List ActiveKind) (k : String)
    → (contains k (required_kinds active) ≡ true → contains k (enabled_kinds pref active) ≡ true)
      × (contains k (enabled_kinds pref active) ≡ true → contains k (kinds active) ≡ true)
unfolding enabled_kinds
enabled_kinds-required none active k = all-Bounded active k
enabled_kinds-required (some pref) active k = consents-Bounded pref.consents active k
