-- ===== src/Api/Preferences/Laws.antt =====
-- An update of the preferences, read back.
use nudging_tool.Prelude.{
  String, ◌≡◌, refl, Bool, true, ◌&&◌, ◌||◌, none, some, List, [], ◌∷◌, select, contains, arith,
  eq_iff, ap,
}
use nudging_tool.Json.{arr, texts, of_texts}
use nudging_tool.Json.Laws.{get-put}
use nudging_tool.Db.{UserPreference}
use nudging_tool.Env.{ActiveKind}
use nudging_tool.Orchestrator.Kinds.{kinds, required_kinds, append_missing, enabled_kinds}
use nudging_tool.Orchestrator.Kinds.Laws.{append_missing-contains, enabled_kinds-required}
use nudging_tool.Api.Preferences.{UserPreferenceUpdateIn, updated_preference, consents_dict}

texts-of_texts : (ss : List String) → texts (of_texts ss) ≡ ss
texts-of_texts [] = refl
texts-of_texts (s ∷ ss) = ap (λ rest. s ∷ rest) (texts-of_texts ss)

-- The consents after an update that names kinds hold the list as it was worked out.
stored_kinds :
    (body : UserPreferenceUpdateIn) (wanted : List String) (active : List ActiveKind)
    → (pref : UserPreference) → body.enabled_notification_kinds ≡ some wanted
    → enabled_kinds (some (updated_preference body active pref)) active
      ≡ append_missing (required_kinds active) (
          select
            (λ k. contains k (kinds active))
            (append_missing
              (required_kinds active)
              (select (λ k. contains k (kinds active)) wanted)))
unfolding enabled_kinds updated_preference
stored_kinds body wanted active pref h =
    rw
      (
        h,
        get-put "enabled_notification_kinds" "enabled_notification_kinds"
            (arr (
              of_texts (
                append_missing (required_kinds active)
                  (select (λ k. contains k (kinds active)) wanted))))
            (consents_dict pref.consents),
        texts-of_texts (
            append_missing (required_kinds active)
              (select (λ k. contains k (kinds active)) wanted)),
      )
      refl

contains-kept :
    (p : String → Bool) (k : String) (xs : List String)
    → contains k (select p xs) ≡ (contains k xs && p k)
contains-kept p k [] = refl
contains-kept p k (x ∷ xs) = ground (arith, contains-kept p k xs, eq_iff x k)

required-active :
    (active : List ActiveKind) (k : String)
    → contains k (required_kinds active) ≡ true
    → contains k (kinds active) ≡ true
unfolding enabled_kinds
required-active active k h = (enabled_kinds-required none active k).0 h

-- After an update that names kinds, a kind is enabled exactly when it is one that the user cannot
-- edit, or an active kind that the update names.
pub updated_preference-enabled :
    (body : UserPreferenceUpdateIn) (wanted : List String) (active : List ActiveKind)
    → (pref : UserPreference) → body.enabled_notification_kinds ≡ some wanted
    → (k : String)
    → contains k (enabled_kinds (some (updated_preference body active pref)) active)
      ≡ ((contains k wanted && contains k (kinds active)) || contains k (required_kinds active))
updated_preference-enabled body wanted active pref h k =
    let required = required_kinds active in
    let named = select (λ x. contains x (kinds active)) wanted in
    let is_active = λ (x : String). contains x (kinds active) in
    rw
      (
        stored_kinds body wanted active pref h,
        append_missing-contains k required (select is_active (append_missing required named)),
        contains-kept is_active k (append_missing required named),
        append_missing-contains k required named,
        contains-kept is_active k wanted,
      )
      (ground (arith, required-active active k))
