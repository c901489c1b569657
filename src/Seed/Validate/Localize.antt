-- ===== src/Seed/Validate/Localize.antt =====
-- Active kinds that were validated can be shown in any language.
use nudging_tool.Prelude.{
  Char, String, ◌≡◌, refl, true, false, Option, none, some, List, [], ◌∷◌, All, Bool-cases, arith,
  inl, inr,
}
use nudging_tool.Text.{strip}
use nudging_tool.Json.{Json, Dict, str, obj, or_null, lookup, get, put, truthy}
use nudging_tool.Json.Laws.{get-put}
use nudging_tool.Session.{ok}
use nudging_tool.Seed.Kinds.{
  normal_lang, resolve_i18n_text, localize_kind, localize_active_kinds, texts_under,
}
use nudging_tool.Seed.Validate.{is_blank, languages, missing_languages}
use nudging_tool.Seed.Validate.Kinds.{IsTranslated, IsKind}

-- A kind as it is shown: its three texts are there.
abbrev pub IsShown : Dict → Type 0
IsShown k =
    (truthy (get "label" k) ≡ true)
    × (truthy (get "description" k) ≡ true)
    × (truthy (get "cadence" k) ≡ true)

truthy_of_present : (v : Json) → is_blank v ≡ false → truthy v ≡ true
unfolding strip
truthy_of_present (str String.[]) h = cc
truthy_of_present (str (String.◌∷◌ c s)) h = refl
truthy_of_present _ h = cc

english :
    (texts : Dict) → missing_languages languages texts ≡ [] → is_blank (get "en" texts) ≡ false
unfolding missing_languages
english texts h = ground arith

resolve_i18n_text_ok :
    (other : Char → String) (texts : Dict) (lang : String)
    → missing_languages languages texts ≡ []
    → (v : Json) × (resolve_i18n_text other texts lang ≡ ok v) × (truthy v ≡ true)
unfolding resolve_i18n_text
resolve_i18n_text_ok other texts lang h =
    elim (Bool-cases (truthy (get (normal_lang other lang) texts))) [
      | inl e ↦ (get (normal_lang other lang) texts, rw e refl, e)
      | inr e ↦
          (let en = truthy_of_present (get "en" texts) (english texts h) in
            (get "en" texts, rw (e, en) refl, en))
    ]

texts_under_ok :
    (k : String) (item : Dict)
    → IsTranslated (get k item)
    → (texts : Dict) × (texts_under k item ≡ ok texts) × (missing_languages languages texts ≡ [])
unfolding get
texts_under_ok k item h = go (lookup k item) refl h
  where
    go :
        (o : Option Json)
        → lookup k item ≡ o
        → IsTranslated (or_null o)
        → (texts : Dict) × (texts_under k item ≡ ok texts)
          × (missing_languages languages texts ≡ [])
    go (some (obj texts)) e h = (texts, rw (e, texts_under) refl, h)
    go (some _) e h = absurd h
    go none e h = absurd h

localize_kind_ok :
    (other : Char → String) (lang : String) (item : Dict)
    → IsKind item
    → (shown : Dict) × (localize_kind other lang item ≡ ok shown) × IsShown shown
unfolding localize_kind
localize_kind_ok other lang item h =
    let (labels, l1, l2) = texts_under_ok "label" item h.0 in
    let (label, l3, l4) = resolve_i18n_text_ok other labels lang l2 in
    let (descriptions, d1, d2) = texts_under_ok "description" item h.1 in
    let (description, d3, d4) = resolve_i18n_text_ok other descriptions lang d2 in
    let (cadences, c1, c2) = texts_under_ok "cadence" item h.2 in
    let (cadence, c3, c4) = resolve_i18n_text_ok other cadences lang c2 in
    let labelled = put "label" label item in
    let described = put "description" description labelled in
    (
      put "cadence" cadence described,
      rw (l1, l3, d1, d3, c1, c3) refl,
      (
        rw
            (
              get-put "cadence" "label" cadence described,
              get-put "description" "label" description labelled,
              get-put "label" "label" label item,
            )
            l4,
        rw
            (
              get-put "cadence" "description" cadence described,
              get-put "description" "description" description labelled,
            )
            d4,
        rw (get-put "cadence" "cadence" cadence described) c4,
      ),
    )

-- Active kinds with their three texts in every language of the interface are localized without an
-- error, whatever the language that is asked for, and none of the texts that are shown is missing
-- or empty.
pub localize_active_kinds-IsShown :
    (other : Char → String) (lang : String) (items : List Dict)
    → All IsKind items
    → (shown : List Dict) × (localize_active_kinds other lang items ≡ ok shown) × All IsShown shown
unfolding localize_active_kinds
localize_active_kinds-IsShown other lang [] h = ([], refl, tt)
localize_active_kinds-IsShown other lang (item ∷ items) h =
    let (here, done, good) = localize_kind_ok other lang item h.0 in
    let (rest, all_done, all_good) = localize_active_kinds-IsShown other lang items h.1 in
    (here ∷ rest, rw (done, all_done) refl, (good, all_good))
