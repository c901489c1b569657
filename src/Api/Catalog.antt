-- ===== src/Api/Catalog.antt =====
-- api/routes/preferences.py: the catalog of kinds that is shown to a user.
use nudging_tool.Prelude.{
  String, Bool, not, ◌||◌, Option, none, some, List, [], ◌∷◌, map, contains, select, is_empty,
  if◌then◌else◌,
}
use nudging_tool.Text.{strip, lower}
use nudging_tool.Json.{Json, Dict, str, end, field}
use nudging_tool.Db.{UserPreference}
use nudging_tool.Session.{Result, ok}
use nudging_tool.Session.Fallible.{◌>>=◌}
use nudging_tool.Env.{ActiveKind, Env}
use nudging_tool.Orchestrator.Kinds.{enabled_kinds}
use nudging_tool.Seed.Collect.{map_all}
use nudging_tool.Seed.Kinds.{resolve_i18n_text}

pub record CatalogItem : Type 0 where
  pub kind : String
  pub label : Json
  pub description : Json
  pub cadence : Json
  pub enabled : Bool
  pub editable : Bool

abbrev lang_of_row : Env → Option UserPreference → String
lang_of_row env none = env.settings.default_lang
lang_of_row env (some pref) =
    if is_empty (strip pref.lang)
    then env.settings.default_lang
    else lower env.lower_other (strip pref.lang)

-- `_preferred_lang`: the language of the request, that of the preference, or the default.
unfoldable pub preferred_lang : Env → Option UserPreference → Option String → String
preferred_lang env pref (some (String.◌∷◌ c s)) =
    if is_empty (strip (String.◌∷◌ c s))
    then lang_of_row env pref
    else lower env.lower_other (strip (String.◌∷◌ c s))
preferred_lang env pref _ = lang_of_row env pref

-- The texts of a kind as a `dict`.
unfoldable pub text_dict : List (String × String) → Dict
text_dict [] = end
text_dict (t ∷ ts) = field t.0 (str t.1) (text_dict ts)

-- One entry of the catalog, with its texts in a language.
unfoldable pub catalog_item : Env → String → List String → ActiveKind → Result CatalogItem
unfolding text_dict
catalog_item env lang enabled item =
    resolve_i18n_text env.lower_other (text_dict item.label) lang >>= λ label.
    resolve_i18n_text env.lower_other (text_dict item.description) lang >>= λ description.
    resolve_i18n_text env.lower_other (text_dict item.cadence) lang >>= λ cadence. ok (record {
      kind = item.kind;
      label = label;
      description = description;
      cadence = cadence;
      enabled = contains item.kind enabled || not item.editable;
      editable = item.editable;
    })

-- `_notification_catalog`
unfoldable pub notification_catalog :
    Env → Option UserPreference → Option String → List ActiveKind → Result (List CatalogItem)
unfolding catalog_item
notification_catalog env pref lang active =
    map_all (catalog_item env (preferred_lang env pref lang) (enabled_kinds pref active)) active

-- `[item["kind"] for item in catalog if item["enabled"]]`
abbrev pub listed_kinds : List CatalogItem → List String
listed_kinds items =
    map (λ (i : CatalogItem). i.kind) (select (λ (i : CatalogItem). i.enabled) items)
