-- ===== src/Seed/Items.antt =====
-- db/seed_db.py: `upsert_rule`, `upsert_template`, `upsert_preference`, `upsert_rule_override`, each
-- the upsert of a table. A column that an added row assigns right away holds a placeholder before.
-- What is assigned to a row before an exception is left out: the request ends, and its session is
-- closed without a commit. No stored preference has an empty language.
pub mod Holds
pub mod Laws
mod Patches
use nudging_tool.Prelude.{
  ℕ, String, ◌<>◌, Bool, true, false, ◌&&◌, ◌||◌, Option, none, some, ◌==◌, eqb, code, is_empty,
  if◌then◌else◌,
}
use nudging_tool.Text.{strip}
use nudging_tool.Json.{
  Json, Dict, null, bool, int, str, arr, nil, obj, end, get, has, truthy, or_else, or_null,
}
use nudging_tool.Db.{Rule, RuleOverride, Template, UserPreference, Db}
use nudging_tool.Session.{Result, ok, err, type_error, Exec, pure, lift}
use nudging_tool.Session
use nudging_tool.Session.Fallible.{◌>>=◌}
use nudging_tool.Env.{Env, uuid4, utc_now}
pub use nudging_tool.Seed.Items.Patches.{
  RulePatch, TemplatePatch, PreferencePatch, OverridePatch, safe, tpl_id, strip_of, named_lang,
  assigned, lang_after, same_pair, same_option, same_owner, given,
}
use nudging_tool.Seed.Columns.{Columns, required, get_or, count_of, text_if, get_of}
use nudging_tool.Seed.Table.{Table}

module _ (columns : Columns) where
  unfoldable pub rule_key : Dict → Result String
  rule_key r = required "id" r >>= columns.text "rules.id"

  -- The columns that `upsert_rule` assigns.
  unfoldable pub rule_patch : Dict → Result RulePatch
  rule_patch r = do
    name ← required "name" r >>= columns.text "rules.name"
    family ← required "family" r >>= columns.text "rules.family"
    type ← required "type" r >>= columns.text "rules.type"
    severity ← required "severity" r >>= columns.text "rules.severity"
    version ← count_of columns (get_or "version" (int false 1) r)
    listed ← get_of "scenarios" (get "definition" r)
    scenarios ← columns.json (or_else (or_else listed (get "scenarios" r)) (arr nil))
    definition ← columns.json_object (get_or "definition" (obj end) r)
    ok (record {
      name = name;
      enabled = truthy (get_or "enabled" (bool true) r);
      family = family;
      type = type;
      severity = severity;
      version = version;
      definition = definition;
      scenarios = scenarios;
    })

  abbrev pub assign_rule : RulePatch → Rule → Rule
  assign_rule p row = record row {
    name = p.name;
    enabled = p.enabled;
    family = p.family;
    type = p.type;
    severity = p.severity;
    version = p.version;
    definition = p.definition;
    scenarios = p.scenarios;
  }

  -- `Rule(id=r["id"])`
  unfoldable pub new_rule : String → Dict → Exec Rule
  new_rule id r = pure (record {
    id = id;
    name = "";
    enabled = true;
    family = "";
    type = "";
    severity = "";
    definition = end;
    version = 1;
    scenarios = arr nil;
  })

  abbrev pub rule_table : Table String Rule RulePatch
  rule_table = record {
    rows = λ db. db.rules;
    set_rows = λ rules db. record db { rules = rules };
    key_of = λ row. row.id;
    same = λ a b. a == b;
    item_key = rule_key;
    new_row = new_rule;
    item_patch = rule_patch;
    assign = assign_rule;
  }

  unfoldable pub override_key : Dict → Result (String × String)
  override_key o = do
    rule_id ← required "rule_id" o
    community_id ← required "community_id" o
    rule_text ← columns.text "rule_overrides.rule_id" rule_id
    community_text ← columns.text "rule_overrides.community_id" community_id
    ok (rule_text, community_text)

  -- The columns that `upsert_rule_override` assigns.
  unfoldable pub override_patch : Dict → Result OverridePatch
  override_patch o = do
    enabled ← given "enabled_override" o (columns.flag (get "enabled_override" o))
    definition ←
        given "definition_override" o
          (columns.json_object (or_else (get "definition_override" o) (obj end)))
    ok (record { enabled_override = enabled; definition_override = definition })

  abbrev pub assign_override : OverridePatch → RuleOverride → RuleOverride
  assign_override p row = record row {
    enabled_override = assigned p.enabled_override row.enabled_override;
    definition_override = assigned p.definition_override row.definition_override;
  }

  -- `RuleOverride(rule_id=rule_id, community_id=community_id)`
  unfoldable pub new_override : String × String → Dict → Exec RuleOverride
  new_override k o = pure (record {
    rule_id = k.0;
    community_id = k.1;
    enabled_override = none;
    definition_override = end;
  })

  abbrev pub override_table : Table (String × String) RuleOverride OverridePatch
  override_table = record {
    rows = λ db. db.overrides;
    set_rows = λ overrides db. record db { overrides = overrides };
    key_of = λ row. (row.rule_id, row.community_id);
    same = same_pair;
    item_key = override_key;
    new_row = new_override;
    item_patch = override_patch;
    assign = assign_override;
  }

module _ (env : Env) (columns : Columns) where
  -- The logical key of a template: its rule and its language.
  unfoldable pub template_key : Dict → Result (String × String)
  template_key t = do
    rule_id ← required "rule_id" t
    lang ← strip_of (or_else (or_else (get "lang" t) (str env.settings.default_lang)) (str "en"))
    rule_text ← columns.text "templates.rule_id" rule_id
    lang_text ← columns.text "templates.lang" (str lang)
    ok (rule_text, lang_text)

  unfoldable pub template_patch : Dict → Result TemplatePatch
  template_patch t = do
    title_jinja ← required "title_jinja" t >>= columns.text "templates.title_jinja"
    body_jinja ← required "body_jinja" t >>= columns.text "templates.body_jinja"
    ok (record { title_jinja = title_jinja; body_jinja = body_jinja })

  -- A new row takes the id that the item gives, or the deterministic one. Its rule and language are
  -- assigned here: a row that was found has them already.
  unfoldable pub new_template : String × String → Dict → Exec Template
  unfolding tpl_id
  new_template k t =
      Session.◌>>=◌
        (lift (columns.text "templates.id" (or_else (get "id" t) (str (tpl_id k.0 k.1)))))
        (λ id.
          pure (record { id = id; rule_id = k.0; lang = k.1; title_jinja = ""; body_jinja = "" }))

  abbrev pub template_table : Table (String × String) Template TemplatePatch
  template_table = record {
    rows = λ db. db.templates;
    set_rows = λ templates db. record db { templates = templates };
    key_of = λ row. (row.rule_id, row.lang);
    same = same_pair;
    item_key = template_key;
    new_row = new_template;
    item_patch = template_patch;
    assign = λ p row. record row { title_jinja = p.title_jinja; body_jinja = p.body_jinja };
  }

  unfoldable pub preference_key : Dict → Result (String × Option String)
  preference_key p = do
    user_id ← required "user_id" p >>= columns.text "user_preferences.user_id"
    community_id ← columns.optional_text "user_preferences.community_id" (get "community_id" p)
    ok (user_id, community_id)

  -- The columns that `upsert_preference` assigns.
  unfoldable pub preference_patch : Dict → Result PreferencePatch
  preference_patch p = do
    lang ← text_if columns "user_preferences.lang" (named_lang (get "lang" p))
    max_per_day ←
        count_of columns (get_or "max_per_day" (int false env.settings.max_per_day_default) p)
    email ← columns.optional_text "user_preferences.email" (get "email" p)
    telegram_chat_id ←
        columns.optional_text "user_preferences.telegram_chat_id" (get "telegram_chat_id" p)
    whatsapp_phone ←
        columns.optional_text "user_preferences.whatsapp_phone" (get "whatsapp_phone" p)
    consents ← columns.json (get_or "consents" (obj end) p)
    ok (record {
      lang = lang;
      channel_web = truthy (get_or "channel_web" (bool true) p);
      channel_email = truthy (get_or "channel_email" (bool false) p);
      channel_telegram = truthy (get_or "channel_telegram" (bool false) p);
      channel_whatsapp = truthy (get_or "channel_whatsapp" (bool false) p);
      email = email;
      telegram_chat_id = telegram_chat_id;
      whatsapp_phone = whatsapp_phone;
      max_per_day = max_per_day;
      consents = consents;
    })

  abbrev pub assign_preference : PreferencePatch → UserPreference → UserPreference
  assign_preference p row = record row {
    lang = lang_after env.settings.default_lang p.lang row.lang;
    channel_web = p.channel_web;
    channel_email = p.channel_email;
    channel_telegram = p.channel_telegram;
    channel_whatsapp = p.channel_whatsapp;
    email = p.email;
    telegram_chat_id = p.telegram_chat_id;
    whatsapp_phone = p.whatsapp_phone;
    max_per_day = p.max_per_day;
    consents = p.consents;
  }

  -- The language of a new row: that of the item, or the default.
  abbrev pub first_lang : Dict → Result String
  first_lang p =
      columns.text "user_preferences.lang"
        (str (lang_after env.settings.default_lang (named_lang (get "lang" p)) ""))

  -- `UserPreference(user_id=user_id, community_id=community_id)`, with its language.
  unfoldable pub added_preference : String × Option String → Dict → Exec UserPreference
  added_preference k p = Session.◌>>=◌ (uuid4 env) (λ id. Session.◌>>=◌ (utc_now env) (λ now.
      Session.◌>>=◌ (lift (first_lang p)) (λ lang. pure (record {
        id = id;
        user_id = k.0;
        community_id = k.1;
        lang = lang;
        channel_web = true;
        channel_email = false;
        channel_telegram = false;
        channel_whatsapp = false;
        email = none;
        telegram_chat_id = none;
        whatsapp_phone = none;
        max_per_day = 3;
        consents = obj end;
        updated_at = now;
      }))))

  abbrev pub preference_table : Table (String × Option String) UserPreference PreferencePatch
  preference_table = record {
    rows = λ db. db.preferences;
    set_rows = λ preferences db. record db { preferences = preferences };
    key_of = λ row. (row.user_id, row.community_id);
    same = same_owner;
    item_key = preference_key;
    new_row = added_preference;
    item_patch = preference_patch;
    assign = assign_preference;
  }
