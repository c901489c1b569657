-- ===== src/Seed/Items/Holds.antt =====
-- What a row holds after an item was assigned to it, column by column.
use nudging_tool.Prelude.{
  String, ◌≡◌, refl, ap, sym, ◌∙◌, true, false, Option, none, some, if◌then◌else◌,
}
use nudging_tool.Json.{Dict, bool, int, str, arr, nil, obj, end, get, has, truthy, or_else}
use nudging_tool.Db.{Rule, RuleOverride, Template, UserPreference}
use nudging_tool.Session.{Result, ok, err}
use nudging_tool.Session.Fallible.{◌>>=◌}
use nudging_tool.Env.{Env}
use nudging_tool.Seed.Columns.{Columns, required, get_or, count_of, text_if, get_of}
use nudging_tool.Seed.Items.{
  RulePatch, TemplatePatch, PreferencePatch, OverridePatch, rule_patch, assign_rule, template_patch,
  preference_patch, assign_preference, override_patch, assign_override, template_table, named_lang,
  given, assigned, lang_after,
}

-- The value of a chain is that of its last step, at the value of its first.
then_parts :
    {A B : Type 0} (m : Result A) (f : A → Result B) (b : B)
    → (m >>= f) ≡ ok b
    → (a : A) × (m ≡ ok a) × (f a ≡ ok b)
then_parts (ok a) f b h = (a, refl, h)
then_parts (err e) f b h = absurd (clash h)
  where
    clash : ◌≡◌ {A = Result _} (err e) (ok b) → ⊥
    clash h = cc

ok_inj : {A : Type 0} (a b : A) → ◌≡◌ {A = Result A} (ok a) (ok b) → a ≡ b
ok_inj a b h = cc

module _ (columns : Columns) where
  -- The columns of a rule are the values of its item, with the defaults of those that may be missing.
  pub record HoldsRule (r : Dict) (row : Rule) : Type 0 where
    pub name : (required "name" r >>= columns.text "rules.name") ≡ ok row.name
    pub enabled : row.enabled ≡ truthy (get_or "enabled" (bool true) r)
    pub family : (required "family" r >>= columns.text "rules.family") ≡ ok row.family
    pub type : (required "type" r >>= columns.text "rules.type") ≡ ok row.type
    pub severity : (required "severity" r >>= columns.text "rules.severity") ≡ ok row.severity
    pub version : count_of columns (get_or "version" (int false 1) r) ≡ ok row.version
    pub definition : columns.json_object (get_or "definition" (obj end) r) ≡ ok row.definition
    pub scenarios :
        (get_of "scenarios" (get "definition" r) >>= λ listed.
        columns.json (or_else (or_else listed (get "scenarios" r)) (arr nil)))
        ≡ ok row.scenarios

  pub rule_holds :
      (r : Dict) (p : RulePatch) (row : Rule)
      → rule_patch columns r ≡ ok p
      → HoldsRule r (assign_rule columns p row)
  unfolding rule_patch
  rule_holds r p row h =
      let (name, e1, h1) = then_parts (required "name" r >>= columns.text "rules.name") _ p h in
      let (family, e2, h2) =
        then_parts (required "family" r >>= columns.text "rules.family") _ p h1 in
      let (type, e3, h3) = then_parts (required "type" r >>= columns.text "rules.type") _ p h2 in
      let (severity, e4, h4) =
        then_parts (required "severity" r >>= columns.text "rules.severity") _ p h3 in
      let (version, e5, h5) =
        then_parts (count_of columns (get_or "version" (int false 1) r)) _ p h4 in
      let (listed, e6, h6) = then_parts (get_of "scenarios" (get "definition" r)) _ p h5 in
      let (scenarios, e7, h7) =
        then_parts (columns.json (or_else (or_else listed (get "scenarios" r)) (arr nil))) _ p h6 in
      let (definition, e8, h8) =
        then_parts (columns.json_object (get_or "definition" (obj end) r)) _ p h7 in
      let same = ok_inj _ p h8 in
      record {
        name = e1 ∙ ap (λ (q : RulePatch). ok q.name) same;
        enabled = sym (ap (λ (q : RulePatch). q.enabled) same);
        family = e2 ∙ ap (λ (q : RulePatch). ok q.family) same;
        type = e3 ∙ ap (λ (q : RulePatch). ok q.type) same;
        severity = e4 ∙ ap (λ (q : RulePatch). ok q.severity) same;
        version = e5 ∙ ap (λ (q : RulePatch). ok q.version) same;
        definition = e8 ∙ ap (λ (q : RulePatch). ok q.definition) same;
        scenarios =
            ap
              (λ o. o >>= λ listed.
                columns.json (or_else (or_else listed (get "scenarios" r)) (arr nil)))
              e6
            ∙ e7
            ∙ ap (λ (q : RulePatch). ok q.scenarios) same;
      }

  -- A column of an override that the item has is the value of the item.
  pub record HoldsOverride (o : Dict) (row : RuleOverride) : Type 0 where
    pub enabled :
        has "enabled_override" o ≡ true
        → columns.flag (get "enabled_override" o) ≡ ok row.enabled_override
    pub definition :
        has "definition_override" o ≡ true
        → columns.json_object (or_else (get "definition_override" o) (obj end))
          ≡ ok row.definition_override

  given_value :
      {A : Type 0} (k : String) (o : Dict) (value : Result A) (found : Option A)
      → given k o value ≡ ok found
      → has k o ≡ true
      → (a : A) × (value ≡ ok a) × (found ≡ some a)
  given_value k o value found h there =
      let read = sym (ap (λ b. if b then value >>= (λ a. ok (some a)) else ok none) there) ∙ h in
      let (a, e, same) = then_parts value (λ a. ok (some a)) found read in
      (a, e, sym (ok_inj _ found same))

  pub override_holds :
      (o : Dict) (p : OverridePatch) (row : RuleOverride)
      → override_patch columns o ≡ ok p
      → HoldsOverride o (assign_override columns p row)
  unfolding override_patch
  override_holds o p row h =
      let (enabled, e1, h1) =
        then_parts (given "enabled_override" o (columns.flag (get "enabled_override" o))) _ p h in
      let (definition, e2, h2) =
        then_parts
          (given "definition_override" o
            (columns.json_object (or_else (get "definition_override" o) (obj end))))
          _ p h1 in
      let same = ok_inj _ p h2 in
      record {
        enabled = λ there.
            (let (a, read, found) = given_value "enabled_override" o _ enabled e1 there in
              read
              ∙ ap (λ e. ok (assigned e row.enabled_override))
                  (sym found ∙ ap (λ (q : OverridePatch). q.enabled_override) same));
        definition = λ there.
            (let (a, read, found) = given_value "definition_override" o _ definition e2 there in
              read
              ∙ ap (λ e. ok (assigned e row.definition_override))
                  (sym found ∙ ap (λ (q : OverridePatch). q.definition_override) same));
      }

module _ (env : Env) (columns : Columns) where
  pub record HoldsTemplate (t : Dict) (row : Template) : Type 0 where
    pub title :
        (required "title_jinja" t >>= columns.text "templates.title_jinja") ≡ ok row.title_jinja
    pub body : (required "body_jinja" t >>= columns.text "templates.body_jinja") ≡ ok row.body_jinja

  pub template_holds :
      (t : Dict) (p : TemplatePatch) (row : Template)
      → template_patch env columns t ≡ ok p
      → HoldsTemplate t ((template_table env columns).assign p row)
  unfolding template_patch
  template_holds t p row h =
      let (title, e1, h1) =
        then_parts (required "title_jinja" t >>= columns.text "templates.title_jinja") _ p h in
      let (body, e2, h2) =
        then_parts (required "body_jinja" t >>= columns.text "templates.body_jinja") _ p h1 in
      let same = ok_inj _ p h2 in
      record {
        title = e1 ∙ ap (λ (q : TemplatePatch). ok q.title_jinja) same;
        body = e2 ∙ ap (λ (q : TemplatePatch). ok q.body_jinja) same;
      }

  -- A preference has the language that its item names, and the other columns of its item.
  pub record HoldsPreference (p : Dict) (row : UserPreference) : Type 0 where
    pub lang :
        (l : String)
        → named_lang (get "lang" p) ≡ some l
        → columns.text "user_preferences.lang" (str l) ≡ ok row.lang
    pub channel_web : row.channel_web ≡ truthy (get_or "channel_web" (bool true) p)
    pub channel_email : row.channel_email ≡ truthy (get_or "channel_email" (bool false) p)
    pub channel_telegram : row.channel_telegram ≡ truthy (get_or "channel_telegram" (bool false) p)
    pub channel_whatsapp : row.channel_whatsapp ≡ truthy (get_or "channel_whatsapp" (bool false) p)
    pub email : columns.optional_text "user_preferences.email" (get "email" p) ≡ ok row.email
    pub telegram_chat_id :
        columns.optional_text "user_preferences.telegram_chat_id" (get "telegram_chat_id" p)
        ≡ ok row.telegram_chat_id
    pub whatsapp_phone :
        columns.optional_text "user_preferences.whatsapp_phone" (get "whatsapp_phone" p)
        ≡ ok row.whatsapp_phone
    pub max_per_day :
        count_of columns (get_or "max_per_day" (int false env.settings.max_per_day_default) p)
        ≡ ok row.max_per_day
    pub consents : columns.json (get_or "consents" (obj end) p) ≡ ok row.consents

  pub preference_holds :
      (d : Dict) (p : PreferencePatch) (row : UserPreference)
      → preference_patch env columns d ≡ ok p
      → HoldsPreference d (assign_preference env columns p row)
  unfolding preference_patch
  preference_holds d p row h =
      let (lang, e1, h1) =
        then_parts (text_if columns "user_preferences.lang" (named_lang (get "lang" d))) _ p h in
      let (max_per_day, e2, h2) =
        then_parts
          (count_of columns (get_or "max_per_day" (int false env.settings.max_per_day_default) d)) _
          p h1 in
      let (email, e3, h3) =
        then_parts (columns.optional_text "user_preferences.email" (get "email" d)) _ p h2 in
      let (telegram, e4, h4) =
        then_parts
          (columns.optional_text "user_preferences.telegram_chat_id" (get "telegram_chat_id" d)) _ p
          h3 in
      let (whatsapp, e5, h5) =
        then_parts
          (columns.optional_text "user_preferences.whatsapp_phone" (get "whatsapp_phone" d)) _ p
          h4 in
      let (consents, e6, h6) = then_parts (columns.json (get_or "consents" (obj end) d)) _ p h5 in
      let same = ok_inj _ p h6 in
      record {
        lang = λ l named.
            (let (t, read, found) =
                then_parts (columns.text "user_preferences.lang" (str l)) (λ t. ok (some t)) lang
                  (sym (ap (text_if columns "user_preferences.lang") named) ∙ e1) in
              read
              ∙ ap (λ o. ok (lang_after env.settings.default_lang o row.lang))
                  (ok_inj (some t) lang found ∙ ap (λ (q : PreferencePatch). q.lang) same));
        channel_web = sym (ap (λ (q : PreferencePatch). q.channel_web) same);
        channel_email = sym (ap (λ (q : PreferencePatch). q.channel_email) same);
        channel_telegram = sym (ap (λ (q : PreferencePatch). q.channel_telegram) same);
        channel_whatsapp = sym (ap (λ (q : PreferencePatch). q.channel_whatsapp) same);
        email = e3 ∙ ap (λ (q : PreferencePatch). ok q.email) same;
        telegram_chat_id = e4 ∙ ap (λ (q : PreferencePatch). ok q.telegram_chat_id) same;
        whatsapp_phone = e5 ∙ ap (λ (q : PreferencePatch). ok q.whatsapp_phone) same;
        max_per_day = e2 ∙ ap (λ (q : PreferencePatch). ok q.max_per_day) same;
        consents = e6 ∙ ap (λ (q : PreferencePatch). ok q.consents) same;
      }
