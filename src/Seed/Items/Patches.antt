-- ===== src/Seed/Items/Patches.antt =====
-- What the items of a seed say of the columns, and the helpers of db/seed_db.py.
use nudging_tool.Prelude.{
  ℕ, String, ◌<>◌, Bool, true, false, ◌&&◌, ◌||◌, Option, none, some, ◌==◌, eqb, code, is_empty,
  if◌then◌else◌,
}
use nudging_tool.Text.{strip}
use nudging_tool.Json.{Json, Dict, str, has}
use nudging_tool.Session.{Result, ok, err, type_error}
use nudging_tool.Session.Fallible.{◌>>=◌}

pub record RulePatch : Type 0 where
  pub name : String
  pub enabled : Bool
  pub family : String
  pub type : String
  pub severity : String
  pub version : ℕ
  pub definition : Dict
  pub scenarios : Json

pub record TemplatePatch : Type 0 where
  pub title_jinja : String
  pub body_jinja : String

-- `lang` is there if the item names a language.
pub record PreferencePatch : Type 0 where
  pub lang : Option String
  pub channel_web : Bool
  pub channel_email : Bool
  pub channel_telegram : Bool
  pub channel_whatsapp : Bool
  pub email : Option String
  pub telegram_chat_id : Option String
  pub whatsapp_phone : Option String
  pub max_per_day : ℕ
  pub consents : Json

-- A column is there if the item has its key.
pub record OverridePatch : Type 0 where
  pub enabled_override : Option (Option Bool)
  pub definition_override : Option Dict

-- `text.replace("/", "_").replace(" ", "_")`
unfoldable pub safe : String → String
safe String.[] = ""
safe (String.◌∷◌ c s) =
    let rest = safe s in
    if eqb (code c) 0x2f || eqb (code c) 0x20 then "_" <> rest else String.◌∷◌ c rest

-- `_tpl_id`
unfoldable pub tpl_id : String → String → String
unfolding safe
tpl_id rule_id lang = "tpl_" <> safe rule_id <> "_" <> safe lang

abbrev pub strip_of : Json → Result String
strip_of (str s) = ok (strip s)
strip_of v = err (type_error "object has no attribute 'strip'")

-- The language that the item names: a text that is not blank, stripped.
abbrev pub named_lang : Json → Option String
named_lang (str s) = if is_empty (strip s) then none else some (strip s)
named_lang v = none

abbrev pub assigned : {A : Type 0} → Option A → A → A
assigned none old = old
assigned (some new) old = new

-- A language that is missing is kept, or the default where there is none.
abbrev pub lang_after : String → Option String → String → String
lang_after default none old = if is_empty old then default else old
lang_after default (some lang) old = lang

abbrev pub same_pair : String × String → String × String → Bool
same_pair a b = a.0 == b.0 && a.1 == b.1

abbrev pub same_option : Option String → Option String → Bool
same_option none none = true
same_option (some a) (some b) = a == b
same_option _ _ = false

abbrev pub same_owner : String × Option String → String × Option String → Bool
same_owner a b = a.0 == b.0 && same_option a.1 b.1

-- A value that is read if the item has the key.
abbrev pub given : {A : Type 0} → String → Dict → Result A → Result (Option A)
given k o value = if has k o then value >>= (λ a. ok (some a)) else ok none
