-- ===== src/Orchestrator/Recipients.antt =====
-- `_explicit_email_recipients`, and its copy `_extract_email_recipients` in
-- api/routes/admin/ingest.py: the valid addresses of a list, each once.
pub mod Laws
use nudging_tool.Prelude.{
  Char, String, Bool, true, false, not, ◌&&◌, List, [], ◌∷◌, contains, is_empty, if◌then◌else◌,
}
use nudging_tool.Text.{strip, lower, is_email}
use nudging_tool.Json.{Json, Items, Dict, str, arr, obj, nil, cons, get}

module _ (other : Char → String) where
  -- Whether an item is kept: a valid address that differs from those before it also in lower case.
  abbrev pub is_new_recipient : List String → String → Bool
  is_new_recipient seen email =
      not (is_empty email) && is_email email && not (contains (lower other email) seen)

  abbrev pub seen_with : List String → String → List String
  seen_with seen email = if is_new_recipient seen email then lower other email ∷ seen else seen

  unfoldable pub recipients_from : List String → Items → List String
  recipients_from seen nil = []
  recipients_from seen (cons (str item) items) =
      let rest = recipients_from (seen_with seen (strip item)) items in
      if is_new_recipient seen (strip item) then strip item ∷ rest else rest
  recipients_from seen (cons item items) = recipients_from seen items

  abbrev recipients_of_value : Json → List String
  recipients_of_value (arr items) = recipients_from [] items
  recipients_of_value _ = []

  unfoldable pub email_recipients : Dict → List String
  unfolding recipients_from
  email_recipients facts = recipients_of_value (get "email_recipients" facts)

  abbrev recipients_of_facts : Json → List String
  recipients_of_facts (obj facts) = email_recipients facts
  recipients_of_facts _ = []

  -- From the payload of a log row.
  unfoldable pub explicit_email_recipients : Dict → List String
  unfolding email_recipients
  explicit_email_recipients payload = recipients_of_facts (get "facts" payload)
