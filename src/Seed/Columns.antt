-- ===== src/Seed/Columns.antt =====
-- db/seed_db.py: the values of an item as they are read and stored.
use nudging_tool.Prelude.{ℕ, String, Bool, true, false, Option, none, some, if◌then◌else◌}
use nudging_tool.Json.{Json, Dict, null, bool, int, float, str, arr, obj, end, lookup, get, or_else}
use nudging_tool.Session.Fallible.{◌>>=◌}
use nudging_tool.Session.{Result, ok, err, key_error, type_error}

-- How a value is stored in a column, or refused by the driver or the database: a text column, named
-- by its table and itself, takes texts up to a length, and an integer column has 32 bits. How `int()`
-- reads a text and a float. The counts of the tables are natural numbers here: what becomes of a
-- negative one is a parameter too. The database refuses a value when the session is flushed, and
-- here it is refused where it is read; nothing is durable before either.
pub record Columns : Type 0 where
  pub text : (column : String) → Json → Result String
  pub optional_text : (column : String) → Json → Result (Option String)
  pub flag : Json → Result (Option Bool)
  pub json_object : Json → Result Dict
  pub json : Json → Result Json
  pub integer : ℕ → Result ℕ
  pub int_of_text : String → Result ℕ
  pub int_of_float : (bits : ℕ) → Result ℕ
  pub negative : (size : ℕ) → Result ℕ

-- `item[k]`
unfoldable pub required : String → Dict → Result Json
required k item = elim (lookup k item) [ none ↦ err (key_error k) | some v ↦ ok v ]

abbrev default_or : Json → Option Json → Json
default_or default none = default
default_or default (some v) = v

-- `item.get(k, default)`
unfoldable pub get_or : String → Json → Dict → Json
get_or k default item = default_or default (lookup k item)

-- `int(v)`
unfoldable pub int_of : Columns → Json → Result ℕ
int_of columns null = err (type_error "int() argument must be a string or a real number")
int_of columns (bool b) = ok (if b then 1 else 0)
int_of columns (int false size) = ok size
int_of columns (int true size) = columns.negative size
int_of columns (float bits) = columns.int_of_float bits
int_of columns (str s) = columns.int_of_text s
int_of columns (arr xs) = err (type_error "int() argument must be a string or a real number")
int_of columns (obj d) = err (type_error "int() argument must be a string or a real number")

-- A text that may be missing.
abbrev pub text_if : Columns → (column : String) → Option String → Result (Option String)
text_if columns column none = ok none
text_if columns column (some s) = columns.text column (str s) >>= λ t. ok (some t)

-- `int(v)`, stored.
unfoldable pub count_of : Columns → Json → Result ℕ
unfolding int_of
count_of columns v = int_of columns v >>= columns.integer

abbrev dict_get : String → Json → Result Json
dict_get k (obj d) = ok (get k d)
dict_get k v = err (type_error "object has no attribute 'get'")

-- `(v or {}).get(k)`
unfoldable pub get_of : String → Json → Result Json
get_of k v = dict_get k (or_else v (obj end))
