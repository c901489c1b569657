-- ===== src/Seed/Files.antt =====
-- A seed directory as seed/loader.py reads it: its files with what parsing each gives, and the parts
-- of `pathlib` that the loader uses. The entries of a directory stand in the order of their names,
-- which makes the order of `sorted(root.rglob(...))` the order of a walk.
use nudging_tool.Prelude.{
  String, Bool, true, false, Option, none, some, List, [], ◌∷◌, ◌++◌, ◌==◌, if◌then◌else◌, is_empty,
}
use nudging_tool.Json.{Json}
use nudging_tool.Session.{Result, ok, err, value_error}

mutual
  -- A file, with what `yaml.safe_load` gives of its text, or a directory.
  pub data Entry : Type 0 where
    file : Result Json → Entry
    directory : Entries → Entry

  pub data Entries : Type 0 where
    empty : Entries
    entry : (name : String) → Entry → Entries → Entries

-- `dir / name`, if it exists.
unfoldable pub child : String → Entries → Option Entry
child name empty = none
child name (entry other e rest) = if other == name then some e else child name rest

-- The entries of a directory that exists and is one, and nothing otherwise.
abbrev pub entries_of : Option Entry → Entries
entries_of (some (directory es)) = es
entries_of _ = empty

abbrev pub is_there : Option Entry → Bool
is_there none = false
is_there (some e) = true

-- `_load_yaml`: whatever goes wrong is a `ValueError`, also for a directory.
unfoldable pub load_yaml : Entry → Result Json
load_yaml (file (ok payload)) = ok payload
load_yaml (file (err e)) = err (value_error "Failed to read YAML")
load_yaml (directory es) = err (value_error "Failed to read YAML")

-- A file that a walk finds: the directories from the root down to it, its name, and itself.
pub record Found : Type 0 where
  pub directories : List String
  pub name : String
  pub content : Entry

-- `text.endswith(suffix)`
unfoldable pub ends_with : (suffix text : String) → Bool
ends_with suffix String.[] = is_empty suffix
ends_with suffix (String.◌∷◌ c s) =
    let rest = ends_with suffix s in if String.◌∷◌ c s == suffix then true else rest

unfoldable mutual
  -- `sorted(root.rglob("*" + suffix))`
  pub rglob : (suffix : String) → List String → Entries → List Found
  rglob suffix dirs empty = []
  rglob suffix dirs (entry name e rest) =
      let here = rglob_entry suffix dirs name e in here ++ rglob suffix dirs rest

  rglob_entry : (suffix : String) → List String → String → Entry → List Found
  rglob_entry suffix dirs name (file r) =
      if ends_with suffix name
      then record { directories = dirs; name = name; content = file r } ∷ []
      else []
  rglob_entry suffix dirs name (directory es) =
      let below = rglob suffix (dirs ++ name ∷ []) es in
      if ends_with suffix name
      then record { directories = dirs; name = name; content = directory es } ∷ below
      else below

-- `sorted(root.rglob("*.yml")) + sorted(root.rglob("*.yaml"))`
unfoldable pub yaml_files : Entries → List Found
yaml_files es = rglob ".yml" [] es ++ rglob ".yaml" [] es

-- The part of a text before its suffix.
abbrev without : (suffix text : String) → String
without suffix String.[] = ""
without suffix (String.◌∷◌ c s) =
    let rest = without suffix s in if String.◌∷◌ c s == suffix then "" else String.◌∷◌ c rest

abbrev name_or : String → String → String
name_or name part = if is_empty part then name else part

-- `path.stem`, for the names that end in `.yml` or `.yaml`; a name that is only a suffix is its
-- own stem.
unfoldable pub stem : String → String
stem name =
    if ends_with ".yml" name
    then name_or name (without ".yml" name)
    else name_or name (without ".yaml" name)
