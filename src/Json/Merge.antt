-- ===== src/Json/Merge.antt =====
-- `_deep_merge` of engine/engine_service.py, and its laws.
use nudging_tool.Prelude.{String, ◌≡◌, refl, false, Option, none, some, eq_iff, arith}
use nudging_tool.Json.{
  Json, null, bool, int, float, str, arr, Dict, end, field, obj, lookup, get, has, put, or_null,
}
use nudging_tool.Json.Laws.{lookup-put}

unfoldable mutual
  unfolding get put

  -- What `out[k]` becomes: a merge where both sides are dicts, the override's value otherwise.
  pub merge_value : Json → Json → Json
  merge_value old (obj e) = elim old [ obj d ↦ obj (deep_merge d e) | _ ↦ obj e ]
  merge_value old v = v

  pub deep_merge : Dict → Dict → Dict
  deep_merge base end = base
  deep_merge base (field k v e) = deep_merge (put k (merge_value (get k base) v) base) e

-- What a merge holds under a key, by what the base and the override hold under it.
abbrev pub merged : Option Json → Option Json → Option Json
merged old none = old
merged (some (obj d)) (some (obj e)) = some (obj (deep_merge d e))
merged old (some v) = some v

merge_value-merged :
    (old : Option Json) (v : Json) → some (merge_value (or_null old) v) ≡ merged old (some v)
unfolding merge_value
merge_value-merged none (obj e) = refl
merge_value-merged none _ = refl
merge_value-merged (some (obj d)) (obj e) = refl
merge_value-merged (some (obj d)) _ = refl
merge_value-merged (some null) (obj e) = refl
merge_value-merged (some null) _ = refl
merge_value-merged (some (bool b)) (obj e) = refl
merge_value-merged (some (bool b)) _ = refl
merge_value-merged (some (int sign size)) (obj e) = refl
merge_value-merged (some (int sign size)) _ = refl
merge_value-merged (some (float bits)) (obj e) = refl
merge_value-merged (some (float bits)) _ = refl
merge_value-merged (some (str s)) (obj e) = refl
merge_value-merged (some (str s)) _ = refl
merge_value-merged (some (arr xs)) (obj e) = refl
merge_value-merged (some (arr xs)) _ = refl

-- Each key of a dict stands once.
abbrev pub HasUniqueKeys : Dict → Type 0
HasUniqueKeys end = Unit
HasUniqueKeys (field k v d) = (has k d ≡ false) × HasUniqueKeys d

lookup_of_has : (k : String) (d : Dict) → has k d ≡ false → lookup k d ≡ none
unfolding lookup has
lookup_of_has k end h = refl
lookup_of_has k (field j v d) h = ground (arith, lookup_of_has k d)

-- A merge holds, under each key, the base's value where the override lacks the key; the merge of the
-- two values where both are dicts; and the override's value otherwise. The keys of the override
-- are distinct, as in every dict.
pub lookup-deep_merge :
    (j : String) (base e : Dict)
    → HasUniqueKeys e
    → lookup j (deep_merge base e) ≡ merged (lookup j base) (lookup j e)
unfolding deep_merge lookup get
lookup-deep_merge j base end u = refl
lookup-deep_merge j base (field k v e) u = ground (
  arith,
  lookup-deep_merge j (put k (merge_value (get k base) v) base) e u.1,
  merge_value-merged (lookup k base) v,
  lookup-put k j (merge_value (get k base) v) base,
  lookup_of_has k e u.0,
  eq_iff k j,
)
