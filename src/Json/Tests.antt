-- ===== src/Json/Tests.antt =====
-- A merge of two definitions of a rule.
use nudging_tool.Prelude.{◌≡◌, refl, some}
use nudging_tool.Json.{Dict, str, obj, end, field, lookup, get, put, has}
use nudging_tool.Json.Merge.{deep_merge, lookup-deep_merge}

abbrev definition : Dict
definition =
    field "kind" (str "welcome")
      (field "limits" (obj (field "low" (str "1") (field "high" (str "9") end))) end)

abbrev override : Dict
override = field "limits" (obj (field "high" (str "5") end)) end

lookup-deep_merge_example :
    lookup "limits" (deep_merge definition override)
    ≡ some (obj (field "low" (str "1") (field "high" (str "5") end)))
unfolding deep_merge lookup has put get
lookup-deep_merge_example = lookup-deep_merge "limits" definition override (refl, tt)
