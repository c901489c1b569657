-- ===== src/Json/Laws.antt =====
-- Laws of the operations of `dict`.
use nudging_tool.Prelude.{String, ◌≡◌, refl, true, some, ◌==◌, eq_iff, arith, if◌then◌else◌}
use nudging_tool.Json.{Json, Dict, end, field, lookup, get, has, put}

pub lookup-put :
    (k j : String) (v : Json) (d : Dict)
    → lookup j (put k v d) ≡ (if k == j then some v else lookup j d)
unfolding lookup put
lookup-put k j v end = refl
lookup-put k j v (field i w d) =
    ground (arith, eq_iff k j, eq_iff i k, eq_iff i j, lookup-put k j v d)

pub get-put :
    (k j : String) (v : Json) (d : Dict) → get j (put k v d) ≡ (if k == j then v else get j d)
unfolding get
get-put k j v d = ground (arith, lookup-put k j v d)

pub has-put :
    (k j : String) (v : Json) (d : Dict) → has j (put k v d) ≡ (if k == j then true else has j d)
unfolding has put
has-put k j v end = ground arith
has-put k j v (field i w d) = ground (arith, eq_iff k j, eq_iff i k, eq_iff i j, has-put k j v d)
