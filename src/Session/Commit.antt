-- ===== src/Session/Commit.antt =====
-- What a commit checks.
use nudging_tool.Prelude.{
  String, ◌≡◌, false, none, List, ◌∷◌, map, arith, contains, has_duplicate, subst, inl, inr,
  Bool-cases,
}
use nudging_tool.Db.{NudgeLog, Db}
use nudging_tool.Session.{violation, dedup_keys}

no_duplicate_keys : (db : Db) → violation db ≡ none → has_duplicate (dedup_keys db) ≡ false
unfolding violation
no_duplicate_keys db h = elim (Bool-cases (has_duplicate (dedup_keys db))) [
  | inl e ↦ ground (arith, e)
  | inr e ↦ e
]

no_head_duplicate :
    (k : String) (ks : List String) → has_duplicate (k ∷ ks) ≡ false → contains k ks ≡ false
no_head_duplicate k ks h = ground arith

-- A row that could be committed on top of `rest` has a dedup key that `rest` lacks.
pub fresh_of_violation :
    (db : Db) (row : NudgeLog) (rest : List NudgeLog)
    → db.nudges ≡ row ∷ rest
    → violation db ≡ none
    → contains row.dedup_key (map (λ n. n.dedup_key) rest) ≡ false
fresh_of_violation db row rest e h = no_head_duplicate row.dedup_key (map (λ n. n.dedup_key) rest) (
    subst (λ (ns : List NudgeLog). has_duplicate (map (λ n. n.dedup_key) ns) ≡ false) e
      (no_duplicate_keys db h))
