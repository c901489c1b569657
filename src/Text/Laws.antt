-- ===== src/Text/Laws.antt =====
-- Laws of `strip`.
use nudging_tool.Prelude.{String, ◌≡◌, refl, ap, ◌∙◌, inl, inr, Bool-cases, arith}
use nudging_tool.Text.{is_space, lstrip, rstrip, strip}

rstrip_idem : (s : String) → rstrip (rstrip s) ≡ rstrip s
unfolding rstrip
rstrip_idem String.[] = refl
rstrip_idem (String.◌∷◌ c s) = ground (arith, rstrip_idem s)

-- A text that `lstrip` leaves begins with no space, and `rstrip` keeps its first character.
lstrip-rstrip-lstrip : (s : String) → lstrip (rstrip (lstrip s)) ≡ rstrip (lstrip s)
unfolding lstrip rstrip
lstrip-rstrip-lstrip String.[] = refl
lstrip-rstrip-lstrip (String.◌∷◌ c s) = elim (Bool-cases (is_space c)) [
  | inl space ↦ rw space (lstrip-rstrip-lstrip s)
  | inr plain ↦ rw plain (ground arith)
]

pub strip_idem : (s : String) → strip (strip s) ≡ strip s
unfolding strip
strip_idem s = ap rstrip (lstrip-rstrip-lstrip s) ∙ rstrip_idem (lstrip s)
