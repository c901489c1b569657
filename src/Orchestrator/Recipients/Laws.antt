-- ===== src/Orchestrator/Recipients/Laws.antt =====
-- The addresses that come out of a list.
use nudging_tool.Prelude.{
  Char, String, ◌≡◌, refl, true, false, List, [], ◌∷◌, map, contains, has_duplicate, arith,
  Bool-cases, inl, inr, All, eq_iff,
}
use nudging_tool.Text.{strip, lower, is_email}
use nudging_tool.Text.Laws.{strip_idem}
use nudging_tool.Json.{Items, str, nil, cons}
use nudging_tool.Orchestrator.Recipients.{is_new_recipient, recipients_from}

module _ (other : Char → String) where
  -- An address that is valid, stripped, and not among `seen` in lower case.
  abbrev pub IsFresh : List String → String → Type 0
  IsFresh seen email =
      (is_email email ≡ true) × (strip email ≡ email) × (contains (lower other email) seen ≡ false)

  IsFresh-weaken :
      (seen : List String) (k : String) (xs : List String)
      → All (IsFresh (k ∷ seen)) xs
      → All (IsFresh seen) xs
  IsFresh-weaken seen k [] h = tt
  IsFresh-weaken seen k (x ∷ xs) h = ((h.0.0, h.0.1, ground arith), IsFresh-weaken seen k xs h.1)

  fresh-distinct :
      (k : String) (seen xs : List String)
      → All (IsFresh (k ∷ seen)) xs
      → contains k (map (lower other) xs) ≡ false
  fresh-distinct k seen [] h = refl
  fresh-distinct k seen (x ∷ xs) h =
      ground
        (arith, fresh-distinct k seen xs h.1, eq_iff k (lower other x), eq_iff (lower other x) k)

  -- Every recipient is a valid address without space around it, and no two are equal when their
  -- case is ignored, nor equal to one seen before.
  pub recipients_from-IsFresh :
      (seen : List String) (items : Items)
      → All (IsFresh seen) (recipients_from other seen items)
        × (has_duplicate (map (lower other) (recipients_from other seen items)) ≡ false)
  unfolding recipients_from
  recipients_from-IsFresh seen nil = (tt, refl)
  recipients_from-IsFresh seen (cons (str item) items) =
      elim (Bool-cases (is_new_recipient other seen (strip item))) [
        | inl new ↦ rw new (
            let (fresh, distinct) =
              recipients_from-IsFresh (lower other (strip item) ∷ seen) items in
            (
              (((ground arith), strip_idem item, (ground arith)), IsFresh-weaken seen _ _ fresh),
              rw (fresh-distinct _ seen _ fresh) distinct,
            ))
        | inr old ↦ rw old (recipients_from-IsFresh seen items)
      ]
  recipients_from-IsFresh seen (cons _ items) = recipients_from-IsFresh seen items
