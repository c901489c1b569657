-- ===== src/Seed/Table/Readable.antt =====
-- Items that can be read are applied, whatever the rows.
use nudging_tool.Prelude.{
  ◌≡◌, refl, sym, subst, ◌∙◌, ◌≤◌, ◌⊎◌, inl, inr, List, [], ◌∷◌, map, length, All, arith,
  Bool-cases,
}
use nudging_tool.Json.{Dict}
use nudging_tool.Session.{Session, ok, lift, query, modify, pure, for_each, ◌>>=◌}
use nudging_tool.Session.Bind.{bind-ok}
use nudging_tool.Seed.Table.{Table, IsTable, hits, assign_at, save_item, upsert, upsert_all}
use nudging_tool.Seed.Table.Rows.{length-hits-map}
use nudging_tool.Seed.Table.Repeat.{Step, upsert-Step}

module _ {Key Row Patch : Type 0} (table : Table Key Row Patch) (laws : IsTable table) where
  -- The key and the columns of an item can be read and stored, and a new row can be made for it.
  pub record IsReadable (item : Dict) : Type 0 where
    pub key : Key
    pub patch : Patch
    pub key_read : table.item_key item ≡ ok key
    pub patch_read : table.item_patch item ≡ ok patch
    pub made : (s : Session) → (r : Row) × (t : Session) × (table.new_row key item s ≡ (ok r, t))

  -- No key has two rows.
  abbrev pub IsUnique : List Row → Type 0
  IsUnique rows = (k : Key) → length (hits table k rows) ≤ 1

  Step-IsUnique :
      (k : Key) (p : Patch) (before now : List Row)
      → Step table laws k p before now
      → IsUnique before
      → IsUnique now
  Step-IsUnique k p before now (inl (n, key, absent, e)) unique j =
      subst (λ rows. length (hits table j rows) ≤ 1) (sym e)
        (elim (Bool-cases (table.same (table.key_of (table.assign p n)) j)) [
          | inl hit ↦
              (let key' = sym (laws.key_of-assign p n ∙ key) ∙ (laws.same_iff _ j).0 hit in
                let none_of_j = subst (λ i. length (hits table i before) ≡ 0) key' absent in
                rw hit (omega (arith, none_of_j)))
          | inr other ↦ rw other (unique j)
        ])
  Step-IsUnique k p before now (inr (one, e)) unique j =
      subst (λ rows. length (hits table j rows) ≤ 1) (sym e)
        (omega (arith, length-hits-map table laws j k p before, unique j))

  few_cases : (xs : List Row) → length xs ≤ 1 → (xs ≡ []) ⊎ ((x : Row) × (xs ≡ x ∷ []))
  few_cases [] h = inl refl
  few_cases (x ∷ []) h = inr (x, refl)
  few_cases (x ∷ y ∷ rest) h = absurd (omega (arith, h))

  upsert_ok :
      (item : Dict) (s : Session)
      → IsReadable item
      → IsUnique (table.rows s.working)
      → (t : Session) × (upsert table item s ≡ (ok tt, t))
  unfolding upsert save_item query lift modify ◌>>=◌
  upsert_ok item s h unique =
      elim (few_cases (hits table h.key (table.rows s.working)) (unique h.key)) [
        | inl absent ↦
            (let (r, t, made) = h.made s in
              let rows = table.assign h.patch r ∷ table.rows t.working in
              (
                record t { working = table.set_rows rows t.working },
                rw (h.key_read, absent, made, h.patch_read) refl,
              ))
        | inr (r, found) ↦
            (let rows = map (assign_at table h.key h.patch) (table.rows s.working) in
              (
                record s { working = table.set_rows rows s.working },
                rw (h.key_read, found, h.patch_read) refl,
              ))
      ]

  -- Items that can all be read are applied, and no key has two rows after.
  pub upsert_all_ok :
      (items : List Dict) (s : Session)
      → All IsReadable items
      → IsUnique (table.rows s.working)
      → (t : Session) × (upsert_all table items s ≡ (ok tt, t)) × IsUnique (table.rows t.working)
  unfolding upsert_all for_each pure
  upsert_all_ok [] s h unique = (s, refl, unique)
  upsert_all_ok (item ∷ items) s h unique =
      let (u, done) = upsert_ok item s h.0 unique in
      let (w, reads, step, wrote) = upsert-Step table laws item s u done in
      let (t, rest, unique') =
        upsert_all_ok items u h.1
          (Step-IsUnique w.0 w.1 (table.rows s.working) (table.rows u.working) step unique) in
      (t, bind-ok (upsert table item) _ s tt u done ∙ rest, unique')
