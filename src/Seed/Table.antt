-- ===== src/Seed/Table.antt =====
-- db/seed_db.py: what its four `upsert_*` functions share. Each selects the row of a logical key,
-- adds a row if there is none, and assigns the columns that the item gives.
pub mod Readable
pub mod Repeat
pub mod Rows
pub mod Stored
use nudging_tool.Prelude.{
  Bool, true, ◌≡◌, ◌↔◌, Option, none, some, List, ◌∷◌, map, select, if◌then◌else◌,
}
use nudging_tool.Json.{Dict}
use nudging_tool.Db.{Db}
use nudging_tool.Session.{
  Session, Result, ok, Exec, lift, query, modify, scalar_one_or_none, for_each, ◌>>=◌,
}

-- A mapped class as the upserts use it: its rows, the key of a row, the key of an item, the row
-- that an item adds, what an item assigns, and the assignments to a row.
pub record Table (Key Row Patch : Type 0) : Type 0 where
  pub rows : Db → List Row
  pub set_rows : List Row → Db → Db
  pub key_of : Row → Key
  pub same : Key → Key → Bool
  pub item_key : Dict → Result Key
  pub new_row : Key → Dict → Exec Row
  pub item_patch : Dict → Result Patch
  pub assign : Patch → Row → Row

module _ {Key Row Patch : Type 0} (table : Table Key Row Patch) where
  -- `select(T).where(...)` by the logical key.
  abbrev pub hits : Key → List Row → List Row
  hits k = select (λ r. table.same (table.key_of r) k)

  -- The assignments to the row of a key.
  abbrev pub assign_at : Key → Patch → Row → Row
  assign_at k p r = if table.same (table.key_of r) k then table.assign p r else r

  unfoldable pub save_item : Key → Dict → Option Row → Exec Unit
  save_item k item none = do
    row ← table.new_row k item
    patch ← lift (table.item_patch item)
    modify (λ db. table.set_rows (table.assign patch row ∷ table.rows db) db)
  save_item k item (some row) = do
    patch ← lift (table.item_patch item)
    modify (λ db. table.set_rows (map (assign_at k patch) (table.rows db)) db)

  unfoldable pub upsert : Dict → Exec Unit
  unfolding save_item
  upsert item = do
    k ← lift (table.item_key item)
    existing ← query (λ db. hits k (table.rows db))
    found ← lift (scalar_one_or_none existing)
    save_item k item found

  -- `for item in items: await upsert(db, item)`
  unfoldable pub upsert_all : List Dict → Exec Unit
  unfolding upsert for_each
  upsert_all = for_each upsert

  -- What the theorems on repeated upserts need of a table: its rows are a part of the database of
  -- their own, keys are compared as values, a new row has the key of its item, assignments keep
  -- the key, and to assign an item's columns again, also after another item, forgets nothing.
  pub record IsTable : Type 0 where
    pub rows-set_rows : (xs : List Row) (db : Db) → table.rows (table.set_rows xs db) ≡ xs
    pub set_rows-set_rows :
        (xs ys : List Row) (db : Db)
        → table.set_rows xs (table.set_rows ys db) ≡ table.set_rows xs db
    pub set_rows-rows : (db : Db) → table.set_rows (table.rows db) db ≡ db
    pub same_iff : (a b : Key) → (table.same a b ≡ true) ↔ (a ≡ b)
    pub key_of-new_row :
        (k : Key) (item : Dict) (s t : Session) (r : Row)
        → table.new_row k item s ≡ (ok r, t)
        → (table.key_of r ≡ k) × (t.working ≡ s.working)
    pub key_of-assign : (p : Patch) (r : Row) → table.key_of (table.assign p r) ≡ table.key_of r
    pub assign_idem : (p : Patch) (r : Row) → table.assign p (table.assign p r) ≡ table.assign p r
    pub assign_after :
        (p q : Patch) (x y : Row)
        → table.assign p x ≡ table.assign p y
        → table.assign p (table.assign q x) ≡ table.assign p (table.assign q y)
