-- ===== src/Seed/Apply/Applied.antt =====
-- The rows that an applied seed leaves.
use nudging_tool.Prelude.{List}
use nudging_tool.Json.{Dict}
use nudging_tool.Db.{Db}
use nudging_tool.Session.{Session}
use nudging_tool.Env.{Env}
use nudging_tool.Seed.Columns.{Columns}
use nudging_tool.Seed.Table.{Table, IsTable}
use nudging_tool.Seed.Table.Repeat.{IsApplied, ReadsAll}
use nudging_tool.Seed.Table.Stored.{IsStored}

module _ {Key Row Patch : Type 0} (table : Table Key Row Patch) (laws : IsTable table)
    (Holds : Dict → Row → Type 0) where
  -- The items could all be read, the key of each has one row, to assign them all again would not
  -- change a row, and the row of a key holds what the last item of that key says.
  abbrev pub IsSeeded : List Dict → List Row → Type 0
  IsSeeded items rows =
      (ws : List (Key × Patch)) × ReadsAll table laws items ws
      × IsApplied table laws ws rows
      × IsStored table laws Holds items rows
