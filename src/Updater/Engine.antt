-- ===== src/Updater/Engine.antt =====
-- What tspl-fahrplan-updater/src/import.rs uses of SQLite and of Rust's standard library beyond the
-- meaning of its statements: the choice of row ids, the order in which `ORDER BY day_offset, time,
-- action` gives the rows, and the one in which `sort_unstable` leaves the movements. Each gives some
-- sorted rearrangement.
use trainsplorer.Prelude.{Sorter}
use trainsplorer.Sqlite.{Rowids, counting}
use trainsplorer.Fahrplan.Types.{mvt_lt}
use trainsplorer.Fahrplan.Order.{stable}

pub record Engine : Type 0 where
  pub rowids : Rowids
  pub order_by : Sorter mvt_lt
  pub sort_unstable : Sorter mvt_lt

-- The laws can be met.
abbrev pub plain : Engine
plain = record { rowids = counting; order_by = stable; sort_unstable = stable }
