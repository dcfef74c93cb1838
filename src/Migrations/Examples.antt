-- ===== src/Migrations/Examples.antt =====
-- The theorems about migrations, for a database that has the first of three. What a script does is to
-- write its text down.
use trainsplorer.Prelude.{
  ℕ, ◌+◌, String, ◌≡◌, refl, true, Option, some, List, [], ◌∷◌, ◌++◌, select, arith,
}
use trainsplorer.Sqlite.{any_row}
use trainsplorer.Migrations.{Migration, done, Connection, up, run_pending_migrations}
use trainsplorer.Migrations.Pending.{
  Ascending, is_pending, last_id, largest_id, apply_scripts, run_pending_migrations-pending,
}
use trainsplorer.Migrations.Again.{run_pending_migrations-again}

abbrev write_down : String → List String → Option (List String)
write_down script log = some (log ++ script ∷ [])

abbrev clock : ℕ → ℕ
clock id = 100 + id

abbrev initial : Migration
initial = record { id = 5; name = "initial"; up = "CREATE" }

abbrev corpus : Migration
corpus = record { id = 6; name = "corpus"; up = "ALTER" }

abbrev unique_fix : Migration
unique_fix = record { id = 8; name = "unique_fix"; up = "DROP" }

abbrev migrations : List Migration
migrations = initial ∷ corpus ∷ unique_fix ∷ []

migrations-Ascending : Ascending migrations
migrations-Ascending = ((omega arith, (omega arith, tt)), ((omega arith, tt), (tt, tt)))

abbrev opened : Connection (List String)
opened = record {
  entries = record { id = 5; timestamp = 1 } ∷ [];
  foreign_keys = true;
  schema = "CREATE" ∷ [];
}

run_pending_migrations-pending_example :
    run_pending_migrations write_down clock migrations opened
    ≡ apply_scripts write_down clock (select (is_pending (last_id opened)) migrations) opened
unfolding largest_id
run_pending_migrations-pending_example =
    run_pending_migrations-pending write_down clock migrations unique_fix opened
      migrations-Ascending refl (omega arith)

abbrev migrated : Connection (List String)
migrated = (run_pending_migrations write_down clock migrations opened).1

run_pending_migrations-again_example :
    run_pending_migrations write_down clock migrations migrated ≡ (done, migrated)
unfolding run_pending_migrations up any_row
run_pending_migrations-again_example =
    run_pending_migrations-again write_down clock migrations unique_fix opened migrated
      migrations-Ascending refl refl
