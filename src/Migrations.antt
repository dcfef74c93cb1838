-- ===== src/Migrations.antt =====
-- tspl-sqlite/src/migrations.rs: the migrations that a service applies when it opens its database. An
-- `i32` is its distance from `i32::MIN`. What a script does to the tables is a parameter, and so is
-- the clock: the time at which a migration is applied. SQLite takes no notice of `PRAGMA foreign_keys`
-- inside a transaction, and here it is set outside.
pub mod Pending
pub mod Again
pub mod Examples
use trainsplorer.Prelude.{
  ℕ, String, Bool, true, false, Option, none, some, List, [], ◌∷◌, ◌++◌, nat_eq, ◌==◌, ltb, leb,
  if◌then◌else◌,
}
use trainsplorer.Sqlite.{any_row}

pub record MigrationEntry : Type 0 where
  pub id : ℕ
  pub timestamp : ℕ

pub record Migration : Type 0 where
  pub id : ℕ
  pub name : String
  pub up : String

pub data SqlError : Type 0 where
  sqlite database_too_new : SqlError
  migration_out_of_order : ℕ → SqlError

-- How a call ends: `unwrap` of `None` panics.
pub data Outcome : Type 0 where
  done panicked : Outcome
  failed : SqlError → Outcome

pub record Connection (S : Type 0) : Type 0 where
  pub entries : List MigrationEntry
  pub foreign_keys : Bool
  pub schema : S

-- The row with the largest id: `ORDER BY id DESC LIMIT 1`.
abbrev pub latest_entry : List MigrationEntry → Option MigrationEntry
latest_entry [] = none
latest_entry (e ∷ es) = elim (latest_entry es) [
  | none ↦ some e
  | some l ↦ if ltb e.id l.id then some l else some e
]

-- `.map(|x| x.id)`
abbrev pub entry_id : Option MigrationEntry → Option ℕ
entry_id none = none
entry_id (some e) = some e.id

unfoldable pub get_last_migration : {S : Type 0} → Connection S → Option ℕ
get_last_migration conn = entry_id (latest_entry conn.entries)

-- `.unwrap_or(::std::i32::MIN)`
abbrev pub unwrap_or_min : Option ℕ → ℕ
unwrap_or_min none = 0
unwrap_or_min (some id) = id

abbrev pub last_of : List Migration → Option Migration
last_of [] = none
last_of (m ∷ []) = some m
last_of (m ∷ n ∷ ms) = last_of (n ∷ ms)

module _ {S : Type 0} (execute_batch : String → S → Option S) (clock : ℕ → ℕ) where
  -- `id INT UNIQUE NOT NULL`
  pub insert_entry : MigrationEntry → Connection S → Option (Connection S)
  insert_entry e conn =
      if any_row (λ d. d.id == e.id) conn.entries
      then none
      else some (record conn { entries = conn.entries ++ e ∷ [] })

  -- The transaction, of which nothing stays if it fails.
  pub transact : Migration → Connection S → Option (Connection S)
  unfolding insert_entry
  transact m conn = elim (execute_batch m.up conn.schema) [
    | none ↦ none
    | some s ↦
        insert_entry (record { id = m.id; timestamp = clock m.id }) (record conn { schema = s })
  ]

  unfoldable pub up : Migration → Connection S → Outcome × Connection S
  unfolding transact
  up m conn =
      let off = record conn { foreign_keys = false } in
      if any_row (λ e. leb m.id e.id) off.entries
      then (failed (migration_out_of_order m.id), off)
      else elim (transact m off) [
        | none ↦ (failed sqlite, off)
        | some conn' ↦ (done, record conn' { foreign_keys = true })
      ]

  -- What `?` does with the outcome of a step.
  abbrev pub and_then :
      Outcome × Connection S → (Connection S → Outcome × Connection S) → Outcome × Connection S
  and_then (done, conn) next = next conn
  and_then (failed e, conn) next = (failed e, conn)
  and_then (panicked, conn) next = (panicked, conn)

  pub run_from : ℕ → List Migration → Connection S → Outcome × Connection S
  unfolding up
  run_from last [] conn = (done, conn)
  run_from last (m ∷ ms) conn = elim (ltb last m.id) [
    | true ↦ and_then (up m conn) (run_from m.id ms)
    | false ↦ run_from last ms conn
  ]

  unfoldable pub run_pending_migrations : List Migration → Connection S → Outcome × Connection S
  unfolding run_from get_last_migration
  run_pending_migrations migrations conn =
      let last_migration = unwrap_or_min (get_last_migration conn) in
      elim (last_of migrations) [
        | none ↦ (panicked, conn)
        | some l ↦
            if ltb l.id last_migration
            then (failed database_too_new, conn)
            else run_from last_migration migrations conn
      ]
