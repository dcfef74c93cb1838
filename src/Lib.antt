-- ===== src/Lib.antt =====
-- trainsplorer, services that track trains on the British network: the schedules, the trains that
-- run to them, and what the feeds report of both. This library models the services' own logic.
--
-- How the parts work together: the importer reads Network Rail's schedule files into the database of
-- tspl-fahrplan, which answers queries on schedules. tspl-zugfuhrer keeps the running trains: it
-- activates one by copying a schedule's movements, that it asks tspl-fahrplan for, and records what
-- Darwin and TRUST report as movements that update those. tspl-nrod turns the feeds' messages into
-- requests to tspl-zugfuhrer. tspl-verknupfen asks both services and joins their answers, and tspl-web
-- shows what it answers as a page.
--
-- The files, with the code that they model:
--   Prelude: shared types, tests, lists, text order, sorting and hash maps.
--   Chrono: dates and times of chrono, as a parameter with laws; `proleptic` meets them.
--   Sqlite: the choice of row ids, as a parameter with a law; `counting` meets it. Queries on rows.
--   Migrations: tspl-sqlite/src/migrations.rs.
--   Util: tspl-util/src/rpc.rs (Util/Rpc) and tspl-util/src/time.rs (Util/Time).
--   Ntrod: ntrod-types/src/cif.rs and fns.rs (Ntrod/Cif), schedule.rs (Ntrod/Days, Ntrod/Schedule),
--     movements.rs (Ntrod/Movements).
--   Fahrplan: tspl-fahrplan/src/types.rs (Fahrplan/Types, Days, Order), errors.rs (Errors), and ctx.rs:
--     get_auth_schedule and find_schedule_on_date (Auth), get_mvts_passing_through (Query),
--     get_connecting_mvts (Query/Connecting), the other lookups (Lookup).
--   Updater: tspl-fahrplan-updater/src/import.rs: midnight_check and apply_schedule_record
--     (Updater/Import), apply_schedule_records with its buffer (Updater/File); and a run of the
--     program, of updater.rs, download.rs, db_init.rs and main.rs (Updater/Job). The ids of rows, the
--     order of `ORDER BY` and of `sort_unstable` are parameters, each some sorted rearrangement
--     (Updater/Engine); so is the parse of a text.
--   Zugfuhrer: tspl-zugfuhrer/src/types.rs (Types), errors.rs (Errors), the SQL statements with the
--     constraints of tspl-zugfuhrer/migrations (Store), activation.rs (Activation), ctx.rs: the
--     requests that change a train or look one up (App) and the queries by place (Query).
--   Nrod: tspl-nrod/src/darwin.rs: process_ts and its times (Nrod/Darwin), the other messages and the
--     map of trains (Nrod/Darwin/Worker); nrod.rs (Nrod/Trust). Nrod/Worker is what both workers have
--     in common. Both are over tspl-zugfuhrer as an interface (ZugService and DarwinService, with the
--     law KeepsTrains), which Nrod/Trust/Running and Nrod/Darwin/Worker/Running fill.
--   Verknupfen: tspl-verknupfen/src/types.rs and ctx.rs.
--   Web: tspl-web/src/movements.rs and util.rs, up to the data that a template is given; Web/Served
--     puts the models of the other services behind it.
-- The modules named Examples hold runs of the theorems on concrete data.
--
-- State: a database is a record of tables, a table a list of rows. A handler takes the state and
-- returns its result and the new state; a transaction that fails leaves the old one. A `SELECT` is
-- the list of the rows that pass, in some order. An error is a value of the service's own type, and
-- so is a panic in Verknupfen. A new UUID is an argument. Dates are day numbers, times of day
-- nanoseconds, both natural numbers; `u8` counters wrap at 256 as in a release build.
--
-- Loops are recursion on their lists. There is fuel in two places: in the cascading deletion of Store
-- it is the number of rows, and every round but the last deletes a row; in the tries of Updater/Job it
-- is one more than the number of retries, which the loop never exceeds.
--
-- Sequences of requests are a step relation (Zugfuhrer/App/Reach).
--
-- Not modelled: sockets, threads, HTTP routes, configuration, logging, HTML templates, XML and JSON
-- parsing; the connection to the feeds; the station names and the search for them (tspl-nennen,
-- atoc-msn, tspl-web/src/suggestions.rs) and the other pages of tspl-web; the cloud storage
-- (tspl-gcs); and the earlier osms crates. A failure of the disk or of a connection to a database is
-- left out.
pub mod Prelude
pub mod Chrono
pub mod Util
pub mod Ntrod
pub mod Fahrplan
pub mod Sqlite
pub mod Migrations
pub mod Updater
pub mod Zugfuhrer
pub mod Nrod
pub mod Verknupfen
pub mod Web
