-- ===== src/Updater.antt =====
-- tspl-fahrplan-updater: the importer of the daily schedule files.
pub mod Engine
pub mod Import
pub mod File
pub mod Job
