-- ===== src/Nrod.antt =====
-- tspl-nrod: the workers that turn the feeds into requests to tspl-zugfuhrer.
pub mod Worker
pub mod Darwin
pub mod Trust
pub mod Examples
