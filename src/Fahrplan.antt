-- ===== src/Fahrplan.antt =====
-- tspl-fahrplan: the service that stores schedules and answers questions about them.
pub mod Types
pub mod Days
pub mod Order
pub mod Errors
pub mod Auth
pub mod Query
pub mod Lookup
pub mod Examples
