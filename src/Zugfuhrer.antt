-- ===== src/Zugfuhrer.antt =====
-- tspl-zugfuhrer: the service that knows the running trains.
pub mod Types
pub mod Errors
pub mod Store
pub mod Activation
pub mod App
pub mod Query
