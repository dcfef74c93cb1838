-- ===== src/Util.antt =====
-- tspl-util: the shared helpers of the services.
pub mod Time
pub mod Rpc
pub mod Examples
