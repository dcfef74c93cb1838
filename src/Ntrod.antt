-- ===== src/Ntrod.antt =====
-- ntrod-types: what the Network Rail feeds carry, after parsing.
pub mod Cif
pub mod Days
pub mod Schedule
pub mod Movements
pub mod Examples
