-- ===== src/Permissions.antt =====
-- The permission subsystem (permissions/*.py): rule syntax, the layered decision engine, the
-- stateful manager around it and the broker that carries questions to the user.
pub mod Models
pub mod Rules
pub mod Engine
pub mod Broker
pub mod ManagerState
pub mod Manager
mod Samples
