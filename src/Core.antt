-- ===== src/Core.antt =====
-- edgeproc/core: tasks, runtimes and the router, admission by memory, telemetry and the facade.
pub mod Models
pub mod Router
pub mod Memory
pub mod Telemetry
pub mod Facade
pub mod Duration
pub mod Settings
