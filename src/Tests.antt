-- ===== src/Tests.antt =====
-- Examples on small inputs.
pub mod World
pub mod Bundles
mod Core
mod Trust
mod Origin
pub mod Vectors
pub mod Snapshots
mod Saved
mod Models
mod Synced
