-- ===== src/Examples.antt =====
-- Concrete instances: a disk in memory that satisfies what `Os` asks for, runs of the model on it,
-- and the theorems applied to such runs.
pub mod Memory
pub mod Drives
pub mod Uploads
pub mod Changes
pub mod Sessions
pub mod Renames
pub mod Systems
pub mod Worlds
pub mod Creators
pub mod Peeks
pub mod Folders
