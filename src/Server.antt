-- ===== src/Server.antt =====
-- The server: Basic_Operation/server_code.
pub mod Queue
pub mod State
pub mod Callbacks
pub mod Queries
pub mod Transfer
pub mod Namespace
pub mod Subscribe
pub mod WellFormed
pub mod Delivery
pub mod Calls
pub mod Steady
pub mod Invariant
pub mod Watches
pub mod Inbox
pub mod Upload
pub mod Publish
pub mod Stuck
pub mod Renaming
pub mod Removal
pub mod Cleanup
pub mod Subscription
pub mod Roundtrip
pub mod Store
pub mod Apart
pub mod Refines
