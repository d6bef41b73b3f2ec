-- ===== src/Client.antt =====
-- The client: Basic_Operation/client_code.
pub mod State
pub mod Stub
pub mod Paths
pub mod Files
pub mod Connecting
pub mod Opening
pub mod Closing
pub mod Reading
pub mod Writing
pub mod Creating
pub mod Metadata
pub mod Subscriber
pub mod Rekeying
pub mod Renaming
pub mod Walking
pub mod Moved
pub mod Rekeyed
pub mod Rooted
pub mod Fewer
pub mod Missed
pub mod Endless
pub mod Rehomed
pub mod Orphans
pub mod Sent
pub mod Received
pub mod Fetched
pub mod Flushed
pub mod Tables
pub mod Consistent
pub mod Lifecycle
pub mod Sessions
pub mod Histories
pub mod Stale
pub mod Outdated
pub mod Placed
pub mod Truncated
pub mod Short
pub mod ReadBack
