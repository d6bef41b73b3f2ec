-- ===== src/System.antt =====
-- Client and server put together: the stub of Basic_Operation/client_code/filesystem_client.cpp over
-- the handlers of Basic_Operation/server_code/filesystem_server.cpp.
pub mod Network
pub mod Loopback
pub mod Stored
pub mod Passing
pub mod Coherence
pub mod Growth
pub mod Registered
pub mod Downloaded
pub mod Opened
pub mod Closed
pub mod World
pub mod Interleaved
pub mod Promise
pub mod Untold
pub mod Renewed
