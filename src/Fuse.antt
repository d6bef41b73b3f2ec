-- ===== src/Fuse.antt =====
-- The FUSE front end: FUSE/FUSE_integration.cpp.
pub mod Replies
pub mod Names
pub mod Data
pub mod Changes
pub mod Fixed
pub mod Bounds
pub mod Locations
pub mod Times
pub mod Echo
pub mod Listing
