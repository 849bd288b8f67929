-- ===== src/Tarfs.antt =====
-- tarfs/tarfs.go: a tar file as a file system.
pub mod Paths
pub mod Text
pub mod Index
pub mod Open
pub mod Decode
pub mod Lookup
pub mod Listing
pub mod Links
pub mod Chase
pub mod Pages
pub mod Section
pub mod File
pub mod Contents
pub mod Seeks
mod Tests
mod FileTests
