-- ===== src/Fs.antt =====
-- src/fs.c: the FAT32 file system over a sector device.
pub mod Device
pub mod Bytes
pub mod Names
pub mod Volume
pub mod Fat
pub mod Entries
pub mod Read
pub mod Dirs
pub mod Write
mod Tests
mod WriteTests
