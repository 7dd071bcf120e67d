-- ===== src/Ramdisk.antt =====
-- The ramdisk file system.
pub mod Keeps
pub mod Store
pub mod Bitmap
pub mod Inodes
pub mod Address
pub mod Blocks
pub mod Directory
pub mod Process
pub mod PathName
pub mod File
pub mod Calls
pub mod Ioctl
pub mod Reach
pub mod User
pub mod Init
pub mod Load
pub mod Examples
