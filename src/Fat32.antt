-- ===== src/Fat32.antt =====
-- The file system driver, src/fat32.c and src/lib-header/fat32.h.
pub mod Layout
pub mod Driver
pub mod Init
pub mod Directory
pub mod Read
pub mod Write
pub mod Delete
pub mod Move
pub mod Transfer
pub mod Allocate
pub mod Free
pub mod Chain
pub mod Space
pub mod Store
pub mod Folder
pub mod Format
pub mod Lookup
pub mod Slots
pub mod Room
pub mod Refuse
pub mod Create
pub mod Entry
pub mod Reload
pub mod Find
pub mod File
pub mod Remove
pub mod Undo
pub mod Tests
