-- ===== src/Fs/Cache.antt =====
-- common/fs/src/cache: the cache of the watched part of the file system.
pub mod Guarded
pub mod Symlinks
pub mod Data
pub mod Effect
pub mod Passes
pub mod Offsets
pub mod Register
pub mod Insert
pub mod Remove
pub mod Process
pub mod Start
pub mod Stream
pub mod Tidy
