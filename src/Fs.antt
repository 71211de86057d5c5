-- ===== src/Fs.antt =====
-- common/fs/src: what happens to watched files.
pub mod Debouncer
pub mod Cache
