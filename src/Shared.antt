-- ===== src/Shared.antt =====
-- common/misc/shared_types/src: types that several parts of the agent share.
pub mod FilePath
pub mod Rule
pub mod Lookback
pub mod DirPath
