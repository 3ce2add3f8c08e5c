-- ===== src/Index.antt =====
-- pkg/index, the index that the parser fills: its kinds, its state, and its operations.
pub mod Kinds
pub mod Filetype
pub mod State
pub mod Files
pub mod Symbols
pub mod References
pub mod Directories
pub mod Completion
pub mod Queries
pub mod Decls
pub mod Extents
pub mod Ancestors
pub mod Sound
pub mod SoundFiles
pub mod Recorded
pub mod Writes
pub mod Again
