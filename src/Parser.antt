-- ===== src/Parser.antt =====
-- pkg/parser, which reports the symbols and references of Go packages to the index.
pub mod Stage
pub mod Types
pub mod Packages
pub mod Items
pub mod Files
