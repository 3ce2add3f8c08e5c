-- ===== src/Indexing.antt =====
-- pkg/indexing, between the command line and the parser: which packages are indexed, under which
-- root, and the tracked files of the repository. The file system, and what path/filepath and go-git
-- compute, are parameters.
pub mod Paths
pub mod Kept
pub mod Expand
pub mod Ancestor
pub mod GoMod
pub mod Groups
pub mod Git
pub mod Tracked
