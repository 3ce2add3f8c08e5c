-- ===== src/Examples.antt =====
-- Runs of the packages on concrete objects.
mod Trees
mod Indexes
mod Workspaces
mod Commits
mod Stages
mod Signatures
mod Loads
mod Sources
