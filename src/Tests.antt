-- ===== src/Tests.antt =====
-- Runs of the model on concrete inputs, and the theorems at such inputs.
mod Merging
mod Ledgers
mod Samples
mod Conflicts
mod Deletions
mod Copies
mod Candidates
mod Commands
mod Configs
mod Filters
mod Paths
mod Sessions
mod Shares
mod Gates
mod Truncated
mod Wrappers
mod Programs
mod Runs
mod LaterRuns
mod Worktrees
