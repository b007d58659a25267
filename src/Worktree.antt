-- ===== src/Worktree.antt =====
-- internal/runner/worktree.go: the two-way reconciliation over the hub's ledger.
pub mod State
pub mod Operations
pub mod Decide
pub mod Plan
pub mod Reconcile
pub mod Run
