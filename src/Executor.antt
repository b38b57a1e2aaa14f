-- ===== src/Executor.antt =====
-- pkg/executor: transactions, joins, and the statements on one table.
pub mod Transaction
pub mod Join
pub mod Present
pub mod Query
pub mod Database
