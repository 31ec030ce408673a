-- ===== src/Database.antt =====
-- src/internal/infrastructure/database: the two tables with their constraints
-- (migrations/*.up.sql), the statements that the repositories send, the mapping of rows
-- (models/*.go) and the repositories. A statement is atomic: it returns the new tables, or an error
-- and the old ones.
pub mod Rows
pub mod Tables
pub mod Statements
pub mod Consistency
pub mod Split
pub mod Ledger
pub mod Commuting
pub mod Owners
