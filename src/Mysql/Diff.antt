-- ===== src/Mysql/Diff.antt =====
-- What the statements of `alterTable` do to the columns of a table.
pub mod Run
pub mod Execute
pub mod Additions
mod Removals
pub mod Applied
