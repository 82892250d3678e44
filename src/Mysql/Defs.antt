-- ===== src/Mysql/Defs.antt =====
-- The definitions of the converter to MySQL statements.
mod Doubles
mod Values
mod Rows
mod AlterTable
mod Table
mod CreateTable
mod Statements
mod Columns
unfoldable pub use Doubles.*
unfoldable pub use Values.*
unfoldable pub use Rows.*
unfoldable pub use Table.*
unfoldable pub use CreateTable.*
unfoldable pub use Statements.*
unfoldable pub use Columns.*
unfoldable pub use AlterTable.*
