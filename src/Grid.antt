-- ===== src/Grid.antt =====
-- The table of a query's result that the user edits: web/src/components/sqleditor/components/
-- TabBoxPanel/components/Table.js with its tool bar, and Editable.js with the rows.
mod Defs
mod Steps
mod Guards
mod Adding
mod Rows
mod Inserting
mod Tests
